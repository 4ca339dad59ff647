-- ===== src/Transport/Chunks.antt =====
-- When the caller's thread runs does not matter: the chunks of the control stream may be processed
-- one by one or together.
use libpanaudia_core.Prelude.{
  Bool, List, [], ap, append-nil, append_assoc, arith, false, length, length-append, refl, subst,
  sym, ℕ, ◌++◌, ◌+◌, ◌<◌, ◌^◌, ◌∙◌, ◌∷◌, ◌≡◌, ◌≤◌,
}
use libpanaudia_core.Transport.{
  Event, state_changed, control_message, undefined, Transport, set_state, receive, emit, concat,
  parse_pending, parse_buffer, check_connected, check_transport_shutdown, check_peer_shutdown,
  drain_and_parse, datagram,
}
use libpanaudia_core.Transport.Reassembly.{
  reassemble, reassemble-append, parse_buffer-small, parse_loop_shorter,
}

emit-append : (es fs : List Event) (t : Transport) → emit (es ++ fs) t ≡ emit fs (emit es t)
unfolding emit
emit-append [] fs t = refl
emit-append (state_changed s message ∷ es) fs t = emit-append es fs _
emit-append (control_message m content ∷ es) fs t = emit-append es fs _
emit-append (datagram d ∷ es) fs t = emit-append es fs _
emit-append (undefined ∷ es) fs t = emit-append es fs _

-- The callbacks do not read what the buffers hold.
emit_buffers :
    (es : List Event) (t : Transport) (b : List ℕ) (q : List (List ℕ))
    → emit es (record t { recv_buffer = b; pending_control_data = q })
      ≡ record (emit es t) { recv_buffer = b; pending_control_data = q }
unfolding emit set_state
emit_buffers [] t b q = refl
emit_buffers (state_changed s message ∷ es) t b q = emit_buffers es (set_state s message t) b q
emit_buffers (control_message m content ∷ es) t b q = emit_buffers es _ b q
emit_buffers (datagram d ∷ es) t b q = emit_buffers es _ b q
emit_buffers (undefined ∷ es) t b q = emit_buffers es _ b q

-- No event of the connection waits.
abbrev pub quiet : Transport → Transport
quiet t = record t {
  pending_connected = false;
  pending_transport_shutdown = false;
  pending_peer_shutdown = false;
}

emit-quiet : (es : List Event) (t : Transport) → emit es (quiet t) ≡ quiet (emit es t)
unfolding emit set_state
emit-quiet [] t = refl
emit-quiet (state_changed s message ∷ es) t = emit-quiet es (set_state s message t)
emit-quiet (control_message m content ∷ es) t = emit-quiet es _
emit-quiet (datagram d ∷ es) t = emit-quiet es _
emit-quiet (undefined ∷ es) t = emit-quiet es _

concat-append : (xs ys : List (List ℕ)) → concat (xs ++ ys) ≡ concat xs ++ concat ys
unfolding concat
concat-append [] ys = refl
concat-append (x ∷ xs) ys = rw (concat-append xs ys) (sym (append_assoc x _ _))

-- The bytes that wait, and the state that a parse of them leaves.
abbrev waiting : Transport → List ℕ
waiting t = t.recv_buffer ++ concat t.pending_control_data

abbrev settle : List Event × List ℕ → Transport → Transport
settle r t = record (emit r.0 t) { recv_buffer = r.1; pending_control_data = [] }

-- Fewer than 2^31 bytes wait, with `n` more to come.
abbrev Room : ℕ → Transport → Type 0
Room n t = length (waiting t) + n < 2 ^ 31

parse_pending-buffer : (t : Transport) → parse_pending t ≡ settle (parse_buffer (waiting t)) t
unfolding parse_pending
parse_pending-buffer t = emit_buffers (parse_buffer (waiting t)).0 t _ _

parse_pending-settle :
    (t : Transport) → Room 0 t → parse_pending t ≡ settle (reassemble (waiting t)) t
parse_pending-settle t h =
    parse_pending-buffer t ∙ ap (λ r. settle r t) (parse_buffer-small (waiting t) (omega arith))

settle_buffers :
    (r : List Event × List ℕ) (t : Transport) (b : List ℕ) (q : List (List ℕ))
    → settle r (record t { recv_buffer = b; pending_control_data = q }) ≡ settle r t
settle_buffers r t b q =
    ap (λ (u : Transport). record u { recv_buffer = r.1; pending_control_data = [] })
      (emit_buffers r.0 t b q)

settle-settle :
    (r s : List Event × List ℕ) (t : Transport) → settle s (settle r t) ≡ settle (r.0 ++ s.0, s.1) t
settle-settle r s t =
    settle_buffers s (emit r.0 t) r.1 []
    ∙ ap (λ (u : Transport). record u { recv_buffer = s.1; pending_control_data = [] })
        (sym (emit-append r.0 s.0 t))

waiting-receive : (chunk : List ℕ) (t : Transport) → waiting (receive chunk t) ≡ waiting t ++ chunk
unfolding receive concat
waiting-receive chunk t =
    rw (concat-append t.pending_control_data (chunk ∷ []), append-nil chunk)
      (sym (append_assoc t.recv_buffer (concat t.pending_control_data) chunk))

settle-receive :
    (r : List Event × List ℕ) (chunk : List ℕ) (t : Transport)
    → settle r (receive chunk t) ≡ settle r t
unfolding receive
settle-receive r chunk t = settle_buffers r t _ _

waiting-settle :
    (r : List Event × List ℕ) (chunk : List ℕ) (t : Transport)
    → waiting (receive chunk (settle r t)) ≡ r.1 ++ chunk
unfolding receive concat
waiting-settle r chunk t = ap (λ c. r.1 ++ c) (append-nil chunk)

length-receive :
    (chunk : List ℕ) (t : Transport)
    → length (waiting (receive chunk t)) ≡ length (waiting t) + length chunk
length-receive chunk t = ap length (waiting-receive chunk t) ∙ length-append (waiting t) chunk

-- What waits behind a parse and a chunk.
length-parsed :
    (chunk : List ℕ) (t : Transport)
    → Room 0 t
    → length (waiting (receive chunk (parse_pending t))) ≤ length (waiting t) + length chunk
length-parsed chunk t h =
    let first = reassemble (waiting t) in
    omega (
      arith,
      ap (λ u. length (waiting (receive chunk u))) (parse_pending-settle t h),
      ap length (waiting-settle first chunk t),
      length-append first.1 chunk,
      parse_loop_shorter (length (waiting t)) (waiting t),
    )

parse_pending-receive :
    (chunk : List ℕ) (t : Transport)
    → Room (length chunk) t
    → parse_pending (receive chunk (parse_pending t)) ≡ parse_pending (receive chunk t)
parse_pending-receive chunk t h =
    let first = reassemble (waiting t) in
    let second = reassemble (first.1 ++ chunk) in
    let u = settle first t in
    ap (λ v. parse_pending (receive chunk v)) (parse_pending-settle t (omega arith))
    ∙ parse_pending-settle (receive chunk u) (
        omega (
          arith,
          ap length (waiting-settle first chunk t),
          length-append first.1 chunk,
          parse_loop_shorter (length (waiting t)) (waiting t),
        ))
    ∙ settle-receive _ chunk u
    ∙ ap (λ b. settle (reassemble b) u) (waiting-settle first chunk t)
    ∙ settle-settle first second t
    ∙ sym (
        parse_pending-settle (receive chunk t) (omega (arith, length-receive chunk t))
        ∙ settle-receive _ chunk t
        ∙ ap (λ b. settle (reassemble b) t) (waiting-receive chunk t)
        ∙ ap (λ r. settle r t) (reassemble-append (waiting t) chunk))

-- Without an event, draining is parsing, and none appears.
drain-quiet :
    (opens starts : Bool) (t : Transport)
    → drain_and_parse opens starts (quiet t) ≡ parse_pending (quiet t)
unfolding drain_and_parse check_connected check_transport_shutdown check_peer_shutdown
drain-quiet opens starts t = refl

parse_pending-quiet : (t : Transport) → parse_pending (quiet t) ≡ quiet (parse_pending t)
unfolding parse_pending
parse_pending-quiet t =
    let r = parse_buffer (waiting t) in
    emit-quiet r.0 (record t { recv_buffer = r.1; pending_control_data = [] })

receive-quiet : (chunk : List ℕ) (t : Transport) → receive chunk (quiet t) ≡ quiet (receive chunk t)
unfolding receive
receive-quiet chunk t = refl

-- The transport takes the chunks, and processes what has come before each of them.
pub process_each : Bool → Bool → List (List ℕ) → Transport → Transport
process_each opens starts [] t = drain_and_parse opens starts t
process_each opens starts (c ∷ cs) t =
    process_each opens starts cs (receive c (drain_and_parse opens starts t))

-- It takes them all, and processes once.
pub receive_all : List (List ℕ) → Transport → Transport
receive_all [] t = t
receive_all (c ∷ cs) t = receive_all cs (receive c t)

parse_pending-receive_all :
    (cs : List (List ℕ)) (c : List ℕ) (t : Transport)
    → Room (length c + length (concat cs)) t
    → parse_pending (receive_all cs (receive c (parse_pending t)))
      ≡ parse_pending (receive_all cs (receive c t))
unfolding receive_all concat
parse_pending-receive_all [] c t h = parse_pending-receive c t (omega arith)
parse_pending-receive_all (d ∷ cs) c t h =
    let more = length-append d (concat cs) in
    let parsed = length-parsed c t (omega arith) in
    let both = length-receive c t in
    sym (parse_pending-receive_all cs d (receive c (parse_pending t)) (omega (arith, more, parsed)))
    ∙ ap (λ u. parse_pending (receive_all cs (receive d u)))
        (parse_pending-receive c t (omega arith))
    ∙ parse_pending-receive_all cs d (receive c t) (omega (arith, more, both))

receive_all-quiet :
    (cs : List (List ℕ)) (t : Transport) → receive_all cs (quiet t) ≡ quiet (receive_all cs t)
unfolding receive_all
receive_all-quiet [] t = refl
receive_all-quiet (c ∷ cs) t =
    ap (receive_all cs) (receive-quiet c t) ∙ receive_all-quiet cs (receive c t)

process_each-quiet :
    (opens starts : Bool) (cs : List (List ℕ)) (t : Transport)
    → Room (length (concat cs)) t
    → process_each opens starts cs (quiet t) ≡ parse_pending (receive_all cs (quiet t))
unfolding process_each receive_all concat
process_each-quiet opens starts [] t h = drain-quiet opens starts t
process_each-quiet opens starts (c ∷ cs) t h =
    let settled = ap (receive c) (parse_pending-quiet t) ∙ receive-quiet c (parse_pending t) in
    let more = length-append c (concat cs) in
    let parsed = length-parsed c t (omega arith) in
    ap (λ u. process_each opens starts cs (receive c u)) (drain-quiet opens starts t)
    ∙ ap (process_each opens starts cs) settled
    ∙ process_each-quiet opens starts cs (receive c (parse_pending t)) (omega (arith, more, parsed))
    ∙ ap (λ u. parse_pending (receive_all cs u)) (sym settled)
    ∙ parse_pending-receive_all cs c (quiet t) (omega (arith, more))

process_each-receive_all :
    (opens starts : Bool) (cs : List (List ℕ)) (t : Transport)
    → Room (length (concat cs)) t
    → process_each opens starts cs (quiet t)
      ≡ drain_and_parse opens starts (receive_all cs (quiet t))
process_each-receive_all opens starts cs t h =
    process_each-quiet opens starts cs t h
    ∙ ap parse_pending (receive_all-quiet cs t)
    ∙ sym (drain-quiet opens starts (receive_all cs t))
    ∙ ap (drain_and_parse opens starts) (sym (receive_all-quiet cs t))

-- If no event of the connection waits, and the bytes that wait and those of the chunks are fewer
-- than 2^31, a call of process_incoming before each chunk of the control stream and one at the end
-- leave the transport, with its log of callbacks, as one call after all the chunks does.
pub drain_in_chunks :
    (opens starts : Bool) (cs : List (List ℕ)) (t : Transport)
    → t.pending_connected ≡ false
    → t.pending_transport_shutdown ≡ false
    → t.pending_peer_shutdown ≡ false
    → length (t.recv_buffer ++ concat t.pending_control_data) + length (concat cs) < 2 ^ 31
    → process_each opens starts cs t ≡ drain_and_parse opens starts (receive_all cs t)
drain_in_chunks opens starts cs t c s p h =
    let q : t ≡ quiet t = λ i. record t {
      pending_connected = c i;
      pending_transport_shutdown = s i;
      pending_peer_shutdown = p i;
    } in
    subst (λ u. process_each opens starts cs u ≡ drain_and_parse opens starts (receive_all cs u))
      (sym q) (process_each-receive_all opens starts cs t h)
