-- ===== src/Transport/Handles/Drain.antt =====
-- What a round of process_incoming does to the flags of the handles and to the state.
use libpanaudia_core.Prelude.{
  Bool, List, Option, [], arith, drop, either, false, if◌then◌else◌, length, none, refl, some, suc,
  take, zero, ℕ, ◌++◌, ◌==◌, ◌∙◌, ◌∷◌, ◌≡◌,
}
use libpanaudia_core.Transport.{
  Event, state_changed, control_message, datagram, undefined, Transport, set_state, setup_events,
  message_events, parse_round, bytes_consumed, parse_loop, parse_buffer, buffer_len, emit,
  is_disconnected, concat, check_transport_shutdown, check_peer_shutdown, parse_pending,
  check_connected, drain_and_parse,
}
use libpanaudia_core.Moq.Reader.{Parsed, ok, fail, fault}
use libpanaudia_core.Moq.Framing.{server_setup, ControlMessage, parse_control_message}
use libpanaudia_core.Moq.Messages.Setup.{ServerSetupResult, parse_server_setup}

-- Callbacks none of which tells of a disconnect.
abbrev IsServing : List Event → Type 0
IsServing [] = Unit
IsServing (state_changed s message ∷ es) = (is_disconnected s ≡ false) × IsServing es
IsServing (control_message m content ∷ es) = IsServing es
IsServing (datagram d ∷ es) = IsServing es
IsServing (undefined ∷ es) = IsServing es

IsServing-append : (es fs : List Event) → IsServing es → IsServing fs → IsServing (es ++ fs)
IsServing-append [] fs h k = k
IsServing-append (state_changed s message ∷ es) fs h k = (h.0, IsServing-append es fs h.1 k)
IsServing-append (control_message m content ∷ es) fs h k = IsServing-append es fs h k
IsServing-append (datagram d ∷ es) fs h k = IsServing-append es fs h k
IsServing-append (undefined ∷ es) fs h k = IsServing-append es fs h k

IsServing-setup_events : (r : Parsed ServerSetupResult) → IsServing (setup_events r)
unfolding setup_events is_disconnected
IsServing-setup_events (ok r) = (refl, tt)
IsServing-setup_events fail = tt
IsServing-setup_events fault = tt

IsServing-message_events : (m : ControlMessage) → IsServing (message_events m)
unfolding message_events
IsServing-message_events m =
    IsServing-append
      (if m.type == server_setup then setup_events (parse_server_setup m.content) else [])
      (control_message m.type m.content ∷ [])
      (either IsServing (m.type == server_setup) (setup_events (parse_server_setup m.content)) []
        (λ _. IsServing-setup_events (parse_server_setup m.content)) λ _. tt)
      tt

IsServing-parse_round :
    (next : Option ControlMessage) (b : List ℕ) (rest : List Event × List ℕ)
    → IsServing rest.0
    → IsServing (parse_round next b rest).0
unfolding parse_round
IsServing-parse_round none b rest h = tt
IsServing-parse_round (some m) b rest h =
    IsServing-append (message_events m) rest.0 (IsServing-message_events m) h

IsServing-parse_loop : (n : ℕ) (b : List ℕ) → IsServing (parse_loop n b).0
unfolding parse_loop
IsServing-parse_loop zero b = tt
IsServing-parse_loop (suc n) b =
    let next = parse_control_message b in
    let ih = IsServing-parse_loop n (drop (bytes_consumed next) b) in
    either (λ (r : List Event × List ℕ). IsServing r.0) (length b == 0) ([], b)
      (parse_round next b _) (λ _. tt) λ _. IsServing-parse_round next b _ ih

-- What the rest of the round leaves alone.
pub record IsKept (t u : Transport) : Type 0 where
  pub connection_kept : u.connection ≡ t.connection
  pub stream_kept : u.control_stream ≡ t.control_stream
  pub pending_kept : u.pending_connected ≡ t.pending_connected
  pub serving : is_disconnected t.current_state ≡ false → is_disconnected u.current_state ≡ false

-- The log of callbacks and the buffers are none of these fields.
kept :
    {t u : Transport} {es : List Event} {b : List ℕ} {q : List (List ℕ)}
    → IsKept (record t { events = es; recv_buffer = b; pending_control_data = q }) u
    → IsKept t u
kept k = record {
  connection_kept = k.connection_kept;
  stream_kept = k.stream_kept;
  pending_kept = k.pending_kept;
  serving = k.serving;
}

emit-IsKept : (es : List Event) (t : Transport) → IsServing es → IsKept t (emit es t)
unfolding emit set_state
emit-IsKept [] t h = record {
  connection_kept = refl;
  stream_kept = refl;
  pending_kept = refl;
  serving = λ e. e;
}
emit-IsKept (state_changed s message ∷ es) t h =
    let ih = emit-IsKept es (set_state s message t) h.1 in
    record {
      connection_kept = ih.connection_kept;
      stream_kept = ih.stream_kept;
      pending_kept = ih.pending_kept;
      serving = λ _. ih.serving h.0;
    }
emit-IsKept (control_message m content ∷ es) t h =
    kept (emit-IsKept es (record t { events = t.events ++ (control_message m content ∷ []) }) h)
emit-IsKept (datagram d ∷ es) t h =
    kept (emit-IsKept es (record t { events = t.events ++ (datagram d ∷ []) }) h)
emit-IsKept (undefined ∷ es) t h =
    kept (emit-IsKept es (record t { events = t.events ++ (undefined ∷ []) }) h)

-- The round from the parsing on.
parse_pending-IsKept : (t : Transport) → IsKept t (parse_pending t)
unfolding parse_pending parse_buffer
parse_pending-IsKept t =
    let buffer = t.recv_buffer ++ concat t.pending_control_data in
    let parsed = parse_buffer buffer in
    kept (
      emit-IsKept parsed.0 _ (
        IsServing-parse_loop (buffer_len (length buffer))
          (take (buffer_len (length buffer)) buffer)))

shutdowns-IsKept : (t : Transport) → IsKept t (check_peer_shutdown (check_transport_shutdown t))
unfolding check_peer_shutdown check_transport_shutdown set_state is_disconnected
shutdowns-IsKept t = ground arith

IsKept-trans : {t u v : Transport} → IsKept t u → IsKept u v → IsKept t v
IsKept-trans h k = record {
  connection_kept = k.connection_kept ∙ h.connection_kept;
  stream_kept = k.stream_kept ∙ h.stream_kept;
  pending_kept = k.pending_kept ∙ h.pending_kept;
  serving = λ e. k.serving (h.serving e);
}

-- Behind the start of the MOQ session the round only reads these fields.
pub drain_and_parse-IsKept :
    (opens starts : Bool) (t : Transport)
    → IsKept (check_connected opens starts t) (drain_and_parse opens starts t)
unfolding drain_and_parse
drain_and_parse-IsKept opens starts t =
    IsKept-trans (shutdowns-IsKept (check_connected opens starts t)) (parse_pending-IsKept _)
