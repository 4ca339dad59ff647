-- ===== src/Transport/Memory/Reach.antt =====
-- In every run of the transport the blocks that are allocated are those of the sends of which
-- msquic has not told the end.
use libpanaudia_core.Prelude.{
  Bool, List, ap, arith, either, false, length, length-append, not, refl, subst, sym, ℕ, ◌*◌, ◌++◌,
  ◌+◌, ◌∷◌, ◌≡◌,
}
use libpanaudia_core.Transport.Memory.{
  SendContext, DatagramSendState, send_final, Sends, no_sends, malloc, free_context, with_data,
  send_on_control_stream, with_block, send_datagram_impl, is_final, datagram_state_changed,
  forget_context, forget_datagram, free,
}
use libpanaudia_core.Transport.Memory.Blocks.{
  count, blocks_of, count-append, Owns, free-Owns, Owns-reorder, Owns-fields, free_context-Owns,
  in_flight-free, datagrams-free_context,
}
use libpanaudia_core.Transport.Memory.Owned.{
  owned, IsOwned, length-blocks_of, sent-IsOwned, datagram-IsOwned, count-blocks_of,
}

-- The transport sends, and msquic calls back: once for the end of a send that it has accepted,
-- with the context that it was given, and any number of times before the end of a datagram.
pub data Step (s : Sends) : Sends → Type 0 where
  message_sent :
      (open_stream first second third accepted : Bool)
      → Step s (send_on_control_stream open_stream first second third accepted s).1
  datagram_sent :
      (open_connection first accepted : Bool)
      → Step s (send_datagram_impl open_connection first accepted s).1
  send_completed :
      (c : SendContext) (cs ds : List SendContext)
      → s.in_flight ≡ cs ++ (c ∷ ds)
      → Step s (forget_context (cs ++ ds) (free_context c s))
  datagram_ended :
      (b : ℕ) (bs cs : List ℕ)
      → s.datagrams ≡ bs ++ (b ∷ cs)
      → Step s (forget_datagram (bs ++ cs) (datagram_state_changed send_final b s))
  datagram_told :
      (state : DatagramSendState) (b : ℕ)
      → is_final state ≡ false
      → Step s (datagram_state_changed state b s)

pub data Reachable : Sends → Type 0 where
  initial : Reachable no_sends
  later : {s t : Sends} → Reachable s → Step s t → Reachable t

completed-IsOwned :
    (c : SendContext) (cs ds : List SendContext) (s : Sends)
    → s.in_flight ≡ cs ++ (c ∷ ds)
    → IsOwned s
    → IsOwned (forget_context (cs ++ ds) (free_context c s))
unfolding forget_context IsOwned owned count blocks_of
completed-IsOwned c cs ds s e o =
    let rest = blocks_of (cs ++ ds) ++ s.datagrams in
    let same = ap blocks_of e in
    subst (λ l. Owns (forget_context (cs ++ ds) (free_context c s)) (blocks_of (cs ++ ds) ++ l))
      (sym (datagrams-free_context c s))
      (Owns-fields (free_context c s) _ rest refl refl (
        free_context-Owns c s rest (
          Owns-reorder s (owned s) (c.data_buf ∷ c.quic_buf ∷ c.ctx ∷ rest)
            (λ k. omega (
              arith,
              ap (count k) same,
              count-append k (blocks_of s.in_flight) s.datagrams,
              count-append k (blocks_of (cs ++ ds)) s.datagrams,
              count-blocks_of k cs (c ∷ ds),
              count-blocks_of k cs ds,
            ))
            (omega (
              arith,
              ap length e,
              length-append (blocks_of s.in_flight) s.datagrams,
              length-append (blocks_of (cs ++ ds)) s.datagrams,
              length-blocks_of s.in_flight,
              length-blocks_of (cs ++ ds),
              length-append cs (c ∷ ds),
              length-append cs ds,
            ))
            o)))

ended-IsOwned :
    (b : ℕ) (bs cs : List ℕ) (s : Sends)
    → s.datagrams ≡ bs ++ (b ∷ cs)
    → IsOwned s
    → IsOwned (forget_datagram (bs ++ cs) (datagram_state_changed send_final b s))
unfolding forget_datagram datagram_state_changed IsOwned owned count
ended-IsOwned b bs cs s e o =
    let rest = blocks_of s.in_flight ++ (bs ++ cs) in
    subst
      (λ (l : List SendContext).
        Owns (forget_datagram (bs ++ cs) (free b s)) (blocks_of l ++ (bs ++ cs)))
      (sym (in_flight-free b s))
      (Owns-fields (free b s) _ rest refl refl (
        free-Owns b s rest (
          Owns-reorder s (owned s) (b ∷ rest)
            (λ k. omega (
              arith,
              ap (count k) e,
              count-append k (blocks_of s.in_flight) s.datagrams,
              count-append k (blocks_of s.in_flight) (bs ++ cs),
              count-append k bs (b ∷ cs),
              count-append k bs cs,
            ))
            (omega (
              arith,
              ap length e,
              length-append (blocks_of s.in_flight) s.datagrams,
              length-append (blocks_of s.in_flight) (bs ++ cs),
              length-append bs (b ∷ cs),
              length-append bs cs,
            ))
            o)))

Step-IsOwned : {s t : Sends} → Step s t → IsOwned s → IsOwned t
unfolding send_on_control_stream send_datagram_impl datagram_state_changed
Step-IsOwned {s} (message_sent open_stream first second third accepted) o =
    either (λ (r : Bool × Sends). IsOwned r.1) (not open_stream) (false, s)
      (with_data second third accepted (malloc first s)) (λ _. o)
      λ _. sent-IsOwned first second third accepted s o
Step-IsOwned {s} (datagram_sent open_connection first accepted) o =
    either (λ (r : Bool × Sends). IsOwned r.1) (not open_connection) (false, s)
      (with_block accepted (malloc first s)) (λ _. o) λ _. datagram-IsOwned first accepted s o
Step-IsOwned {s} (send_completed c cs ds e) o = completed-IsOwned c cs ds s e o
Step-IsOwned {s} (datagram_ended b bs cs e) o = ended-IsOwned b bs cs s e o
Step-IsOwned {s} (datagram_told state b n) o = rw n o

Reachable-IsOwned : {s : Sends} → Reachable s → IsOwned s
unfolding IsOwned owned count blocks_of
Reachable-IsOwned initial = record { each = λ k. refl; all = refl; sound = refl }
Reachable-IsOwned (later r s) = Step-IsOwned s (Reachable-IsOwned r)

-- In every run nothing is freed that is not allocated, and three blocks are allocated for each
-- message in flight and one for each datagram: once msquic has told the end of all of them,
-- nothing is left.
pub Reachable-freed :
    {s : Sends}
    → Reachable s
    → (s.corrupted ≡ false) × (length s.live ≡ 3 * length s.in_flight + length s.datagrams)
unfolding IsOwned owned
Reachable-freed {s} r =
    let o = Reachable-IsOwned r in
    (
      o.sound,
      omega (
        arith,
        o.all,
        length-append (blocks_of s.in_flight) s.datagrams,
        length-blocks_of s.in_flight,
      ),
    )
