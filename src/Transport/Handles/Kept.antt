-- ===== src/Transport/Handles/Kept.antt =====
-- What the steps that neither connect nor disconnect keep of the handles.
use libpanaudia_core.Moq.Reader.{Parsed, ok, fail, fault}
use libpanaudia_core.Moq.Datagram.{ObjectDatagram, parse_object_datagram}
use libpanaudia_core.Prelude.{
  Bool, Bool-cases, List, [], ap, append_assoc, ap₂, arith, false, if◌then◌else◌, inl, inr, refl,
  some, subst, sym, true, ℕ, ◌++◌, ◌∙◌, ◌∷◌, ◌≡◌,
}
use libpanaudia_core.Transport.Handles.{Quic, drain, stream_open, stream_calls, Call, stream_start}
use libpanaudia_core.Transport.Handles.Contract.{
  held, replay, permits, after, no_handles, replay_snoc,
}
use libpanaudia_core.Transport.Handles.Open.{perform-replay, IsOpen}
use libpanaudia_core.Transport.Handles.Drain.{IsKept, drain_and_parse-IsKept}
use libpanaudia_core.Transport.Handles.Held.{IsHeld, transport-IsOpen}
use libpanaudia_core.Transport.{
  Transport, receive, send_on_control_stream, transport_connected, set_state, start_moq_session,
  is_disconnected, check_connected, drain_and_parse,
}
use libpanaudia_core.Transport.Network.{
  ConnectionEvent, handshake_complete, shutdown_by_transport, shutdown_by_peer, other_event,
  datagram_state, datagram_received, on_connection_event, send_control, send_datagram, notify,
  receive_datagram,
}

abbrev pub is_handshake : ConnectionEvent → Bool
is_handshake handshake_complete = true
is_handshake _ = false

-- A step of the transport that leaves the handles alone.
pub transport-IsHeld :
    (t : Transport) (q : Quic)
    → IsKept q.transport t
    → IsHeld q
    → IsHeld (record q { transport = t })
unfolding held
transport-IsHeld t q k h =
    let s = k.stream_kept in
    let c = k.connection_kept in
    let p = k.pending_kept in
    record {
      opened = transport-IsOpen t q c s h.opened;
      rests = λ d.
          ap₂ (λ (x y : Bool). record (held q) { connection = x; stream = y }) c s
          ∙ h.rests (ground arith);
      awaited = λ a. (p ∙ (h.awaited a).0, s ∙ (h.awaited a).1);
      unconnected = λ e. p ∙ h.unconnected (sym c ∙ e);
      single = λ e. s ∙ h.single (sym p ∙ e);
    }

pub receive-IsKept : (bytes : List ℕ) (t : Transport) → IsKept t (receive bytes t)
unfolding receive
receive-IsKept bytes t = ground arith

receive_datagram-IsKept :
    (r : Parsed ObjectDatagram) (t : Transport) → IsKept t (receive_datagram r t)
unfolding receive_datagram notify
receive_datagram-IsKept (ok d) t = ground arith
receive_datagram-IsKept fail t = ground arith
receive_datagram-IsKept fault t = ground arith

pub on_connection_event-IsKept :
    (e : ConnectionEvent) (t : Transport)
    → is_handshake e ≡ false
    → IsKept t (on_connection_event e t)
unfolding on_connection_event
on_connection_event-IsKept handshake_complete t n = ground arith
on_connection_event-IsKept shutdown_by_transport t n = ground arith
on_connection_event-IsKept shutdown_by_peer t n = ground arith
on_connection_event-IsKept other_event t n = ground arith
on_connection_event-IsKept (datagram_state enabled size) t n = ground arith
on_connection_event-IsKept (datagram_received bytes) t n =
    receive_datagram-IsKept (parse_object_datagram bytes) t

pub send_control-IsKept : (bytes : List ℕ) (t : Transport) → IsKept t (send_control bytes t).1
unfolding send_control send_on_control_stream
send_control-IsKept bytes t = ground arith

pub send_datagram-IsKept : (bytes : List ℕ) (t : Transport) → IsKept t (send_datagram bytes t).1
unfolding send_datagram
send_datagram-IsKept bytes t = ground arith

-- A connection that has been told of, whatever the stream and the log are now.
announced-IsHeld :
    (t : Transport) (cs : List Call) (q : Quic)
    → IsOpen q
    → q.transport.connection ≡ true
    → q.announced ≡ true
    → t.connection ≡ true
    → t.pending_connected ≡ false
    → is_disconnected t.current_state ≡ false
    → replay no_handles cs ≡ some (record (held q) { stream = t.control_stream })
    → IsHeld (record q { transport = t; calls = cs })
unfolding held
announced-IsHeld t cs q o c a d p s r = record {
  opened = record {
    replayed =
        r
        ∙ ap (λ x. some (record (held q) { connection = x; stream = t.control_stream }))
            (c ∙ sym d);
    under_library = o.under_library;
    configuration_under = o.configuration_under;
    connection_under = λ e. ground arith;
    stream_under = λ e. ground arith;
  };
  rests = λ e. ground arith;
  awaited = λ e. ground arith;
  unconnected = λ e. p;
  single = λ e. ground arith;
}

stream_started :
    (starts : Bool) (q : Quic)
    → IsOpen q
    → permits (held q) (stream_open true) ≡ true
    → replay no_handles (q.calls ++ (stream_open true ∷ stream_start starts ∷ []))
      ≡ some (record (held q) { stream = true })
unfolding after permits held
stream_started starts q o p =
    let r = perform-replay q (stream_open true) o p in
    let v =
      replay_snoc no_handles _ (q.calls ++ (stream_open true ∷ [])) (stream_start starts) r refl in
    ap (replay no_handles)
      (sym (append_assoc q.calls (stream_open true ∷ []) (stream_start starts ∷ [])))
    ∙ v

-- The start of the MOQ session, on each answer of msquic.
session-IsHeld :
    (opens starts : Bool) (q : Quic)
    → IsOpen q
    → q.transport.connection ≡ true
    → q.transport.control_stream ≡ false
    → q.announced ≡ true
    → IsHeld (record q {
      transport = start_moq_session opens starts (
          set_state transport_connected "QUIC connected"
            (record q.transport { pending_connected = false }));
      calls = q.calls ++ stream_calls opens starts;
    })
unfolding start_moq_session set_state stream_calls send_on_control_stream held permits after
    is_disconnected
session-IsHeld false starts q o c s n =
    let r = perform-replay q (stream_open false) o in
    announced-IsHeld _ _ q o c n c refl refl
      (r (ground arith) ∙ ap (λ x. some (record (held q) { stream = x })) (sym s))
session-IsHeld true false q o c s n =
    announced-IsHeld _ _ q o c n c refl refl (stream_started false q o (ground arith))
session-IsHeld true true q o c s n =
    announced-IsHeld _ _ q o c n c refl refl (stream_started true q o (ground arith))

check_connected-IsHeld :
    (opens starts : Bool) (q : Quic)
    → IsHeld q
    → IsHeld (record q {
      transport = check_connected opens starts q.transport;
      calls =
          if q.transport.pending_connected then q.calls ++ stream_calls opens starts else q.calls;
    })
unfolding check_connected
check_connected-IsHeld opens starts q h =
    let after_check = λ (b : Bool). record q {
      transport =
          if b
          then start_moq_session opens starts (
              set_state transport_connected "QUIC connected"
                (record q.transport { pending_connected = false }))
          else q.transport;
      calls = if b then q.calls ++ stream_calls opens starts else q.calls;
    } in
    elim (Bool-cases q.transport.pending_connected) [
      | inl e ↦
          subst (λ b. IsHeld (after_check b)) (sym e)
            (session-IsHeld opens starts q h.opened (ground arith) (h.single e) (ground arith))
      | inr e ↦ subst (λ b. IsHeld (after_check b)) (sym e) h
    ]

pub drain-IsHeld : (opens starts : Bool) (q : Quic) → IsHeld q → IsHeld (drain opens starts q)
unfolding drain
drain-IsHeld opens starts q h =
    transport-IsHeld (drain_and_parse opens starts q.transport) _
      (drain_and_parse-IsKept opens starts q.transport) (check_connected-IsHeld opens starts q h)

pub handshake-IsHeld :
    (q : Quic)
    → IsHeld q
    → q.transport.connection ≡ true
    → q.announced ≡ false
    → IsHeld (record q {
      announced = true;
      transport = on_connection_event handshake_complete q.transport;
    })
unfolding on_connection_event held
handshake-IsHeld q h c n = record {
  opened = record {
    replayed = h.opened.replayed;
    under_library = h.opened.under_library;
    configuration_under = h.opened.configuration_under;
    connection_under = h.opened.connection_under;
    stream_under = h.opened.stream_under;
  };
  rests = h.rests;
  awaited = λ e. ground arith;
  unconnected = λ e. ground arith;
  single = λ _. (h.awaited n).1;
}
