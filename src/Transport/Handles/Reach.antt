-- ===== src/Transport/Handles/Reach.antt =====
-- Every run of the transport keeps to the order that msquic asks for.
use libpanaudia_core.Prelude.{Bool, List, arith, false, not, refl, some, true, ℕ, ◌&&◌, ◌≡◌}
use libpanaudia_core.Transport.Handles.{Answers, Quic, new_quic, update, connect, disconnect, drain}
use libpanaudia_core.Transport.Handles.Contract.{no_handles, held, replay}
use libpanaudia_core.Transport.Handles.Held.{IsHeld, closed-IsHeld, disconnect-IsClosed}
use libpanaudia_core.Transport.Handles.Connect.{connect-IsHeld}
use libpanaudia_core.Transport.Handles.Kept.{
  is_handshake, transport-IsHeld, receive-IsKept, on_connection_event-IsKept, send_control-IsKept,
  send_datagram-IsKept, drain-IsHeld, handshake-IsHeld,
}
use libpanaudia_core.Transport.{receive, send_on_control_stream}
use libpanaudia_core.Transport.Network.{
  send_datagram_impl, ConnectionEvent, handshake_complete, on_connection_event, send_control,
  send_datagram,
}

-- msquic tells of a handshake only for a connection that is open, and once for each; the streams
-- that the server opens are not among these handles.
pub data Step (q : Quic) : Quic → Type 0 where
  host_connects : (a : Answers) → Step q (connect a q).1
  host_disconnects : Step q (disconnect q)
  handshake :
      q.transport.connection ≡ true
      → q.announced ≡ false
      → Step q (record q {
        announced = true;
        transport = on_connection_event handshake_complete q.transport;
      })
  connection_event :
      (e : ConnectionEvent) → is_handshake e ≡ false → Step q (update (on_connection_event e) q)
  stream_data : (bytes : List ℕ) → Step q (update (receive bytes) q)
  message_sent : (bytes : List ℕ) → Step q (update (λ t. (send_control bytes t).1) q)
  datagram_sent : (bytes : List ℕ) → Step q (update (λ t. (send_datagram bytes t).1) q)
  processing : (opens starts : Bool) → Step q (drain opens starts q)

pub data Reachable : Quic → Type 0 where
  initial : Reachable new_quic
  later : {q r : Quic} → Reachable q → Step q r → Reachable r

new_quic-IsHeld : IsHeld new_quic
unfolding held replay
new_quic-IsHeld =
    closed-IsHeld new_quic (record { closed = refl; all_closed = refl; forgotten = refl })

Step-IsHeld : {q r : Quic} → Step q r → IsHeld q → IsHeld r
unfolding update
Step-IsHeld {q} (host_connects a) h = connect-IsHeld a q h
Step-IsHeld {q} host_disconnects h = closed-IsHeld _ (disconnect-IsClosed q h.opened)
Step-IsHeld {q} (handshake c n) h = handshake-IsHeld q h c n
Step-IsHeld {q} (connection_event e n) h =
    transport-IsHeld _ q (on_connection_event-IsKept e q.transport n) h
Step-IsHeld {q} (stream_data bytes) h = transport-IsHeld _ q (receive-IsKept bytes q.transport) h
Step-IsHeld {q} (message_sent bytes) h =
    transport-IsHeld _ q (send_control-IsKept bytes q.transport) h
Step-IsHeld {q} (datagram_sent bytes) h =
    transport-IsHeld _ q (send_datagram-IsKept bytes q.transport) h
Step-IsHeld {q} (processing opens starts) h = drain-IsHeld opens starts q h

pub Reachable-IsHeld : {q : Quic} → Reachable q → IsHeld q
Reachable-IsHeld initial = new_quic-IsHeld
Reachable-IsHeld (later r s) = Step-IsHeld s (Reachable-IsHeld r)

-- A message is handed to msquic only with the handle that it goes through.
pub send_control-held :
    (bytes : List ℕ) (q : Quic)
    → ((send_control bytes q.transport).0 && not (held q).stream) ≡ false
unfolding send_control send_on_control_stream held
send_control-held bytes q = ground arith

pub send_datagram-held :
    (bytes : List ℕ) (q : Quic)
    → ((send_datagram bytes q.transport).0 && not (held q).connection) ≡ false
unfolding send_datagram send_datagram_impl held
send_datagram-held bytes q = ground arith

-- In every run of the transport from its construction, the calls that open, start, shut down and
-- close the library, the registration, the configuration, the connection and the control stream
-- keep to the order that msquic asks for, and the handles that they have left open are the ones
-- that the transport holds; no message is handed to msquic without an open control stream, and no
-- datagram without an open connection; after a disconnect, which the destructor makes too, all
-- handles are closed.
pub Reachable-released :
    {q : Quic}
    → Reachable q
    → (bytes : List ℕ)
    → (replay no_handles q.calls ≡ some (held q))
      × (((send_control bytes q.transport).0 && not (held q).stream) ≡ false)
      × (((send_datagram bytes q.transport).0 && not (held q).connection) ≡ false)
      × (replay no_handles (disconnect q).calls ≡ some no_handles)
      × (held (disconnect q) ≡ no_handles)
Reachable-released {q} r bytes =
    let h = Reachable-IsHeld r in
    let c = disconnect-IsClosed q h.opened in
    (
      h.opened.replayed,
      send_control-held bytes q,
      send_datagram-held bytes q,
      c.all_closed,
      c.closed,
    )
