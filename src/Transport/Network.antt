-- ===== src/Transport/Network.antt =====
-- What msquic tells the transport, on its own thread, and what the transport hands to it.
use libpanaudia_core.Prelude.{
  Bool, List, [], false, if◌then◌else◌, length, not, true, ℕ, ◌&&◌, ◌++◌, ◌==◌, ◌∷◌,
}
use libpanaudia_core.Moq.Reader.{Parsed, ok, fail, fault}
use libpanaudia_core.Moq.Datagram.{ObjectDatagram, parse_object_datagram}
use libpanaudia_core.Transport.{
  TransportState, Event, datagram, undefined, Transport, send_on_control_stream,
  transport_disconnected, transport_connecting, transport_connected, transport_ready,
  transport_failed,
}

-- The events of a connection that the transport looks at; the others change nothing of its state.
pub data ConnectionEvent : Type 0 where
  handshake_complete shutdown_by_transport shutdown_by_peer other_event : ConnectionEvent
  datagram_state : Bool → ℕ → ConnectionEvent
  datagram_received : List ℕ → ConnectionEvent

unfoldable pub notify : Event → Transport → Transport
notify e t = record t { events = t.events ++ (e ∷ []) }

-- A datagram that does not parse is dropped.
unfoldable pub receive_datagram : Parsed ObjectDatagram → Transport → Transport
unfolding notify
receive_datagram (ok d) t = notify (datagram d) t
receive_datagram fail t = t
receive_datagram fault t = notify undefined t

unfoldable pub on_connection_event : ConnectionEvent → Transport → Transport
unfolding receive_datagram
on_connection_event handshake_complete t = record t { pending_connected = true }
on_connection_event shutdown_by_transport t = record t { pending_transport_shutdown = true }
on_connection_event shutdown_by_peer t = record t { pending_peer_shutdown = true }
on_connection_event other_event t = t
on_connection_event (datagram_state enabled size) t =
    if enabled then record t { max_dgram_size = size } else t
on_connection_event (datagram_received bytes) t = receive_datagram (parse_object_datagram bytes) t

-- The order of the states: sending is open from Connected on, also in Failed.
unfoldable pub can_send : TransportState → Bool
can_send transport_disconnected = false
can_send transport_connecting = false
can_send transport_connected = true
can_send transport_ready = true
can_send transport_failed = true

unfoldable pub send_control : List ℕ → Transport → Bool × Transport
unfolding can_send
send_control bytes t =
    if can_send t.current_state then send_on_control_stream bytes t else (false, t)

unfoldable pub send_datagram_impl : List ℕ → Transport → Bool × Transport
send_datagram_impl bytes t =
    if t.connection && not (length bytes == 0)
    then (true, record t { sent_datagrams = t.sent_datagrams ++ (bytes ∷ []) })
    else (false, t)

unfoldable pub send_datagram : List ℕ → Transport → Bool × Transport
unfolding can_send send_datagram_impl
send_datagram bytes t = if can_send t.current_state then send_datagram_impl bytes t else (false, t)
