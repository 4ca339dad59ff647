-- ===== src/Session/Link.antt =====
-- The connection state: the mapping of the transport's states, the reconnection cycle's delays and
-- its end (handle_transport_state_change, calculate_reconnect_delay_ms).
use Prim.Native.String.{String}
use libpanaudia_core.Prelude.{
  false, if◌then◌else◌, leb, ltb, not, suc, true, u32, zero, ℕ, ◌&&◌, ◌*◌, ◌+◌,
}
use libpanaudia_core.Transport.{
  TransportState, transport_disconnected, transport_connecting, transport_connected,
  transport_ready, transport_failed,
}
use libpanaudia_core.Session.State.{
  disconnected, connecting, connected, reconnecting, failed, Session, report,
}

abbrev pub reconnected : String
reconnected = "Reconnected"

abbrev pub reconnection_failed : String
reconnection_failed = "Reconnection failed"

-- The loop doubles a uint32_t at each attempt, and leaves at the cap.
unfoldable pub double_delay : ℕ → ℕ → ℕ → ℕ
double_delay zero delay cap = delay
double_delay (suc n) delay cap =
    let rest = double_delay n (u32 (delay * 2)) cap in
    if leb cap (u32 (delay * 2)) then cap else rest

module _ {A H : Type 0} where
  unfoldable pub calculate_reconnect_delay_ms : Session A H → ℕ
  unfolding double_delay
  calculate_reconnect_delay_ms s =
      double_delay s.reconnect_attempt s.config.reconnect_base_delay_ms
        s.config.reconnect_max_delay_ms

  unfoldable pub schedule : ℕ → Session A H → Session A H
  unfolding calculate_reconnect_delay_ms
  schedule now s = record s { reconnect_deadline = now + calculate_reconnect_delay_ms s }

  unfoldable pub give_up : Session A H → Session A H
  unfolding report
  give_up s = report failed reconnection_failed (record s { reconnecting_ = false })

  -- While reconnecting, the states in between are kept from the host.
  unfoldable pub while_reconnecting : ℕ → TransportState → Session A H → Session A H
  unfolding schedule give_up report
  while_reconnecting now transport_disconnected s = s
  while_reconnecting now transport_connecting s = s
  while_reconnecting now transport_connected s = s
  while_reconnecting now transport_ready s =
      report connected reconnected (record s { reconnecting_ = false; reconnect_attempt = 0 })
  while_reconnecting now transport_failed s =
      if ltb s.reconnect_attempt s.config.max_reconnect_attempts then schedule now s else give_up s

  unfoldable pub start_reconnecting : ℕ → String → Session A H → Session A H
  unfolding report
  start_reconnecting now message s =
      let t = record s { reconnecting_ = true; reconnect_attempt = 0 } in
      record (report reconnecting message t) { reconnect_deadline = now }

  unfoldable pub map_state : ℕ → TransportState → String → Session A H → Session A H
  unfolding start_reconnecting report
  map_state now transport_disconnected message s = report disconnected message s
  map_state now transport_connecting message s = report connecting message s
  map_state now transport_connected message s = report connecting message s
  map_state now transport_ready message s =
      report connected message (record s { reconnect_attempt = 0 })
  map_state now transport_failed message s =
      if ltb 0 s.config.max_reconnect_attempts && not s.manual_disconnect
      then start_reconnecting now message s
      else report failed message s

  unfoldable pub handle_transport_state_change :
      ℕ → TransportState → String → Session A H → Session A H
  unfolding while_reconnecting map_state
  handle_transport_state_change now ts message s =
      if s.reconnecting_ then while_reconnecting now ts s else map_state now ts message s
