-- ===== src/Session/Thread.antt =====
-- The session thread: one round of session_thread_func. The arguments are msquic's answers and the
-- host's subscribe parameters.
use libpanaudia_core.Prelude.{
  Bool, List, Option, [], false, if◌then◌else◌, leb, none, not, some, true, ℕ, ◌&&◌,
}
use libpanaudia_core.Transport.{
  TransportState, transport_disconnected, transport_connecting, transport_connected,
  transport_ready, transport_failed, Transport, drain_and_parse,
}
use libpanaudia_core.Session.Track.{Platform}
use libpanaudia_core.Session.State.{MoqState, Session}
use libpanaudia_core.Session.Control.{start_orchestration}
use libpanaudia_core.Session.Lifecycle.{hear, attempt_reconnect}
use libpanaudia_core.Session.Media.{is_connected, poll_outbound_tracks}

unfoldable pub is_ready : TransportState → Bool
is_ready transport_disconnected = false
is_ready transport_connecting = false
is_ready transport_connected = false
is_ready transport_ready = true
is_ready transport_failed = false

module _ {A H : Type 0} where
  -- The messages are heard in the state that the transport was in, and then in those it went through.
  unfoldable pub process_incoming : ℕ → Bool → Bool → Option Transport → Session A H → Session A H
  unfolding drain_and_parse hear
  process_incoming now opens starts none s = s
  process_incoming now opens starts (some t) s =
      let after = drain_and_parse opens starts (record t { events = [] }) in
      hear now after.events (record s {
        transport = some (record after { current_state = t.current_state; events = [] });
      })

  unfoldable pub with_exchange : MoqState A H × Transport → Session A H → Session A H
  with_exchange r s = record s { moq = r.0; transport = some r.1 }

  unfoldable pub orchestrate :
      (ℕ → List (ℕ × List ℕ)) → Option Transport → Session A H → Session A H
  unfolding with_exchange start_orchestration is_ready
  orchestrate host none s = s
  orchestrate host (some t) s =
      if not s.moq.orchestration_started && is_ready t.current_state
      then with_exchange (start_orchestration host s.config.jwt (s.moq, t)) s
      else s

  unfoldable pub poll : Platform A H → Option Transport → Session A H → Session A H
  unfolding with_exchange poll_outbound_tracks is_connected
  poll p none s = s
  poll p (some t) s =
      if is_connected s.state then with_exchange (poll_outbound_tracks p (s.moq, t)) s else s

  -- The reconnection timer.
  unfoldable pub check_timer : ℕ → Bool → Bool → Session A H → Session A H
  unfolding attempt_reconnect
  check_timer now init start s =
      if s.reconnecting_ && leb s.reconnect_deadline now
      then attempt_reconnect now init start s
      else s

  unfoldable pub session_round :
      Platform A H
      → ℕ
      → Bool
      → Bool
      → Bool
      → Bool
      → (ℕ → List (ℕ × List ℕ))
      → Session A H
      → Session A H
  unfolding check_timer process_incoming orchestrate poll
  session_round p now init start opens starts host s =
      let s1 = check_timer now init start s in
      let s2 = process_incoming now opens starts s1.transport s1 in
      let s3 = orchestrate host s2.transport s2 in poll p s3.transport s3
