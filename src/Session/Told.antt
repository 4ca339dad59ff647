-- ===== src/Session/Told.antt =====
-- What the host has been told: the last status callback names the state that the session is in.
use Prim.Native.String.{String}
use libpanaudia_core.Prelude.{
  List, [], either, false, ltb, not, refl, true, ℕ, ◌&&◌, ◌++◌, ◌∙◌, ◌∷◌, ◌≡◌,
}
use libpanaudia_core.Transport.{
  TransportState, transport_disconnected, transport_connecting, transport_connected,
  transport_ready, transport_failed,
}
use libpanaudia_core.Session.Track.{Platform}
use libpanaudia_core.Session.State.{
  ConnectionState, disconnected, connecting, connected, reconnecting, failed, SessionConfig,
  Session, report,
}
use libpanaudia_core.Session.Link.{
  reconnected, reconnection_failed, schedule, give_up, while_reconnecting, start_reconnecting,
  map_state, handle_transport_state_change,
}
use libpanaudia_core.Session.Lifecycle.{count_attempt, restart, start_thread}
use libpanaudia_core.Session.Configure.{configure, update_jwt}
use libpanaudia_core.Session.Steps.{
  new_session, configured, Reachable, Invariant, Reachable-Invariant,
}
use libpanaudia_core.Session.Stable.{Stable}

-- The state that the last callback named; a session begins disconnected.
pub last_told : List (ConnectionState × String) → ConnectionState
last_told [] = disconnected
last_told (c ∷ []) = c.0
last_told (c ∷ d ∷ cs) = last_told (d ∷ cs)

last_told-append :
    (cs : List (ConnectionState × String)) (c : ConnectionState × String)
    → last_told (cs ++ (c ∷ [])) ≡ c.0
unfolding last_told
last_told-append [] c = refl
last_told-append (d ∷ []) c = refl
last_told-append (d ∷ e ∷ cs) c = last_told-append (e ∷ cs) c

module _ {A H : Type 0} where
  pub IsTold : Session A H → Type 0
  IsTold s = last_told s.statuses ≡ s.state

  report-IsTold :
      (cs : ConnectionState) (message : String) (s : Session A H) → IsTold (report cs message s)
  unfolding IsTold report
  report-IsTold cs message s = last_told-append s.statuses (cs, message)

  schedule-IsTold : (now : ℕ) (s : Session A H) → IsTold s → IsTold (schedule now s)
  unfolding schedule IsTold
  schedule-IsTold now s h = h

  give_up-IsTold : (s : Session A H) → IsTold (give_up s)
  unfolding give_up
  give_up-IsTold s = report-IsTold failed reconnection_failed (record s { reconnecting_ = false })

  start_reconnecting-IsTold :
      (now : ℕ) (message : String) (s : Session A H) → IsTold (start_reconnecting now message s)
  unfolding start_reconnecting IsTold
  start_reconnecting-IsTold now message s =
      report-IsTold reconnecting message (record s { reconnecting_ = true; reconnect_attempt = 0 })

  while-IsTold :
      (now : ℕ) (ts : TransportState) (s : Session A H)
      → IsTold s
      → IsTold (while_reconnecting now ts s)
  unfolding while_reconnecting
  while-IsTold now transport_disconnected s h = h
  while-IsTold now transport_connecting s h = h
  while-IsTold now transport_connected s h = h
  while-IsTold now transport_ready s h =
      report-IsTold connected reconnected
        (record s { reconnecting_ = false; reconnect_attempt = 0 })
  while-IsTold now transport_failed s h =
      either IsTold (ltb s.reconnect_attempt s.config.max_reconnect_attempts) (schedule now s)
        (give_up s) (λ _. schedule-IsTold now s h) (λ _. give_up-IsTold s)

  map_state-IsTold :
      (now : ℕ) (ts : TransportState) (message : String) (s : Session A H)
      → IsTold (map_state now ts message s)
  unfolding map_state
  map_state-IsTold now transport_disconnected message s = report-IsTold disconnected message s
  map_state-IsTold now transport_connecting message s = report-IsTold connecting message s
  map_state-IsTold now transport_connected message s = report-IsTold connecting message s
  map_state-IsTold now transport_ready message s =
      report-IsTold connected message (record s { reconnect_attempt = 0 })
  map_state-IsTold now transport_failed message s =
      either IsTold (ltb 0 s.config.max_reconnect_attempts && not s.manual_disconnect)
        (start_reconnecting now message s) (report failed message s)
        (λ _. start_reconnecting-IsTold now message s) (λ _. report-IsTold failed message s)

  handle-IsTold :
      (now : ℕ) (ts : TransportState) (message : String) (s : Session A H)
      → IsTold s
      → IsTold (handle_transport_state_change now ts message s)
  unfolding handle_transport_state_change
  handle-IsTold now ts message s h =
      either IsTold s.reconnecting_ (while_reconnecting now ts s) (map_state now ts message s)
        (λ _. while-IsTold now ts s h) (λ _. map_state-IsTold now ts message s)

  IsTold-Stable : Stable IsTold
  unfolding IsTold start_thread
  IsTold-Stable = record {
    handled = handle-IsTold;
    scheduled = schedule-IsTold;
    threaded = λ s h. h;
    exchanged = λ m t s h. h;
  }

  IsTold-Invariant : Invariant IsTold
  unfolding IsTold count_attempt restart update_jwt configure
  IsTold-Invariant = record {
    stable = IsTold-Stable;
    counted = λ s g h. h;
    given_up = λ s h. give_up-IsTold (count_attempt s);
    refused = λ s g h. report-IsTold failed "Invalid server URL" s;
    restarted = λ host port s h. h;
    authorized = λ jwt s h. h;
    reconfigured = λ p config s d r h. h ∙ d;
    disconnecting = λ now s. report-IsTold disconnected "Disconnected" _;
  }

  -- In every reachable session, where the host configures only a session that is Disconnected and
  -- does not reconnect, the last status callback named the state the session is in, or
  -- there was none and it is Disconnected.
  pub Reachable-IsTold :
      {p : Platform A H} {config : SessionConfig} {s : Session A H}
      → Reachable p config s
      → IsTold s
  unfolding IsTold configured configure new_session last_told
  Reachable-IsTold r = Reachable-Invariant IsTold-Invariant r refl
