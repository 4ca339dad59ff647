-- ===== src/Session/Reconnect.antt =====
-- The reconnection cycle: how often it tries, and what the host is told. The states of the session
-- are those that the transport's callbacks, the session thread and the host's calls lead to.
use Prim.Native.String.{String}
use libpanaudia_core.Prelude.{arith, false, inl, ltb, refl, true, ℕ, ◌≡◌, ◌≤◌, ◌⊎◌}
use libpanaudia_core.Transport.{
  TransportState, transport_disconnected, transport_connecting, transport_connected,
  transport_ready, transport_failed,
}
use libpanaudia_core.Session.Track.{Platform}
use libpanaudia_core.Session.State.{
  disconnected, reconnecting, failed, SessionConfig, Session, report,
}
use libpanaudia_core.Session.Link.{
  schedule, give_up, while_reconnecting, start_reconnecting, map_state,
  handle_transport_state_change,
}
use libpanaudia_core.Session.Lifecycle.{
  is_active, tear_down, count_attempt, restart, stop, clear_moq, start_thread,
}
use libpanaudia_core.Session.Configure.{configure, update_jwt}
use libpanaudia_core.Session.Steps.{
  new_session, configured, Reachable, Invariant, Reachable-Invariant,
}
use libpanaudia_core.Session.Stable.{Stable, tear_down-Stable}

module _ {A H : Type 0} where
  -- While it reconnects, the session is in that state and within its attempts.
  pub IsBounded : Session A H → Type 0
  IsBounded s =
      (s.reconnecting_ ≡ false)
      ⊎ ((s.state ≡ reconnecting) × (s.reconnect_attempt ≤ s.config.max_reconnect_attempts))

  handle-IsBounded :
      (now : ℕ) (ts : TransportState) (message : String) (s : Session A H)
      → IsBounded s
      → IsBounded (handle_transport_state_change now ts message s)
  unfolding IsBounded handle_transport_state_change while_reconnecting map_state report schedule
      give_up start_reconnecting
  handle-IsBounded now transport_disconnected message s h = ground arith
  handle-IsBounded now transport_connecting message s h = ground arith
  handle-IsBounded now transport_connected message s h = ground arith
  handle-IsBounded now transport_ready message s h = ground arith
  handle-IsBounded now transport_failed message s h = ground arith

  IsBounded-Stable : Stable IsBounded
  unfolding IsBounded schedule start_thread
  IsBounded-Stable = record {
    handled = handle-IsBounded;
    scheduled = λ now s h. h;
    threaded = λ s h. h;
    exchanged = λ m t s h. h;
  }

  -- An attempt within the limit.
  counted-IsBounded :
      (s : Session A H)
      → ltb s.config.max_reconnect_attempts (count_attempt s).reconnect_attempt ≡ false
      → IsBounded s
      → IsBounded (count_attempt s)
  unfolding IsBounded count_attempt
  counted-IsBounded s g h = ground arith

  give_up-IsBounded : (s : Session A H) → IsBounded (give_up s)
  unfolding give_up report IsBounded
  give_up-IsBounded s = inl refl

  refused-IsBounded :
      (s : Session A H)
      → is_active s.state ≡ false
      → IsBounded s
      → IsBounded (report failed "Invalid server URL" s)
  unfolding IsBounded report is_active
  refused-IsBounded s g h = ground arith

  -- A session that the host disconnects does not reconnect.
  IsStopped : Session A H → Type 0
  IsStopped s = (s.manual_disconnect ≡ true) × (s.reconnecting_ ≡ false)

  handle-IsStopped :
      (now : ℕ) (ts : TransportState) (message : String) (s : Session A H)
      → IsStopped s
      → IsStopped (handle_transport_state_change now ts message s)
  unfolding IsStopped handle_transport_state_change map_state report
  handle-IsStopped now transport_disconnected message s h = ground arith
  handle-IsStopped now transport_connecting message s h = ground arith
  handle-IsStopped now transport_connected message s h = ground arith
  handle-IsStopped now transport_ready message s h = ground arith
  handle-IsStopped now transport_failed message s h = ground arith

  IsStopped-Stable : Stable IsStopped
  unfolding IsStopped schedule start_thread
  IsStopped-Stable = record {
    handled = handle-IsStopped;
    scheduled = λ now s h. h;
    threaded = λ s h. h;
    exchanged = λ m t s h. h;
  }

  stopped-IsBounded :
      (s : Session A H) → IsStopped s → IsBounded (report disconnected "Disconnected" (clear_moq s))
  unfolding IsStopped IsBounded report clear_moq
  stopped-IsBounded s h = inl (h.1)

  stop-IsStopped : (now : ℕ) (s : Session A H) → IsStopped (tear_down now (stop s))
  unfolding IsStopped stop
  stop-IsStopped now s = tear_down-Stable IsStopped-Stable now (stop s) (refl, refl)

  IsBounded-Invariant : Invariant IsBounded
  unfolding IsBounded restart update_jwt configure
  IsBounded-Invariant = record {
    stable = IsBounded-Stable;
    counted = counted-IsBounded;
    given_up = λ s h. give_up-IsBounded (count_attempt s);
    refused = refused-IsBounded;
    restarted = λ host port s h. inl refl;
    authorized = λ jwt s h. h;
    reconfigured = λ p config s d r h. inl r;
    disconnecting = λ now s. stopped-IsBounded _ (stop-IsStopped now s);
  }

  -- In every reachable session, where the host configures only a session that is Disconnected and
  -- does not reconnect, either it is not reconnecting, or its state is Reconnecting and it
  -- has made no more attempts than the configuration allows.
  pub Reachable-IsBounded :
      {p : Platform A H} {config : SessionConfig} {s : Session A H}
      → Reachable p config s
      → IsBounded s
  unfolding IsBounded configured configure new_session
  Reachable-IsBounded r = Reachable-Invariant IsBounded-Invariant r (inl refl)
