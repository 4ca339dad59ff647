-- ===== src/Session/Steps.antt =====
-- The steps of a session, each a call that the transport, the session thread, msquic or the host
-- makes, and the sessions that they lead to. The host configures the session before them, and again when it
-- is Disconnected and does not reconnect, as after a disconnect.
use Prim.Native.String.{String}
use libpanaudia_core.Prelude.{Bool, List, [], either, false, ltb, none, ℕ, ◌≡◌}
use libpanaudia_core.Transport.{TransportState}
use libpanaudia_core.Session.Track.{Platform}
use libpanaudia_core.Session.State.{disconnected, failed, SessionConfig, Session, report}
use libpanaudia_core.Session.Link.{give_up, handle_transport_state_change}
use libpanaudia_core.Session.Control.{set_track}
use libpanaudia_core.Session.Lifecycle.{
  is_active, clear_moq, tear_down, try_transport, count_attempt, attempt_reconnect, restart,
  connect_to, connect_session, is_idle, stop, disconnect_session,
}
use libpanaudia_core.Session.Configure.{configure, update_jwt}
use libpanaudia_core.Session.Media.{write_audio}
use libpanaudia_core.Session.Media.Dispatch.{on_datagram}
use libpanaudia_core.Session.Thread.{session_round}
use libpanaudia_core.Moq.Datagram.{ObjectDatagram}
use libpanaudia_core.Session.Url.{UrlResult, parsed, rejected, thrown, parse_url}
use libpanaudia_core.Session.Stable.{
  Stable, tear_down-Stable, try_transport-Stable, start_session-Stable, clear_moq-Stable,
  session_round-Stable,
}

module _ {A H : Type 0} where
  -- SessionManager's members as they are constructed.
  unfoldable pub new_session : SessionConfig → Session A H
  new_session config = record {
    config = config;
    moq = record {
      tracks = [];
      next_request_id = 0;
      next_track_alias = 1;
      request_id_map = [];
      inbound_alias_map = [];
      outbound_alias_map = [];
      orchestration_started = false;
      first_subscribe_sent = false;
      received = [];
      faults = [];
    };
    transport = none;
    name_map = [];
    session_running = false;
    terminated = false;
    state = disconnected;
    parsed_host = [];
    parsed_port = 443;
    manual_disconnect = false;
    reconnecting_ = false;
    reconnect_attempt = 0;
    total_reconnect_count = 0;
    reconnect_deadline = 0;
    statuses = [];
  }

module _ {A H : Type 0} (p : Platform A H) where
  -- `new_session` with the configuration that the host gave.
  unfoldable pub configured : SessionConfig → Session A H
  unfolding configure new_session
  configured config = configure p config (new_session config)

  -- A callback of the transport, an attempt to reconnect, a round of the session thread, a datagram
  -- on msquic's thread, or a call of the host.
  pub data Step (s : Session A H) : Session A H → Type 0 where
    transport_event :
        (now : ℕ) (ts : TransportState) (message : String)
        → Step s (handle_transport_state_change now ts message s)
    attempt : (now : ℕ) (init start : Bool) → Step s (attempt_reconnect now init start s)
    thread_round :
        (now : ℕ) (init start opens starts : Bool) (host : ℕ → List (ℕ × List ℕ))
        → Step s (session_round p now init start opens starts host s)
    datagram_arrival :
        (d : ObjectDatagram)
        → Step s (record s { moq = on_datagram p s.config.has_data_recv_callback d s.moq })
    host_audio :
        (i : ℕ) (samples : List A) (frame_count : ℕ)
        → Step s (record s {
          moq = record (s.moq) {
            tracks = set_track i (write_audio samples frame_count) s.moq.tracks;
          };
        })
    host_token : (jwt : List ℕ) → Step s (update_jwt jwt s)
    host_configure :
        (config : SessionConfig)
        → s.state ≡ disconnected
        → s.reconnecting_ ≡ false
        → Step s (configure p config s)
    host_connect : (now : ℕ) (init start : Bool) → Step s (connect_session now init start s)
    host_disconnect : (now : ℕ) → Step s (disconnect_session now s)

  pub data Reachable (config : SessionConfig) : Session A H → Type 0 where
    initial : Reachable config (configured config)
    after : {s t : Session A H} → Reachable config s → Step s t → Reachable config t

-- What every step preserves, every reachable session has, if the first one has it. Of the steps
-- these are the ones that a stable predicate does not cover.
pub record Invariant {A H : Type 0} (P : Session A H → Type 0) : Type 0 where
  pub stable : Stable P
  pub counted :
      (s : Session A H)
      → ltb s.config.max_reconnect_attempts (count_attempt s).reconnect_attempt ≡ false
      → P s
      → P (count_attempt s)
  pub given_up : (s : Session A H) → P s → P (give_up (count_attempt s))
  pub refused :
      (s : Session A H) → is_active s.state ≡ false → P s → P (report failed "Invalid server URL" s)
  pub restarted : (host : List ℕ) (port : ℕ) (s : Session A H) → P s → P (restart host port s)
  pub authorized : (jwt : List ℕ) (s : Session A H) → P s → P (update_jwt jwt s)
  pub reconfigured :
      (p : Platform A H) (config : SessionConfig) (s : Session A H)
      → s.state ≡ disconnected
      → s.reconnecting_ ≡ false
      → P s
      → P (configure p config s)
  pub disconnecting :
      (now : ℕ) (s : Session A H)
      → P (report disconnected "Disconnected" (clear_moq (tear_down now (stop s))))

module _ {A H : Type 0} {P : Session A H → Type 0} (inv : Invariant P) where
  attempt-Invariant :
      (now : ℕ) (init start : Bool) (s : Session A H) → P s → P (attempt_reconnect now init start s)
  unfolding attempt_reconnect
  attempt-Invariant now init start s h =
      let t = count_attempt s in
      let cleared = clear_moq (tear_down now t) in
      either P (ltb s.config.max_reconnect_attempts t.reconnect_attempt) (give_up t)
        (try_transport now init start cleared) (λ _. inv.given_up s h)
        (λ g. try_transport-Stable inv.stable now init start cleared (
          clear_moq-Stable inv.stable (tear_down now t)
            (tear_down-Stable inv.stable now t (inv.counted s g h))))

  connect_to-Invariant :
      (now : ℕ) (init start : Bool) (r : UrlResult) (s : Session A H)
      → is_active s.state ≡ false
      → P s
      → P (connect_to now init start r s)
  unfolding connect_to
  connect_to-Invariant now init start (parsed host port) s g h =
      start_session-Stable inv.stable now init start (restart host port s)
        (inv.restarted host port s h)
  connect_to-Invariant now init start rejected s g h = inv.refused s g h
  connect_to-Invariant now init start thrown s g h = h

  connect-Invariant :
      (now : ℕ) (init start : Bool) (s : Session A H) → P s → P (connect_session now init start s)
  unfolding connect_session
  connect-Invariant now init start s h =
      either P (is_active s.state) s _ (λ _. h)
        (λ g. connect_to-Invariant now init start (parse_url s.config.server_url) s g h)

  disconnect-Invariant : (now : ℕ) (s : Session A H) → P s → P (disconnect_session now s)
  unfolding disconnect_session
  disconnect-Invariant now s h = either P (is_idle s) s _ (λ _. h) (λ _. inv.disconnecting now s)

  Step-Invariant : {p : Platform A H} {s t : Session A H} → Step p s t → P s → P t
  Step-Invariant (transport_event now ts message) h = inv.stable.handled now ts message _ h
  Step-Invariant (attempt now init start) h = attempt-Invariant now init start _ h
  Step-Invariant {p} (thread_round now init start opens starts host) h =
      session_round-Stable inv.stable p now init start opens starts host _
        (attempt-Invariant now init start _ h) h
  Step-Invariant (datagram_arrival d) h = inv.stable.exchanged _ _ _ h
  Step-Invariant (host_audio i samples frame_count) h = inv.stable.exchanged _ _ _ h
  Step-Invariant (host_token jwt) h = inv.authorized jwt _ h
  Step-Invariant {p} (host_configure config d r) h = inv.reconfigured p config _ d r h
  Step-Invariant (host_connect now init start) h = connect-Invariant now init start _ h
  Step-Invariant (host_disconnect now) h = disconnect-Invariant now _ h

  pub Reachable-Invariant :
      {p : Platform A H} {config : SessionConfig} {s : Session A H}
      → Reachable p config s
      → P (configured p config)
      → P s
  Reachable-Invariant initial h = h
  Reachable-Invariant (after r step) h = Step-Invariant step (Reachable-Invariant r h)
