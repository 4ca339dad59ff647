-- ===== src/Session/Failures.antt =====
-- What a transport that cannot be made leaves behind. Its destructor disconnects, and the callback
-- of that reaches the session too.
use libpanaudia_core.Prelude.{
  Bool, List, Option, [], arith, false, ltb, none, refl, some, true, ℕ, ◌<◌, ◌∙◌, ◌≡◌, ◌≤◌,
}
use libpanaudia_core.Transport.{set_state, connect, disconnect, Transport, new_transport}
use libpanaudia_core.Session.State.{disconnected, reconnecting, failed, Session, report}
use libpanaudia_core.Session.Url.{parsed, parse_url}
use libpanaudia_core.Session.Link.{
  schedule, give_up, while_reconnecting, start_reconnecting, map_state,
  handle_transport_state_change,
}
use libpanaudia_core.Session.Lifecycle.{
  start_thread, count_attempt, attempt_reconnect, is_active, disconnected_events, hear,
  destroy_transport, destroy, open_transport, try_transport, start_session, restart,
  connect_session, connect_to,
}

module _ {A H : Type 0} where
  -- A reconnection, with the old transport torn down, whose new transport cannot be made and that
  -- has no attempt left, ends in Disconnected: the transport reports Failed, and then its destructor
  -- reports Disconnected.
  pub failed_open :
      (now : ℕ) (start : Bool) (s : Session A H)
      → s.transport ≡ none
      → s.reconnecting_ ≡ true
      → s.config.max_reconnect_attempts ≤ s.reconnect_attempt
      → (try_transport now false start s).state ≡ disconnected
  unfolding try_transport open_transport destroy destroy_transport hear disconnected_events connect
      disconnect set_state schedule handle_transport_state_change while_reconnecting map_state
      give_up report
  failed_open now start s n h k = ground arith

  -- What the destructor of an old transport leaves of a session that does not reconnect.
  kept_by_destroy :
      (now : ℕ) (o : Option Transport) (s : Session A H)
      → s.reconnecting_ ≡ false
      → let t = destroy_transport now o s in
        (t.reconnecting_ ≡ false)
        × (t.manual_disconnect ≡ s.manual_disconnect)
        × (t.config ≡ s.config)
        × (t.session_running ≡ s.session_running)
  unfolding destroy_transport hear disconnected_events disconnect set_state
      handle_transport_state_change map_state report
  kept_by_destroy now none s r = (r, refl, refl, refl)
  kept_by_destroy now (some t) s r = ground arith

  -- The session with its new transport, and the callbacks of that transport's connect.
  opening : (now : ℕ) (init start : Bool) (old : Session A H) → Session A H
  opening now init start old =
      let made = connect init start new_transport in
      hear now made.1.events (record old { transport = some (record made.1 { events = [] }) })

  failing_open :
      (now : ℕ) (start : Bool) (old : Session A H)
      → old.reconnecting_ ≡ false
      → old.manual_disconnect ≡ false
      → 0 < old.config.max_reconnect_attempts
      → let t = destroy now (opening now false start old) in
        (t.state ≡ reconnecting)
        × (t.reconnecting_ ≡ true)
        × (t.transport ≡ none)
        × (t.session_running ≡ old.session_running)
  unfolding opening destroy destroy_transport hear disconnected_events connect disconnect set_state
      handle_transport_state_change while_reconnecting map_state start_reconnecting report
  failing_open now start old r m k = ground arith

  failed_start :
      (now : ℕ) (start : Bool) (s : Session A H)
      → s.reconnecting_ ≡ false
      → s.manual_disconnect ≡ false
      → 0 < s.config.max_reconnect_attempts
      → let t = start_session now false start s in
        (t.state ≡ reconnecting)
        × (t.reconnecting_ ≡ true)
        × (t.transport ≡ none)
        × (t.session_running ≡ s.session_running)
  unfolding start_session open_transport connect opening destroy
  failed_start now start s r m k =
      let kept = kept_by_destroy now s.transport (record s { transport = none }) r in
      let failing =
        failing_open now start (destroy_transport now s.transport (record s { transport = none }))
          kept.0 (kept.1 ∙ m) (rw (kept.2) k) in
      (failing.0, failing.1, failing.2, failing.3 ∙ kept.3)

  -- A session that reconnects is active already.
  stays :
      (now : ℕ) (init start : Bool) (t : Session A H)
      → t.state ≡ reconnecting
      → connect_session now init start t ≡ t
  unfolding connect_session is_active
  stays now init start t e = rw e refl

  -- If reconnection is allowed, the session is not active and no thread of it runs, a connect with
  -- a URL that parses, whose transport cannot be made, leaves the session in Reconnecting, with an
  -- attempt due that nothing makes: there is no thread, no transport is left, and a further connect
  -- changes nothing.
  pub connect_stuck :
      (now : ℕ) (start : Bool) (s : Session A H) (host : List ℕ) (port : ℕ)
      → is_active s.state ≡ false
      → parse_url s.config.server_url ≡ parsed host port
      → 0 < s.config.max_reconnect_attempts
      → s.session_running ≡ false
      → (later : ℕ) (init again : Bool)
      → let t = connect_session now false start s in
        (t.state ≡ reconnecting)
        × (t.reconnecting_ ≡ true)
        × (t.session_running ≡ false)
        × (t.transport ≡ none)
        × (connect_session later init again t ≡ t)
  unfolding connect_session connect_to restart
  connect_stuck now start s host port a e k r later init again =
      rw (a, e)
        (let f = failed_start now start (restart host port s) refl refl k in
          (f.0, f.1, f.3 ∙ r, f.2, stays later init again _ f.0))

  running_open :
      (now : ℕ) (old : Session A H)
      → (opening now true true old).session_running ≡ old.session_running
  unfolding opening hear connect set_state handle_transport_state_change while_reconnecting
      map_state report
  running_open now old = ground arith

  started_over :
      (now : ℕ) (s : Session A H)
      → s.reconnecting_ ≡ false
      → s.session_running ≡ true
      → (start_session now true true s).terminated ≡ true
  unfolding start_session open_transport connect opening destroy start_thread
  started_over now s r k =
      let kept = kept_by_destroy now s.transport (record s { transport = none }) r in
      let open_ =
        running_open now (destroy_transport now s.transport (record s { transport = none })) in
      ground arith

  -- When the session thread, which runs, gives up to reconnect after its last attempt, the state is
  -- Failed and the thread runs on; a connect then, with a URL that parses and a transport that is
  -- made, assigns a new thread over the old one: the program is terminated.
  pub give_up-terminates :
      (now : ℕ) (init start : Bool) (s : Session A H) (host : List ℕ) (port : ℕ)
      → s.session_running ≡ true
      → ltb s.config.max_reconnect_attempts (count_attempt s).reconnect_attempt ≡ true
      → parse_url s.config.server_url ≡ parsed host port
      → (later : ℕ)
      → let t = attempt_reconnect now init start s in
        (t.state ≡ failed)
        × (t.session_running ≡ true)
        × ((connect_session later true true t).terminated ≡ true)
  unfolding attempt_reconnect count_attempt give_up report connect_session connect_to restart
      is_active
  give_up-terminates now init start s host port k l e later =
      let u = give_up (count_attempt s) in
      rw l (refl, k, rw e (started_over later (restart host port u) refl k))
