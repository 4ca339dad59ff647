-- ===== src/Session/Stable.antt =====
-- What the handler of the transport's states preserves, every exchange with a transport preserves.
use Prim.Native.String.{String}
use libpanaudia_core.Prelude.{Bool, List, Option, [], either, leb, none, not, some, ℕ, ◌&&◌, ◌∷◌}
use libpanaudia_core.Moq.Framing.{MessageType}
use libpanaudia_core.Transport.{
  TransportState, Event, state_changed, control_message, datagram, undefined, Transport,
  new_transport, drain_and_parse, connect, disconnect,
}
use libpanaudia_core.Session.Track.{Platform}
use libpanaudia_core.Session.State.{outside_message, MoqState, Session}
use libpanaudia_core.Session.Link.{handle_transport_state_change, schedule}
use libpanaudia_core.Session.Control.{add_fault, start_orchestration}
use libpanaudia_core.Session.Media.{poll_outbound_tracks, is_connected}
use libpanaudia_core.Session.Lifecycle.{
  disconnected_events, enter_state, reset_moq_state, flush_rings, clear_moq, hear_message, hear,
  destroy_transport, destroy, tear_down_transport, tear_down, open_transport, attempt_reconnect,
  try_transport, start_thread, start_session,
}
use libpanaudia_core.Session.Thread.{
  is_ready, process_incoming, with_exchange, orchestrate, poll, check_timer, session_round,
}

-- A predicate that the handler preserves, and that does not read the transport.
pub record Stable {A H : Type 0} (P : Session A H → Type 0) : Type 0 where
  pub handled :
      (now : ℕ) (ts : TransportState) (message : String) (s : Session A H)
      → P s
      → P (handle_transport_state_change now ts message s)
  pub scheduled : (now : ℕ) (s : Session A H) → P s → P (schedule now s)
  pub threaded : (s : Session A H) → P s → P (start_thread s)
  pub exchanged :
      (m : MoqState A H) (t : Option Transport) (s : Session A H)
      → P s
      → P (record s { moq = m; transport = t })

module _ {A H : Type 0} {P : Session A H → Type 0} (st : Stable P) where
  hear_message-Stable :
      (type : MessageType) (content : List ℕ) (t : Option Transport) (s : Session A H)
      → P s
      → P (hear_message type content t s)
  unfolding hear_message
  hear_message-Stable type content none s h = h
  hear_message-Stable type content (some t) s h = st.exchanged _ _ s h

  pub hear-Stable : (now : ℕ) (es : List Event) (s : Session A H) → P s → P (hear now es s)
  unfolding hear
  hear-Stable now [] s h = h
  hear-Stable now (state_changed ts message ∷ es) s h =
      hear-Stable now es _
        (st.handled now ts message _ (st.exchanged s.moq (enter_state ts s.transport) s h))
  hear-Stable now (control_message m content ∷ es) s h =
      hear-Stable now es _ (hear_message-Stable m content s.transport s h)
  hear-Stable now (datagram d ∷ es) s h = hear-Stable now es s h
  hear-Stable now (undefined ∷ es) s h =
      hear-Stable now es _ (st.exchanged (add_fault outside_message s.moq) s.transport s h)

  destroy_transport-Stable :
      (now : ℕ) (t : Option Transport) (s : Session A H) → P s → P (destroy_transport now t s)
  unfolding destroy_transport
  destroy_transport-Stable now none s h = h
  destroy_transport-Stable now (some t) s h = hear-Stable now (disconnected_events t) s h

  pub destroy-Stable : (now : ℕ) (s : Session A H) → P s → P (destroy now s)
  unfolding destroy
  destroy-Stable now s h = destroy_transport-Stable now s.transport _ (st.exchanged s.moq none s h)

  tear_down_transport-Stable :
      (now : ℕ) (t : Option Transport) (s : Session A H) → P s → P (tear_down_transport now t s)
  unfolding tear_down_transport
  tear_down_transport-Stable now none s h = h
  tear_down_transport-Stable now (some t) s h =
      destroy-Stable now _
        (hear-Stable now (disconnected_events t) _ (st.exchanged s.moq (some (disconnect t)) s h))

  pub tear_down-Stable : (now : ℕ) (s : Session A H) → P s → P (tear_down now s)
  unfolding tear_down
  tear_down-Stable now s h = tear_down_transport-Stable now s.transport s h

  pub open_transport-Stable :
      (now : ℕ) (init start : Bool) (s : Session A H) → P s → P (open_transport now init start s).1
  unfolding open_transport
  open_transport-Stable now init start s h =
      let made = connect init start new_transport in
      let old = destroy now s in
      hear-Stable now made.1.events _
        (st.exchanged old.moq (some (record made.1 { events = [] })) old (destroy-Stable now s h))

  pub try_transport-Stable :
      (now : ℕ) (init start : Bool) (s : Session A H) → P s → P (try_transport now init start s)
  unfolding try_transport
  try_transport-Stable now init start s h =
      let made = open_transport now init start s in
      let opened = open_transport-Stable now init start s h in
      either P made.0 made.1 _ (λ _. opened)
        (λ _. st.scheduled now _ (destroy-Stable now made.1 opened))

  pub start_session-Stable :
      (now : ℕ) (init start : Bool) (s : Session A H) → P s → P (start_session now init start s)
  unfolding start_session
  start_session-Stable now init start s h =
      let made = open_transport now init start s in
      let opened = open_transport-Stable now init start s h in
      either P made.0 (start_thread made.1) _ (λ _. st.threaded made.1 opened)
        (λ _. destroy-Stable now made.1 opened)

  pub clear_moq-Stable : (s : Session A H) → P s → P (clear_moq s)
  unfolding clear_moq
  clear_moq-Stable s h = st.exchanged (flush_rings (reset_moq_state s.moq)) s.transport s h

  pub process_incoming-Stable :
      (now : ℕ) (opens starts : Bool) (t : Option Transport) (s : Session A H)
      → P s
      → P (process_incoming now opens starts t s)
  unfolding process_incoming
  process_incoming-Stable now opens starts none s h = h
  process_incoming-Stable now opens starts (some t) s h =
      let after = drain_and_parse opens starts (record t { events = [] }) in
      hear-Stable now after.events _ (
        st.exchanged s.moq (some (record after { current_state = t.current_state; events = [] })) s
          h)

  pub orchestrate-Stable :
      (host : ℕ → List (ℕ × List ℕ)) (t : Option Transport) (s : Session A H)
      → P s
      → P (orchestrate host t s)
  unfolding orchestrate with_exchange
  orchestrate-Stable host none s h = h
  orchestrate-Stable host (some t) s h =
      let r = start_orchestration host s.config.jwt (s.moq, t) in
      either P (not s.moq.orchestration_started && is_ready t.current_state) (with_exchange r s) s
        (λ _. st.exchanged r.0 (some r.1) s h) (λ _. h)

  pub poll-Stable :
      (p : Platform A H) (t : Option Transport) (s : Session A H) → P s → P (poll p t s)
  unfolding poll with_exchange
  poll-Stable p none s h = h
  poll-Stable p (some t) s h =
      let r = poll_outbound_tracks p (s.moq, t) in
      either P (is_connected s.state) (with_exchange r s) s (λ _. st.exchanged r.0 (some r.1) s h)
        (λ _. h)

  -- Whatever an attempt to reconnect preserves, a round of the session thread does.
  pub session_round-Stable :
      (p : Platform A H) (now : ℕ) (init start opens starts : Bool) (host : ℕ → List (ℕ × List ℕ))
      (s : Session A H)
      → P (attempt_reconnect now init start s)
      → P s
      → P (session_round p now init start opens starts host s)
  unfolding session_round check_timer
  session_round-Stable p now init start opens starts host s a h =
      let s1 = check_timer now init start s in
      let h1 : P s1 =
        either P (s.reconnecting_ && leb s.reconnect_deadline now)
          (attempt_reconnect now init start s) s (λ _. a) (λ _. h) in
      let s2 = process_incoming now opens starts s1.transport s1 in
      let h2 = process_incoming-Stable now opens starts s1.transport s1 h1 in
      let s3 = orchestrate host s2.transport s2 in
      poll-Stable p s3.transport s3 (orchestrate-Stable host s2.transport s2 h2)
