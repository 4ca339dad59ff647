-- ===== src/Core/Closing.antt =====
-- What the end of a core leaves: the host's disconnect and the destructor.
use Prim.Native.String.{String}
use libpanaudia_core.Prelude.{
  Option, ap, arith, either, false, none, refl, some, subst, sym, true, ℕ, ◌∙◌, ◌≡◌,
}
use libpanaudia_core.Core.{disconnect, PanaudiaCore, destroy_core, get_connection_state}
use libpanaudia_core.Transport
use libpanaudia_core.Transport.{Transport, transport_disconnected}
use libpanaudia_core.Session.State.{Session, report, is_none, ConnectionState, disconnected}
use libpanaudia_core.Session.Link.{while_reconnecting, map_state, handle_transport_state_change}
use libpanaudia_core.Session.Lifecycle.{
  destroy_transport, destroy, tear_down, is_down, disconnected_events, enter_state, clear_moq, hear,
  tear_down_transport, is_idle, stop, disconnect_session,
}

none_of_is_none : (t : Option Transport) → is_none t ≡ true → t ≡ none
unfolding is_none
none_of_is_none none e = refl
none_of_is_none (some t) e = ground arith

down-disconnected_lem : (cs : ConnectionState) → is_down cs ≡ true → cs ≡ disconnected
unfolding is_down
down-disconnected_lem cs e = ground arith

module _ {A H : Type 0} where
  -- After the host has asked to stop.
  record IsStopped (s : Session A H) : Type 0 where
    pub thread_ended : s.session_running ≡ false
    pub settled : s.reconnecting_ ≡ false

  handle-IsStopped :
      (now : ℕ) (message : String) (s : Session A H)
      → IsStopped s
      → IsStopped (handle_transport_state_change now transport_disconnected message s)
  unfolding handle_transport_state_change map_state while_reconnecting report
  handle-IsStopped now message s h =
      either IsStopped s.reconnecting_ s _ (λ _. h)
        λ _. record { thread_ended = h.thread_ended; settled = h.settled }

  transport-handle_lem :
      (now : ℕ) (message : String) (s : Session A H)
      → (handle_transport_state_change now transport_disconnected message s).transport ≡ s.transport
  unfolding handle_transport_state_change map_state while_reconnecting report
  transport-handle_lem now message s =
      either (λ (t : Session A H). t.transport ≡ s.transport) s.reconnecting_ s _ (λ _. refl)
        λ _. refl

  -- The one callback of the transport's disconnect.
  hear-IsStopped :
      (now : ℕ) (t : Transport) (s : Session A H)
      → IsStopped s
      → IsStopped (hear now (disconnected_events t) s)
        × ((hear now (disconnected_events t) s).transport
            ≡ enter_state transport_disconnected s.transport)
  unfolding hear disconnected_events Transport.disconnect
  hear-IsStopped now t s h =
      let u = record s { transport = enter_state transport_disconnected s.transport } in
      (
        handle-IsStopped now "Disconnected" u
            (record { thread_ended = h.thread_ended; settled = h.settled }),
        transport-handle_lem now "Disconnected" u,
      )

  -- A transport that is gone, and what is left of one that is destroyed.
  IsOver : Session A H → Type 0
  IsOver s = IsStopped s × (s.transport ≡ none)

  destroy_transport-IsOver :
      (now : ℕ) (t : Option Transport) (s : Session A H)
      → IsOver s
      → IsOver (destroy_transport now t s)
  unfolding destroy_transport IsOver enter_state
  destroy_transport-IsOver now none s h = h
  destroy_transport-IsOver now (some t) s h =
      let (stopped, same) = hear-IsStopped now t s h.0 in
      (stopped, same ∙ ap (enter_state transport_disconnected) h.1)

  destroy-IsOver : (now : ℕ) (s : Session A H) → IsStopped s → IsOver (destroy now s)
  unfolding destroy IsOver
  destroy-IsOver now s h =
      destroy_transport-IsOver now s.transport (record s { transport = none })
        (record { thread_ended = h.thread_ended; settled = h.settled }, refl)

  tear_down-IsOver :
      (now : ℕ) (t : Option Transport) (s : Session A H)
      → s.transport ≡ t
      → IsStopped s
      → IsOver (tear_down_transport now t s)
  unfolding tear_down_transport IsOver
  tear_down-IsOver now none s e h = (h, e)
  tear_down-IsOver now (some t) s e h =
      let u = record s { transport = some (Transport.disconnect t) } in
      destroy-IsOver now _
        (hear-IsStopped now t u (record { thread_ended = h.thread_ended; settled = h.settled })).0

  -- A session that has ended: nothing runs, nothing is connected.
  record IsEnded (s : Session A H) : Type 0 where
    pub down : is_down s.state ≡ true
    pub threadless : s.session_running ≡ false
    pub transportless : s.transport ≡ none

  report-IsEnded :
      (s : Session A H) → IsOver s → IsEnded (report disconnected "Disconnected" (clear_moq s))
  unfolding report clear_moq is_down IsOver
  report-IsEnded s h = record { down = refl; threadless = h.0.thread_ended; transportless = h.1 }

  idle-IsEnded : (s : Session A H) → is_idle s ≡ true → IsEnded s
  unfolding is_idle
  idle-IsEnded s e = record {
    down = ground arith;
    threadless = ground arith;
    transportless = none_of_is_none s.transport (ground arith);
  }

  IsEnded-idle : (s : Session A H) → IsEnded s → is_idle s ≡ true
  unfolding is_idle is_none
  IsEnded-idle s h =
      let t = subst (λ (o : Option Transport). is_none o ≡ true) (sym h.transportless) refl in
      let d = h.down in let r = h.threadless in ground arith

  disconnect-IsEnded : (now : ℕ) (s : Session A H) → IsEnded (disconnect_session now s)
  unfolding disconnect_session tear_down stop
  disconnect-IsEnded now s = either IsEnded (is_idle s) s _ (idle-IsEnded s) λ _. report-IsEnded _ (
      tear_down-IsOver now s.transport (stop s) refl
        (record { thread_ended = refl; settled = refl }))

  disconnect_idle : (now : ℕ) (s : Session A H) → is_idle s ≡ true → disconnect_session now s ≡ s
  unfolding disconnect_session
  disconnect_idle now s e = rw e refl

  -- Whatever the state of the core, after a disconnect its connection state is Disconnected, the
  -- session thread has ended and the transport is gone; the destructor then changes nothing, so
  -- that the host hears no further callback.
  pub destroy_core-disconnect :
      (now later : ℕ) (c : PanaudiaCore A H)
      → let d = disconnect now c in
        (get_connection_state d ≡ disconnected)
        × (d.session.session_running ≡ false)
        × (d.session.transport ≡ none)
        × (destroy_core later d ≡ d.session)
  unfolding disconnect destroy_core get_connection_state
  destroy_core-disconnect now later c =
      let s = disconnect_session now c.session in
      let e = disconnect-IsEnded now c.session in
      (
        down-disconnected_lem s.state e.down,
        e.threadless,
        e.transportless,
        disconnect_idle later s (IsEnded-idle s e),
      )
