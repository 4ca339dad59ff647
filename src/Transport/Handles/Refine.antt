-- ===== src/Transport/Handles/Refine.antt =====
-- The transport with its handles does what the transport of flags does, on the answers combined.
use libpanaudia_core.Prelude.{
  Bool, ap, ap₂, arith, false, if◌then◌else◌, not, refl, true, ◌&&◌, ◌∙◌, ◌≡◌,
}
use libpanaudia_core.Transport.Handles.{
  Answers, Quic, perform, update, close_stream, close_connection, close_configuration,
  close_registration, close_library, reset, cleanup_quic, disconnect, init_quic, start_connection,
  give_up, start, connect, open_connection, connection_start, begin_connect,
}
use libpanaudia_core.Transport.Handles.Open.{IsOpen, open_connection-IsOpen}
use libpanaudia_core.Transport.Handles.Held.{IsHeld, transport-IsOpen}
use libpanaudia_core.Transport.Handles.Connect.{
  IsUnheard, open_connection-IsUnheard, open_connection_opens, connection_start-IsHeld,
  init_quic-IsPrepared,
}
use libpanaudia_core.Transport.Handles.Reach.{Reachable, Reachable-IsHeld}
use libpanaudia_core.Transport
use libpanaudia_core.Transport.{
  Transport, set_state, transport_disconnected, transport_failed, is_disconnected,
}
use Prim.Native.String.{String}

-- init_quic succeeds, and start_connection does.
abbrev pub inits : Answers → Bool
inits a = a.library_opens && (a.registration_opens && (a.configuration_opens && a.credential_loads))

abbrev pub starts : Answers → Bool
starts a = a.connection_opens && a.connection_starts

-- Two runs that branch on the same test.
alike :
    {A B : Type 0} (P : A → B → Type 0) (b : Bool) (x y : A) (x' y' : B)
    → (b ≡ true → P x x')
    → (b ≡ false → P y y')
    → P (if b then x else y) (if b then x' else y')
alike P true x y x' y' f g = f refl
alike P false x y x' y' f g = g refl

cleanup_refines :
    (q : Quic) → IsOpen q → (cleanup_quic q).transport ≡ Transport.cleanup_quic q.transport
unfolding cleanup_quic close_stream close_connection close_configuration close_registration
    close_library update perform reset Transport.cleanup_quic
cleanup_refines q o = ground arith

pub disconnect_refines :
    (q : Quic) → IsOpen q → (disconnect q).transport ≡ Transport.disconnect q.transport
unfolding disconnect update Transport.disconnect
disconnect_refines q o =
    let u = update (λ t. record t { disconnecting = true }) q in
    ap (set_state transport_disconnected "Disconnected")
      (cleanup_refines u (transport-IsOpen _ q refl refl o))

give_up_refines :
    (message : String) (q : Quic)
    → IsOpen q
    → (give_up message q).1.transport
      ≡ Transport.cleanup_quic (set_state transport_failed message q.transport)
unfolding give_up update set_state
give_up_refines message q o = cleanup_refines _ (transport-IsOpen _ q refl refl o)

init_quic-inits : (a : Answers) (q : Quic) → (init_quic a q).0 ≡ inits a
unfolding init_quic
init_quic-inits a q = ground arith

-- The Boolean results.
start-starts : (a : Answers) (q : Quic) → (start a q).0 ≡ starts a
unfolding start start_connection give_up
start-starts a q = ground arith

if_both :
    {A : Type 0} (a b : Bool) (x y : A)
    → (if not a then x else if not b then x else y) ≡ (if not (a && b) then x else y)
if_both true true x y = refl
if_both true false x y = refl
if_both false b x y = refl

-- The last branch of the connect of flags.
abbrev opened : Bool → Transport → Bool × Transport
opened b t =
    if not b
    then (
      false,
      Transport.cleanup_quic (set_state transport_failed "Failed to start QUIC connection" t),
    )
    else (true, record t { connection = true })

start_refines :
    (a : Answers) (q : Quic)
    → IsOpen q
    → q.registration ≡ true
    → q.transport.connection ≡ false
    → IsUnheard q
    → (start a q).1.transport ≡ (opened (starts a) q.transport).1
unfolding start start_connection open_connection perform update Transport.cleanup_quic set_state
start_refines a q o r c u =
    let q1 = open_connection a q in
    let o1 = open_connection-IsOpen a q o r c in
    let u1 = open_connection-IsUnheard a q u in
    let message : String = "Failed to start QUIC connection" in
    let q2 = perform (connection_start a.connection_starts) q1 in
    let failed : Bool × Transport =
      (false, Transport.cleanup_quic (set_state transport_failed message q.transport)) in
    let success : Bool × Transport = (true, record q.transport { connection = true }) in
    alike
      (λ (s : Bool × Quic) (t : Bool × Transport).
        (if not s.0 then give_up message s.1 else (true, s.1)).1.transport ≡ t.1)
      (not a.connection_opens) (false, q1) (a.connection_starts, q2) failed
      (if not a.connection_starts then failed else success) (λ _. give_up_refines message q1 o1)
      (λ n.
        let h =
          connection_start-IsHeld a.connection_starts q1 o1 (open_connection_opens a q n) u1 in
        alike (λ (s : Bool × Quic) (t : Bool × Transport). s.1.transport ≡ t.1)
          (not a.connection_starts) (give_up message q2) (true, q2) failed success
          (λ _. give_up_refines message q2 h.opened)
          λ _. ap (λ x. record q.transport { connection = x }) (open_connection_opens a q n))
    ∙ ap (λ (t : Bool × Transport). t.1)
        (if_both a.connection_opens a.connection_starts failed success)

-- The connect of flags behind its first test.
abbrev initialized : Bool → Bool → Transport → Bool × Transport
initialized b c t =
    if not b
    then (false, Transport.cleanup_quic (set_state transport_failed "Failed to initialize QUIC" t))
    else opened c t

initialized_refines :
    (a : Answers) (q : Quic)
    → IsHeld q
    → is_disconnected q.transport.current_state ≡ true
    → let init = init_quic a (begin_connect q) in
      (if not init.0
        then give_up "Failed to initialize QUIC" init.1
        else start a init.1).1.transport
      ≡ (initialized (inits a) (starts a) (begin_connect q).transport).1
initialized_refines a q h d =
    let init = init_quic a (begin_connect q) in
    let i = init_quic-IsPrepared a q h d in
    let message : String = "Failed to initialize QUIC" in
    let failed = λ (t : Transport). Transport.cleanup_quic (set_state transport_failed message t) in
    alike (λ (s : Bool × Quic) (t : Bool × Transport). s.1.transport ≡ t.1) (not init.0)
      (give_up message init.1) (start a init.1) (false, failed (begin_connect q).transport)
      (opened (starts a) (begin_connect q).transport)
      (λ _. give_up_refines message init.1 i.prepared_open ∙ ap failed i.prepared_transport)
      (λ m.
        let k = i.prepared (ground arith) in
        start_refines a init.1 i.prepared_open k.0 k.1 k.2
        ∙ ap (λ t. (opened (starts a) t).1) i.prepared_transport)
    ∙ ap (λ b. (initialized b (starts a) (begin_connect q).transport).1)
        (init_quic-inits a (begin_connect q))

-- What a connect makes of the transport, on every answer.
connect-transport :
    (a : Answers) (q : Quic)
    → IsHeld q
    → (connect a q).1.transport ≡ (Transport.connect (inits a) (starts a) q.transport).1
unfolding connect Transport.connect
connect-transport a q h =
    alike (λ (s : Bool × Quic) (t : Bool × Transport). s.1.transport ≡ t.1)
      (not (is_disconnected q.transport.current_state)) (false, q) _ (false, q.transport) _
      (λ _. refl) λ n. initialized_refines a q h (ground arith)

connect-result :
    (a : Answers) (q : Quic)
    → (connect a q).0 ≡ (Transport.connect (inits a) (starts a) q.transport).0
unfolding connect Transport.connect init_quic start start_connection give_up
connect-result a q = ground arith

-- In every run of the transport a connect and a disconnect, made of the single calls to msquic and
-- closing after a failure what was opened before it, do to the state what they do when only
-- the results of init_quic and start_connection are known: the first succeeds if the first four
-- calls do, the second if the last two do.
pub connect_refines :
    (a : Answers) {q : Quic}
    → Reachable q
    → let r = connect a q in
      ((r.0, r.1.transport) ≡ Transport.connect (inits a) (starts a) q.transport)
      × ((disconnect q).transport ≡ Transport.disconnect q.transport)
connect_refines a {q} r =
    let h = Reachable-IsHeld r in
    (
      ap₂ (λ (b : Bool) (t : Transport). (b, t)) (connect-result a q) (connect-transport a q h),
      disconnect_refines q h.opened,
    )
