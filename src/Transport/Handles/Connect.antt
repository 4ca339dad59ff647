-- ===== src/Transport/Handles/Connect.antt =====
-- A connect keeps to the order that msquic asks for, wherever it fails.
use Prim.Native.String.{String}
use libpanaudia_core.Prelude.{
  Bool, ap, arith, either, false, if◌then◌else◌, not, refl, true, ◌∙◌, ◌≡◌,
}
use libpanaudia_core.Transport.Handles.{
  Answers, Quic, open_connection, start_connection, start, connection_start, perform, update,
  give_up, init_quic, connect, begin_connect,
}
use libpanaudia_core.Transport.Handles.Contract.{held, permits, after, Handles}
use libpanaudia_core.Transport.Handles.Open.{IsOpen, open_connection-IsOpen, perform-replay}
use libpanaudia_core.Transport.Handles.Held.{
  IsHeld, give_up-IsHeld, transport-IsOpen, init_quic-IsInit,
}
use libpanaudia_core.Transport.{is_disconnected, set_state, Transport}

-- A connection that is opened and not yet heard of.
pub record IsUnheard (q : Quic) : Type 0 where
  pub configured : q.configuration ≡ true
  pub streamless : q.transport.control_stream ≡ false
  pub unheard : q.transport.pending_connected ≡ false
  pub busy : is_disconnected q.transport.current_state ≡ false

pub open_connection-IsUnheard :
    (a : Answers) (q : Quic) → IsUnheard q → IsUnheard (open_connection a q)
unfolding open_connection update perform
open_connection-IsUnheard a q u = record {
  configured = u.configured;
  streamless = u.streamless;
  unheard = u.unheard;
  busy = u.busy;
}

pub open_connection_opens :
    (a : Answers) (q : Quic)
    → not a.connection_opens ≡ false
    → (open_connection a q).transport.connection ≡ true
unfolding open_connection update perform
open_connection_opens a q e = ground arith

pub connection_start-IsHeld :
    (b : Bool) (q : Quic)
    → IsOpen q
    → q.transport.connection ≡ true
    → IsUnheard q
    → IsHeld (perform (connection_start b) q)
unfolding perform held permits after
connection_start-IsHeld b q o c u =
    let r = perform-replay q (connection_start b) o in
    record {
      opened = record {
        replayed = ground arith;
        under_library = o.under_library;
        configuration_under = o.configuration_under;
        connection_under = o.connection_under;
        stream_under = o.stream_under;
      };
      rests = λ e. ground arith;
      awaited = λ _. (u.unheard, u.streamless);
      unconnected = λ _. u.unheard;
      single = λ _. u.streamless;
    }

-- A connection is opened and started under the registration and the configuration.
start-IsHeld :
    (a : Answers) (q : Quic)
    → IsOpen q
    → q.registration ≡ true
    → q.transport.connection ≡ false
    → IsUnheard q
    → IsHeld (start a q).1
unfolding start start_connection
start-IsHeld a q o r c u =
    let q1 = open_connection a q in
    let o1 = open_connection-IsOpen a q o r c in
    let u1 = open_connection-IsUnheard a q u in
    let message : String = "Failed to start QUIC connection" in
    let q2 = perform (connection_start a.connection_starts) q1 in
    either (λ (s : Bool × Quic). IsHeld (if not s.0 then give_up message s.1 else (true, s.1)).1)
      (not a.connection_opens) (false, q1) (a.connection_starts, q2)
      (λ _. give_up-IsHeld message q1 o1)
      λ n.
        let h =
          connection_start-IsHeld a.connection_starts q1 o1 (open_connection_opens a q n) u1 in
        either (λ (s : Bool × Quic). IsHeld s.1) (not a.connection_starts) (give_up message q2)
          (true, q2) (λ _. give_up-IsHeld message q2 h.opened) λ _. h

-- What a connect that is not refused makes of the handles before it opens the connection.
pub record IsPrepared (q : Quic) (r : Bool × Quic) : Type 0 where
  pub prepared_open : IsOpen r.1
  pub prepared_transport : r.1.transport ≡ (begin_connect q).transport
  pub prepared :
      r.0 ≡ true → (r.1.registration ≡ true) × (r.1.transport.connection ≡ false) × IsUnheard r.1

pub init_quic-IsPrepared :
    (a : Answers) (q : Quic)
    → IsHeld q
    → is_disconnected q.transport.current_state ≡ true
    → IsPrepared q (init_quic a (begin_connect q))
unfolding begin_connect update set_state held is_disconnected
init_quic-IsPrepared a q h d =
    let u = begin_connect q in
    let e = h.rests d in
    let c = ap (λ (x : Handles). x.connection) e in
    let i = init_quic-IsInit a u (transport-IsOpen _ q refl refl h.opened) e in
    let same = i.init_transport in
    record {
      prepared_open = i.init_open;
      prepared_transport = same;
      prepared = λ m. (
        (i.init_held m).0,
        ap (λ (x : Transport). x.connection) same ∙ c,
        record {
          configured = (i.init_held m).1;
          streamless =
              ap (λ (x : Transport). x.control_stream) same ∙ ap (λ (x : Handles). x.stream) e;
          unheard = ap (λ (x : Transport). x.pending_connected) same ∙ h.unconnected c;
          busy = ap (λ (x : Transport). is_disconnected x.current_state) same;
        },
      );
    }

-- A connect that is refused, that fails at any of the six calls, or that succeeds.
pub connect-IsHeld : (a : Answers) (q : Quic) → IsHeld q → IsHeld (connect a q).1
unfolding connect
connect-IsHeld a q h =
    let init = init_quic a (begin_connect q) in
    either (λ (s : Bool × Quic). IsHeld s.1) (not (is_disconnected q.transport.current_state))
      (false, q) _ (λ _. h)
      λ n.
        let i = init_quic-IsPrepared a q h (ground arith) in
        either (λ (s : Bool × Quic). IsHeld s.1) (not init.0) _ (start a init.1)
          (λ _. give_up-IsHeld "Failed to initialize QUIC" init.1 i.prepared_open)
          λ m.
            let k = i.prepared (ground arith) in start-IsHeld a init.1 i.prepared_open k.0 k.1 k.2
