-- ===== src/Transport/Handles/Held.antt =====
-- Between two operations the transport holds the handles that its log leaves open; what the opening
-- and the closing of them keep of that.
use Prim.Native.String.{String}
use libpanaudia_core.Prelude.{
  Bool, ap, ap₂, arith, either, false, not, refl, some, sym, true, ◌∙◌, ◌≡◌,
}
use libpanaudia_core.Transport.Handles.{
  Quic, update, close_stream, reset, cleanup_quic, Answers, perform, open_library,
  open_registration, open_configuration, load_credential, init_quic, give_up, disconnect,
}
use libpanaudia_core.Transport.Handles.Contract.{no_handles, held, replay, Handles}
use libpanaudia_core.Transport.Handles.Open.{
  IsOpen, close_stream-IsOpen, close_connection-IsOpen, close_configuration-IsOpen,
  close_registration-IsOpen, close_library-IsOpen, open_library-IsOpen, open_registration-IsOpen,
  open_configuration-IsOpen, load_credential-IsOpen,
}
use libpanaudia_core.Transport.{is_disconnected, set_state, Transport}

-- What the clean-up leaves: nothing is open, and the log has closed all that was.
pub record IsClosed (q : Quic) : Type 0 where
  pub closed : held q ≡ no_handles
  pub all_closed : replay no_handles q.calls ≡ some no_handles
  pub forgotten : q.transport.pending_connected ≡ false

pub cleanup_quic-IsClosed : (q : Quic) → IsOpen q → IsClosed (cleanup_quic q)
unfolding cleanup_quic update reset held
cleanup_quic-IsClosed q o =
    let (o1, e1) = close_stream-IsOpen q o in
    let (o2, e2) = close_connection-IsOpen (close_stream q) o1 e1 in
    let (o3, e3, f3) = close_configuration-IsOpen _ o2 e2 in
    let (o4, e4) = close_registration-IsOpen _ o3 e3 f3 in
    let (o5, e5) = close_library-IsOpen _ o4 e4 in
    record { closed = e5; all_closed = o5.replayed ∙ ap some e5; forgotten = refl }

-- What holds between two operations. msquic tells of the handshake once for a connection.
pub record IsHeld (q : Quic) : Type 0 where
  pub opened : IsOpen q
  pub rests : is_disconnected q.transport.current_state ≡ true → held q ≡ no_handles
  pub awaited :
      q.announced ≡ false
      → (q.transport.pending_connected ≡ false) × (q.transport.control_stream ≡ false)
  pub unconnected : q.transport.connection ≡ false → q.transport.pending_connected ≡ false
  pub single : q.transport.pending_connected ≡ true → q.transport.control_stream ≡ false

closed-IsOpen : (q : Quic) → IsClosed q → IsOpen q
unfolding held
closed-IsOpen q c = record {
  replayed = c.all_closed ∙ ap some (sym c.closed);
  under_library = λ _. ap (λ (h : Handles). h.registration) c.closed;
  configuration_under = λ _. ap (λ (h : Handles). h.configuration) c.closed;
  connection_under = λ _. ap (λ (h : Handles). h.connection) c.closed;
  stream_under = λ _. ap (λ (h : Handles). h.stream) c.closed;
}

pub closed-IsHeld : (q : Quic) → IsClosed q → IsHeld q
unfolding held
closed-IsHeld q c = record {
  opened = closed-IsOpen q c;
  rests = λ _. c.closed;
  awaited = λ _. (c.forgotten, ap (λ (h : Handles). h.stream) c.closed);
  unconnected = λ _. c.forgotten;
  single = λ _. ap (λ (h : Handles). h.stream) c.closed;
}

-- A change of the transport that leaves the two handles alone.
pub transport-IsOpen :
    (t : Transport) (q : Quic)
    → t.connection ≡ q.transport.connection
    → t.control_stream ≡ q.transport.control_stream
    → IsOpen q
    → IsOpen (record q { transport = t })
unfolding held
transport-IsOpen t q e f o = record {
  replayed =
      o.replayed
      ∙ ap some
          (ap₂ (λ (c d : Bool). record (held q) { connection = c; stream = d }) (sym e) (sym f));
  under_library = o.under_library;
  configuration_under = o.configuration_under;
  connection_under = λ r. e ∙ o.connection_under r;
  stream_under = λ c. f ∙ o.stream_under (sym e ∙ c);
}

pub give_up-IsHeld : (message : String) (q : Quic) → IsOpen q → IsHeld (give_up message q).1
unfolding give_up update set_state
give_up-IsHeld message q o =
    closed-IsHeld _ (cleanup_quic-IsClosed _ (transport-IsOpen _ q refl refl o))

pub disconnect-IsClosed : (q : Quic) → IsOpen q → IsClosed (disconnect q)
unfolding disconnect update set_state held
disconnect-IsClosed q o =
    let u = update (λ t. record t { disconnecting = true }) q in
    let c = cleanup_quic-IsClosed u (transport-IsOpen _ q refl refl o) in
    record { closed = c.closed; all_closed = c.all_closed; forgotten = c.forgotten }

-- What a run of init_quic from nothing leaves.
pub record IsInit (q : Quic) (r : Bool × Quic) : Type 0 where
  pub init_open : IsOpen r.1
  pub init_transport : r.1.transport ≡ q.transport
  pub init_held : r.0 ≡ true → (r.1.registration ≡ true) × (r.1.configuration ≡ true)

IsInit-failed : (q u : Quic) → u.transport ≡ q.transport → IsOpen u → IsInit q (false, u)
IsInit-failed q u e o = record { init_open = o; init_transport = e; init_held = λ z. ground arith }

pub init_quic-IsInit :
    (a : Answers) (q : Quic) → IsOpen q → held q ≡ no_handles → IsInit q (init_quic a q)
unfolding init_quic open_library open_registration open_configuration load_credential perform held
init_quic-IsInit a q o e =
    let q1 = open_library a q in
    let q2 = open_registration a q1 in
    let q3 = open_configuration a q2 in
    let q4 = load_credential a q3 in
    let m = ap (λ (h : Handles). h.library) e in
    let r = ap (λ (h : Handles). h.registration) e in
    let k = ap (λ (h : Handles). h.configuration) e in
    let o1 = open_library-IsOpen a q o m in
    either (IsInit q) (not a.library_opens) (false, q1) _ (λ _. IsInit-failed q q1 refl o1)
      (λ n1.
        let o2 = open_registration-IsOpen a q1 o1 (ground arith) r in
        either (IsInit q) (not a.registration_opens) (false, q2) _ (λ _. IsInit-failed q q2 refl o2)
          (λ n2.
            let o3 = open_configuration-IsOpen a q2 o2 (ground arith) k in
            either (IsInit q) (not a.configuration_opens) (false, q3) (a.credential_loads, q4)
              (λ _. IsInit-failed q q3 refl o3)
              (λ n3.
                let o4 = load_credential-IsOpen a q3 o3 (ground arith) in
                record {
                  init_open = o4;
                  init_transport = refl;
                  init_held = λ _. (ground arith, ground arith);
                })))
