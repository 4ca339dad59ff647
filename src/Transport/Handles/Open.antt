-- ===== src/Transport/Handles/Open.antt =====
-- The handles are nested, and each open and each close keeps them so, under what its caller knows.
use libpanaudia_core.Prelude.{[], arith, false, some, true, ◌++◌, ◌∷◌, ◌≡◌}
use libpanaudia_core.Transport.Handles.{
  Call, ms_quic_open2, Answers, Quic, perform, open_library, registration_open, configuration_open,
  configuration_load_credential, connection_open, stream_close, connection_shutdown,
  connection_close, configuration_close, registration_close, ms_quic_close, update,
  open_registration, open_configuration, load_credential, open_connection, close_stream,
  close_connection, close_configuration, close_registration, close_library,
}
use libpanaudia_core.Transport.Handles.Contract.{
  no_handles, held, permits, after, replay, replay_snoc,
}

-- What holds between any two calls.
pub record IsOpen (q : Quic) : Type 0 where
  pub replayed : replay no_handles q.calls ≡ some (held q)
  pub under_library : q.msquic ≡ false → q.registration ≡ false
  pub configuration_under : q.registration ≡ false → q.configuration ≡ false
  pub connection_under : q.registration ≡ false → q.transport.connection ≡ false
  pub stream_under : q.transport.connection ≡ false → q.transport.control_stream ≡ false

-- One call that the order permits.
pub perform-replay :
    (q : Quic) (c : Call)
    → IsOpen q
    → permits (held q) c ≡ true
    → replay no_handles (q.calls ++ (c ∷ [])) ≡ some (after (held q) c)
perform-replay q c o = replay_snoc no_handles (held q) q.calls c o.replayed

pub open_library-IsOpen :
    (a : Answers) (q : Quic) → IsOpen q → q.msquic ≡ false → IsOpen (open_library a q)
unfolding open_library perform held permits after
open_library-IsOpen a q o e =
    let r = perform-replay q (ms_quic_open2 a.library_opens) o in ground arith

pub open_registration-IsOpen :
    (a : Answers) (q : Quic)
    → IsOpen q
    → q.msquic ≡ true
    → q.registration ≡ false
    → IsOpen (open_registration a q)
unfolding open_registration perform held permits after
open_registration-IsOpen a q o e n =
    let r = perform-replay q (registration_open a.registration_opens) o in ground arith

pub open_configuration-IsOpen :
    (a : Answers) (q : Quic)
    → IsOpen q
    → q.registration ≡ true
    → q.configuration ≡ false
    → IsOpen (open_configuration a q)
unfolding open_configuration perform held permits after
open_configuration-IsOpen a q o e n =
    let r = perform-replay q (configuration_open a.configuration_opens) o in ground arith

pub load_credential-IsOpen :
    (a : Answers) (q : Quic) → IsOpen q → q.configuration ≡ true → IsOpen (load_credential a q)
unfolding load_credential perform held permits after
load_credential-IsOpen a q o e =
    let r = perform-replay q (configuration_load_credential a.credential_loads) o in ground arith

pub open_connection-IsOpen :
    (a : Answers) (q : Quic)
    → IsOpen q
    → q.registration ≡ true
    → q.transport.connection ≡ false
    → IsOpen (open_connection a q)
unfolding open_connection perform update held permits after
open_connection-IsOpen a q o e n =
    let r = perform-replay q (connection_open a.connection_opens) o in ground arith

pub close_stream-IsOpen :
    (q : Quic)
    → IsOpen q
    → IsOpen (close_stream q) × ((close_stream q).transport.control_stream ≡ false)
unfolding close_stream perform update held permits after
close_stream-IsOpen q o = let r = perform-replay q stream_close o in ground arith

-- Of the two calls the first only uses the connection.
pub close_connection-IsOpen :
    (q : Quic)
    → IsOpen q
    → q.transport.control_stream ≡ false
    → IsOpen (close_connection q) × ((close_connection q).transport.connection ≡ false)
unfolding close_connection perform update held permits after
close_connection-IsOpen q o e =
    let r = perform-replay q connection_shutdown o in
    let s =
      replay_snoc no_handles (held q) (q.calls ++ (connection_shutdown ∷ [])) connection_close in
    ground arith

pub close_configuration-IsOpen :
    (q : Quic)
    → IsOpen q
    → q.transport.connection ≡ false
    → IsOpen (close_configuration q)
      × ((close_configuration q).configuration ≡ false)
      × ((close_configuration q).transport.connection ≡ false)
unfolding close_configuration perform held permits after
close_configuration-IsOpen q o e = let r = perform-replay q configuration_close o in ground arith

pub close_registration-IsOpen :
    (q : Quic)
    → IsOpen q
    → q.configuration ≡ false
    → q.transport.connection ≡ false
    → IsOpen (close_registration q) × ((close_registration q).registration ≡ false)
unfolding close_registration perform held permits after
close_registration-IsOpen q o e n = let r = perform-replay q registration_close o in ground arith

pub close_library-IsOpen :
    (q : Quic)
    → IsOpen q
    → q.registration ≡ false
    → IsOpen (close_library q) × (held (close_library q) ≡ no_handles)
unfolding close_library perform held permits after
close_library-IsOpen q o e = let r = perform-replay q ms_quic_close o in ground arith
