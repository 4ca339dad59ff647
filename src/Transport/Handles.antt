-- ===== src/Transport/Handles.antt =====
-- The handles of msquic that the transport opens and closes: init_quic, start_connection,
-- start_moq_session, cleanup_quic, connect and disconnect of src/moq_transport.cpp, with each call
-- to msquic in a log. The answers of msquic are arguments; an open that fails leaves a null handle.
-- The settings that the calls pass along are left out.
mod Tests
pub mod Contract
pub mod Drain
pub mod Open
pub mod Held
pub mod Connect
pub mod Kept
pub mod Reach
pub mod Refine
use libpanaudia_core.Prelude.{Bool, List, [], false, if◌then◌else◌, not, true, ◌&&◌, ◌++◌, ◌∷◌}
use Prim.Native.String.{String}
use libpanaudia_core.Transport.{
  transport_disconnected, transport_connecting, transport_failed, Transport, new_transport,
  set_state, drain_and_parse, is_disconnected,
}

-- The calls that open, start, shut down or close the library, the connection and the control
-- stream; an open or a start carries whether it succeeded. What is sent stands in `sent_control` and
-- `sent_datagrams` of the transport; the callback given to a stream of the server is left out.
pub data Call : Type 0 where
  ms_quic_open2 registration_open configuration_open configuration_load_credential : Bool → Call
  connection_open connection_start stream_open stream_start : Bool → Call
  stream_close connection_shutdown connection_close : Call
  configuration_close registration_close ms_quic_close : Call

pub record Answers : Type 0 where
  pub library_opens : Bool
  pub registration_opens : Bool
  pub configuration_opens : Bool
  pub credential_loads : Bool
  pub connection_opens : Bool
  pub connection_starts : Bool

-- The other handles are the flags of the transport. `announced` is msquic's own: whether it has
-- told of the handshake of the present connection.
pub record Quic : Type 0 where
  pub transport : Transport
  pub msquic : Bool
  pub registration : Bool
  pub configuration : Bool
  pub announced : Bool
  pub calls : List Call

abbrev pub new_quic : Quic
new_quic = record {
  transport = new_transport;
  msquic = false;
  registration = false;
  configuration = false;
  announced = false;
  calls = [];
}

unfoldable pub perform : Call → Quic → Quic
perform c q = record q { calls = q.calls ++ (c ∷ []) }

unfoldable pub update : (Transport → Transport) → Quic → Quic
update f q = record q { transport = f q.transport }

unfoldable pub open_library : Answers → Quic → Quic
unfolding perform
open_library a q = perform (ms_quic_open2 a.library_opens) (record q { msquic = a.library_opens })

unfoldable pub open_registration : Answers → Quic → Quic
unfolding perform
open_registration a q =
    perform (registration_open a.registration_opens)
      (record q { registration = a.registration_opens })

unfoldable pub open_configuration : Answers → Quic → Quic
unfolding perform
open_configuration a q =
    perform (configuration_open a.configuration_opens)
      (record q { configuration = a.configuration_opens })

unfoldable pub load_credential : Answers → Quic → Quic
unfolding perform
load_credential a q = perform (configuration_load_credential a.credential_loads) q

-- Each step only if the one before succeeded.
unfoldable pub init_quic : Answers → Quic → Bool × Quic
unfolding open_library open_registration open_configuration load_credential
init_quic a q =
    let q1 = open_library a q in
    let q2 = open_registration a q1 in
    let q3 = open_configuration a q2 in
    let q4 = load_credential a q3 in
    if not a.library_opens
    then (false, q1)
    else (if not a.registration_opens
        then (false, q2)
        else (if not a.configuration_opens then (false, q3) else (a.credential_loads, q4)))

unfoldable pub open_connection : Answers → Quic → Quic
unfolding perform update
open_connection a q =
    perform (connection_open a.connection_opens)
      (update (λ t. record t { connection = a.connection_opens }) (record q { announced = false }))

unfoldable pub start_connection : Answers → Quic → Bool × Quic
unfolding open_connection perform
start_connection a q =
    let q1 = open_connection a q in
    if not a.connection_opens
    then (false, q1)
    else (a.connection_starts, perform (connection_start a.connection_starts) q1)

unfoldable pub close_stream : Quic → Quic
unfolding perform update
close_stream q =
    if q.transport.control_stream && q.msquic
    then perform stream_close (update (λ t. record t { control_stream = false }) q)
    else q

unfoldable pub close_connection : Quic → Quic
unfolding perform update
close_connection q =
    if q.transport.connection && q.msquic
    then perform connection_close
        (perform connection_shutdown (update (λ t. record t { connection = false }) q))
    else q

unfoldable pub close_configuration : Quic → Quic
unfolding perform
close_configuration q =
    if q.configuration && q.msquic
    then perform configuration_close (record q { configuration = false })
    else q

unfoldable pub close_registration : Quic → Quic
unfolding perform
close_registration q =
    if q.registration && q.msquic
    then perform registration_close (record q { registration = false })
    else q

unfoldable pub close_library : Quic → Quic
unfolding perform
close_library q = if q.msquic then perform ms_quic_close (record q { msquic = false }) else q

-- The state that is reset whatever was open.
unfoldable pub reset : Transport → Transport
reset t = record t {
  max_dgram_size = 0;
  pending_connected = false;
  pending_transport_shutdown = false;
  pending_peer_shutdown = false;
  recv_buffer = [];
  pending_control_data = [];
}

unfoldable pub cleanup_quic : Quic → Quic
unfolding close_stream close_connection close_configuration close_registration close_library reset
    update
cleanup_quic q =
    update reset
      (close_library (close_registration (close_configuration (close_connection (close_stream q)))))

unfoldable pub give_up : String → Quic → Bool × Quic
unfolding cleanup_quic update set_state
give_up message q = (false, cleanup_quic (update (set_state transport_failed message) q))

unfoldable pub start : Answers → Quic → Bool × Quic
unfolding start_connection give_up
start a q =
    let started = start_connection a q in
    if not started.0 then give_up "Failed to start QUIC connection" started.1 else (true, started.1)

unfoldable pub begin_connect : Quic → Quic
unfolding update set_state
begin_connect =
    update λ t. set_state transport_connecting "Connecting" (record t { disconnecting = false })

unfoldable pub connect : Answers → Quic → Bool × Quic
unfolding is_disconnected init_quic give_up start begin_connect
connect a q =
    let init = init_quic a (begin_connect q) in
    let rest = start a init.1 in
    if not (is_disconnected q.transport.current_state)
    then (false, q)
    else (if not init.0 then give_up "Failed to initialize QUIC" init.1 else rest)

unfoldable pub disconnect : Quic → Quic
unfolding cleanup_quic update set_state
disconnect q =
    update (set_state transport_disconnected "Disconnected")
      (cleanup_quic (update (λ t. record t { disconnecting = true }) q))

-- The calls of start_moq_session.
pub stream_calls : Bool → Bool → List Call
stream_calls false starts = stream_open false ∷ []
stream_calls true starts = stream_open true ∷ stream_start starts ∷ []

-- A round of process_incoming: the calls for the control stream come with the flag that the
-- handshake is complete.
unfoldable pub drain : Bool → Bool → Quic → Quic
unfolding stream_calls drain_and_parse
drain opens starts q = record q {
  transport = drain_and_parse opens starts q.transport;
  calls = if q.transport.pending_connected then q.calls ++ stream_calls opens starts else q.calls;
}
