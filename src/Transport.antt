-- ===== src/Transport.antt =====
-- The receiving side of src/moq_transport.cpp: the transport's state machine and the reassembly of
-- the control stream. What the host sees of it is the log of its callbacks. The results of msquic,
-- and what it sends, are outside: the two calls that open a stream are arguments.
mod Tests
pub mod Reassembly
pub mod Chunks
pub mod Stream
pub mod Network
pub mod Handles
pub mod Memory
use libpanaudia_core.Prelude.{
  Bool, List, Option, [], drop, false, if◌then◌else◌, length, ltb, none, not, some, suc, take, true,
  u32, zero, ℕ, ◌&&◌, ◌++◌, ◌==◌, ◌^◌, ◌∷◌,
}
use Prim.Native.String.{String}
use libpanaudia_core.Moq.Reader.{Parsed, ok, fail, fault}
use libpanaudia_core.Moq.Framing.{MessageType, server_setup, ControlMessage, parse_control_message}
use libpanaudia_core.Moq.Datagram.{ObjectDatagram}
use libpanaudia_core.Moq.Messages.Setup.{
  ServerSetupResult, parse_server_setup, default_setup, build_client_setup,
}

pub data TransportState : Type 0 where
  transport_disconnected transport_connecting transport_connected transport_ready transport_failed :
      TransportState

-- One callback: on_state_changed, on_control_message or on_datagram. Where a parser reads outside
-- its bytes, the behaviour is undefined.
pub data Event : Type 0 where
  state_changed : TransportState → String → Event
  control_message : MessageType → List ℕ → Event
  datagram : ObjectDatagram → Event
  undefined : Event

-- The flags `connection` and `control_stream` say that the handle is there; what was handed to
-- msquic to send is kept in order.
pub record Transport : Type 0 where
  pub current_state : TransportState
  pub pending_control_data : List (List ℕ)
  pub pending_connected : Bool
  pub pending_transport_shutdown : Bool
  pub pending_peer_shutdown : Bool
  pub recv_buffer : List ℕ
  pub disconnecting : Bool
  pub connection : Bool
  pub control_stream : Bool
  pub max_dgram_size : ℕ
  pub sent_control : List (List ℕ)
  pub sent_datagrams : List (List ℕ)
  pub events : List Event

abbrev pub new_transport : Transport
new_transport = record {
  current_state = transport_disconnected;
  pending_control_data = [];
  pending_connected = false;
  pending_transport_shutdown = false;
  pending_peer_shutdown = false;
  recv_buffer = [];
  disconnecting = false;
  connection = false;
  control_stream = false;
  max_dgram_size = 0;
  sent_control = [];
  sent_datagrams = [];
  events = [];
}

unfoldable pub set_state : TransportState → String → Transport → Transport
set_state s message t = record t {
  current_state = s;
  events = t.events ++ (state_changed s message ∷ []);
}

-- What msquic's callbacks leave for the caller's thread: bytes of the control stream, and flags.
unfoldable pub receive : List ℕ → Transport → Transport
receive chunk t = record t { pending_control_data = t.pending_control_data ++ (chunk ∷ []) }

-- SERVER_SETUP moves the transport to Ready; every message is forwarded.
pub setup_events : Parsed ServerSetupResult → List Event
setup_events (ok r) = state_changed transport_ready "MOQ session ready" ∷ []
setup_events fail = []
setup_events fault = undefined ∷ []

pub message_events : ControlMessage → List Event
unfolding setup_events
message_events m =
    (if m.type == server_setup then setup_events (parse_server_setup m.content) else [])
    ++ (control_message m.type m.content ∷ [])

-- One round of the loop, on the bytes from the offset on; `rest` is what the later rounds make of
-- the bytes behind the message.
pub parse_round : Option ControlMessage → List ℕ → List Event × List ℕ → List Event × List ℕ
unfolding message_events
parse_round none buffer rest = ([], buffer)
parse_round (some m) buffer rest = (message_events m ++ rest.0, rest.1)

pub bytes_consumed : Option ControlMessage → ℕ
bytes_consumed none = 0
bytes_consumed (some m) = m.consumed

-- The loop over the reassembly buffer, with a bound on its rounds: the callbacks that it makes and
-- the bytes that it leaves.
unfoldable pub parse_loop : ℕ → List ℕ → List Event × List ℕ
unfolding parse_round bytes_consumed
parse_loop zero buffer = ([], buffer)
parse_loop (suc n) buffer =
    let next = parse_control_message buffer in
    let rest = parse_loop n (drop (bytes_consumed next) buffer) in
    if length buffer == 0 then ([], buffer) else parse_round next buffer rest

-- The state that a run of callbacks leaves.
pub emit : List Event → Transport → Transport
emit [] t = t
emit (state_changed s message ∷ es) t = emit es (set_state s message t)
emit (control_message m content ∷ es) t =
    emit es (record t { events = t.events ++ (control_message m content ∷ []) })
emit (datagram d ∷ es) t = emit es (record t { events = t.events ++ (datagram d ∷ []) })
emit (undefined ∷ es) t = emit es (record t { events = t.events ++ (undefined ∷ []) })

pub concat : List (List ℕ) → List ℕ
concat [] = []
concat (c ∷ cs) = c ++ concat cs

-- Whether the bytes were handed to msquic; what it answers, no caller uses.
unfoldable pub send_on_control_stream : List ℕ → Transport → Bool × Transport
send_on_control_stream bytes t =
    if t.control_stream
    then (true, record t { sent_control = t.sent_control ++ (bytes ∷ []) })
    else (false, t)

-- The control stream of the session: `opens` and `starts` are msquic's answers. CLIENT_SETUP is the
-- first message on it.
pub start_moq_session : Bool → Bool → Transport → Transport
unfolding set_state send_on_control_stream
start_moq_session opens starts t =
    let u = record t { control_stream = true } in
    if not opens
    then set_state transport_failed "Failed to open control stream" t
    else (if not starts
        then set_state transport_failed "Failed to start control stream" u
        else (send_on_control_stream (build_client_setup default_setup) u).1)

pub check_connected : Bool → Bool → Transport → Transport
unfolding start_moq_session
check_connected opens starts t =
    if t.pending_connected
    then start_moq_session opens starts
        (set_state transport_connected "QUIC connected" (record t { pending_connected = false }))
    else t

pub check_transport_shutdown : Transport → Transport
check_transport_shutdown t =
    let u = record t { pending_transport_shutdown = false } in
    if t.pending_transport_shutdown && not t.disconnecting
    then set_state transport_failed "Transport shutdown" u
    else u

pub check_peer_shutdown : Transport → Transport
check_peer_shutdown t =
    let u = record t { pending_peer_shutdown = false } in
    if t.pending_peer_shutdown && not t.disconnecting
    then set_state transport_failed "Peer shutdown" u
    else u

-- `buffer_len`, the buffer's size as an `int32_t`; the loop does not run when it is negative.
unfoldable pub buffer_len : ℕ → ℕ
buffer_len size = if ltb (u32 size) (2 ^ 31) then u32 size else 0

-- The loop over the first `buffer_len` bytes, and what is left after the erase.
unfoldable pub parse_buffer : List ℕ → List Event × List ℕ
unfolding parse_loop buffer_len
parse_buffer buffer =
    let n = buffer_len (length buffer) in
    let parsed = parse_loop n (take n buffer) in (parsed.0, parsed.1 ++ drop n buffer)

-- The queue goes to the reassembly buffer, and complete messages leave it.
pub parse_pending : Transport → Transport
unfolding concat emit parse_buffer
parse_pending t =
    let buffer = t.recv_buffer ++ concat t.pending_control_data in
    let parsed = parse_buffer buffer in
    emit parsed.0 (record t { recv_buffer = parsed.1; pending_control_data = [] })

unfoldable pub drain_and_parse : Bool → Bool → Transport → Transport
unfolding check_connected check_transport_shutdown check_peer_shutdown parse_pending
drain_and_parse opens starts t =
    parse_pending (check_peer_shutdown (check_transport_shutdown (check_connected opens starts t)))

-- What cleanup_quic resets of the state above.
pub cleanup_quic : Transport → Transport
cleanup_quic t = record t {
  connection = false;
  control_stream = false;
  max_dgram_size = 0;
  pending_connected = false;
  pending_transport_shutdown = false;
  pending_peer_shutdown = false;
  recv_buffer = [];
  pending_control_data = [];
}

pub is_disconnected : TransportState → Bool
is_disconnected transport_disconnected = true
is_disconnected transport_connecting = false
is_disconnected transport_connected = false
is_disconnected transport_ready = false
is_disconnected transport_failed = false

-- `init` and `start` are the results of init_quic and start_connection.
unfoldable pub connect : Bool → Bool → Transport → Bool × Transport
unfolding is_disconnected cleanup_quic set_state
connect init start t =
    let u = set_state transport_connecting "Connecting" (record t { disconnecting = false }) in
    if not (is_disconnected t.current_state)
    then (false, t)
    else (if not init
        then (false, cleanup_quic (set_state transport_failed "Failed to initialize QUIC" u))
        else (if not start
            then (
              false,
              cleanup_quic (set_state transport_failed "Failed to start QUIC connection" u),
            )
            else (true, record u { connection = true })))

unfoldable pub disconnect : Transport → Transport
unfolding cleanup_quic set_state
disconnect t =
    set_state transport_disconnected "Disconnected"
      (cleanup_quic (record t { disconnecting = true }))
