-- ===== src/Session/Lifecycle.antt =====
-- From connect to disconnect: the exchanges with a transport, attempt_reconnect, connect and
-- disconnect. The callbacks of the transport run at once. The arguments `init` and `start` are the
-- results of init_quic and start_connection.
use mathlib.Core.Option
use libpanaudia_core.Prelude.{
  Bool, List, Option, [], false, if◌then◌else◌, ltb, map, none, not, some, true, u32, ℕ, ◌&&◌, ◌+◌,
  ◌||◌, ◌∷◌,
}
use libpanaudia_core.Moq.Framing.{MessageType}
use libpanaudia_core.Audio.Ring.{flush}
use libpanaudia_core.Transport.{
  TransportState, Event, state_changed, control_message, datagram, undefined, Transport,
  new_transport, connect, disconnect,
}
use libpanaudia_core.Session.Track.{TrackHandle}
use libpanaudia_core.Session.State.{
  ConnectionState, disconnected, connecting, connected, reconnecting, failed, outside_message,
  MoqState, Session, is_none, report,
}
use libpanaudia_core.Session.Url.{UrlResult, parsed, rejected, thrown, parse_url}
use libpanaudia_core.Session.Link.{schedule, give_up, handle_transport_state_change}
use libpanaudia_core.Session.Control.{add_fault}
use libpanaudia_core.Session.Control.Messages.{handle_control_message}

-- The states that connect() refuses to start from.
unfoldable pub is_active : ConnectionState → Bool
is_active disconnected = false
is_active connecting = true
is_active connected = true
is_active reconnecting = true
is_active failed = false

unfoldable pub is_down : ConnectionState → Bool
is_down disconnected = true
is_down connecting = false
is_down connected = false
is_down reconnecting = false
is_down failed = false

-- The callbacks of one call of disconnect.
unfoldable pub disconnected_events : Transport → List Event
unfolding disconnect
disconnected_events t = (disconnect (record t { events = [] })).events

unfoldable pub enter_state : TransportState → Option Transport → Option Transport
enter_state ts none = none
enter_state ts (some t) = some (record t { current_state = ts })

module _ {A H : Type 0} where
  unfoldable pub reset_track : TrackHandle A H → TrackHandle A H
  reset_track t = record t {
    moq_track_alias = 0;
    moq_request_id = 0;
    next_object_id = 0;
    next_group_id = 0;
  }

  unfoldable pub reset_moq_state : MoqState A H → MoqState A H
  unfolding reset_track
  reset_moq_state m = record m {
    request_id_map = [];
    inbound_alias_map = [];
    outbound_alias_map = [];
    next_request_id = 0;
    next_track_alias = 1;
    orchestration_started = false;
    first_subscribe_sent = false;
    tracks = map reset_track m.tracks;
  }

  unfoldable pub flush_track : TrackHandle A H → TrackHandle A H
  unfolding flush
  flush_track t = record t { ring_buffer = Option.map flush t.ring_buffer }

  unfoldable pub flush_rings : MoqState A H → MoqState A H
  unfolding flush_track
  flush_rings m = record m { tracks = map flush_track m.tracks }

  unfoldable pub clear_moq : Session A H → Session A H
  unfolding flush_rings reset_moq_state
  clear_moq s = record s { moq = flush_rings (reset_moq_state s.moq) }

  -- A message of the transport that is there; without one none arrives.
  unfoldable pub hear_message : MessageType → List ℕ → Option Transport → Session A H → Session A H
  unfolding handle_control_message
  hear_message type content none s = s
  hear_message type content (some t) s =
      let after = handle_control_message type content (s.moq, t) in
      record s { moq = after.0; transport = some after.1 }

  -- The callbacks that the transport made, each with the transport in the state of that moment. A
  -- datagram goes another way, on msquic's thread.
  unfoldable pub hear : ℕ → List Event → Session A H → Session A H
  unfolding handle_transport_state_change hear_message enter_state add_fault
  hear now [] s = s
  hear now (state_changed ts message ∷ es) s = hear now es (
      handle_transport_state_change now ts message
        (record s { transport = enter_state ts s.transport }))
  hear now (control_message m content ∷ es) s = hear now es (hear_message m content s.transport s)
  hear now (datagram d ∷ es) s = hear now es s
  hear now (undefined ∷ es) s = hear now es (record s { moq = add_fault outside_message s.moq })

  -- The destructor disconnects too; the pointer is null by then.
  unfoldable pub destroy_transport : ℕ → Option Transport → Session A H → Session A H
  unfolding hear disconnected_events
  destroy_transport now none s = s
  destroy_transport now (some t) s = hear now (disconnected_events t) s

  unfoldable pub destroy : ℕ → Session A H → Session A H
  unfolding destroy_transport
  destroy now s = destroy_transport now s.transport (record s { transport = none })

  unfoldable pub tear_down_transport : ℕ → Option Transport → Session A H → Session A H
  unfolding hear disconnected_events disconnect destroy
  tear_down_transport now none s = s
  tear_down_transport now (some t) s =
      destroy now (hear now (disconnected_events t) (record s { transport = some (disconnect t) }))

  unfoldable pub tear_down : ℕ → Session A H → Session A H
  unfolding tear_down_transport
  tear_down now s = tear_down_transport now s.transport s

  -- A new transport in place of the old one, which is destroyed, and what its connect reports.
  unfoldable pub open_transport : ℕ → Bool → Bool → Session A H → Bool × Session A H
  unfolding hear connect destroy
  open_transport now init start s =
      let made = connect init start new_transport in
      (
        made.0,
        hear now made.1.events
            (record (destroy now s) { transport = some (record made.1 { events = [] }) }),
      )

  unfoldable pub try_transport : ℕ → Bool → Bool → Session A H → Session A H
  unfolding open_transport destroy schedule
  try_transport now init start s =
      let made = open_transport now init start s in
      if made.0 then made.1 else schedule now (destroy now made.1)

  unfoldable pub count_attempt : Session A H → Session A H
  count_attempt s = record s {
    reconnect_attempt = u32 (s.reconnect_attempt + 1);
    total_reconnect_count = u32 (s.total_reconnect_count + 1);
  }

  unfoldable pub attempt_reconnect : ℕ → Bool → Bool → Session A H → Session A H
  unfolding count_attempt give_up tear_down clear_moq try_transport
  attempt_reconnect now init start s =
      let t = count_attempt s in
      if ltb t.config.max_reconnect_attempts t.reconnect_attempt
      then give_up t
      else try_transport now init start (clear_moq (tear_down now t))

  -- Assigning a std::thread over one that is still joinable terminates the program.
  unfoldable pub start_thread : Session A H → Session A H
  start_thread s = record s {
    terminated = s.terminated || s.session_running;
    session_running = true;
  }

  unfoldable pub start_session : ℕ → Bool → Bool → Session A H → Session A H
  unfolding open_transport destroy start_thread
  start_session now init start s =
      let made = open_transport now init start s in
      if made.0 then start_thread made.1 else destroy now made.1

  unfoldable pub restart : List ℕ → ℕ → Session A H → Session A H
  restart host port s = record s {
    parsed_host = host;
    parsed_port = port;
    manual_disconnect = false;
    reconnecting_ = false;
    reconnect_attempt = 0;
    total_reconnect_count = 0;
  }

  -- An exception of std::stoi goes to the caller. What a refused URL leaves in parsed_host and
  -- parsed_port is left out: nothing reads them before the next connect sets them.
  unfoldable pub connect_to : ℕ → Bool → Bool → UrlResult → Session A H → Session A H
  unfolding report restart start_session
  connect_to now init start (parsed host port) s =
      start_session now init start (restart host port s)
  connect_to now init start rejected s = report failed "Invalid server URL" s
  connect_to now init start thrown s = s

  unfoldable pub connect_session : ℕ → Bool → Bool → Session A H → Session A H
  unfolding is_active connect_to parse_url
  connect_session now init start s =
      if is_active s.state then s else connect_to now init start (parse_url s.config.server_url) s

  unfoldable pub is_idle : Session A H → Bool
  unfolding is_down is_none
  is_idle s = is_down s.state && not s.session_running && is_none s.transport

  unfoldable pub stop : Session A H → Session A H
  stop s = record s { manual_disconnect = true; reconnecting_ = false; session_running = false }

  unfoldable pub disconnect_session : ℕ → Session A H → Session A H
  unfolding is_idle stop tear_down clear_moq report
  disconnect_session now s =
      let cleared = clear_moq (tear_down now (stop s)) in
      if is_idle s then s else report disconnected "Disconnected" cleared
