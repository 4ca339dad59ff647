-- ===== src/Session/State.antt =====
-- The state of the session manager (include/panaudia/session_manager.h), in two parts: what the
-- connection needs, and the MOQ state with the tracks. A pointer to a track is its index. Time is
-- a count of milliseconds, and the session thread is the flag that it runs.
use Prim.Native.String.{String}
use libpanaudia_core.Prelude.{Bool, List, Option, [], false, none, some, true, ℕ, ◌++◌, ◌∷◌}
use libpanaudia_core.Transport.{Transport}
use libpanaudia_core.Session.Track.{TrackConfig, TrackHandle}

pub data ConnectionState : Type 0 where
  disconnected connecting connected reconnecting failed : ConnectionState

pub record SessionConfig : Type 0 where
  pub server_url : List ℕ
  pub jwt : List ℕ
  pub tracks : List TrackConfig
  pub jitter_buffer_min_ms : ℕ
  pub jitter_buffer_max_ms : ℕ
  pub jitter_buffer_initial_ms : ℕ
  pub has_data_recv_callback : Bool
  pub max_reconnect_attempts : ℕ
  pub reconnect_base_delay_ms : ℕ
  pub reconnect_max_delay_ms : ℕ

-- What goes wrong beyond an error code: a parser or a copy outside its buffer, and a loop that
-- does not end. What the state is after one of these means nothing.
pub data Fault : Type 0 where
  outside_message outside_buffer endless_loop : Fault

-- `received` is what data_recv_callback was given, by track.
pub record MoqState (A H : Type 0) : Type 0 where
  pub tracks : List (TrackHandle A H)
  pub next_request_id : ℕ
  pub next_track_alias : ℕ
  pub request_id_map : List (ℕ × ℕ)
  pub inbound_alias_map : List (ℕ × ℕ)
  pub outbound_alias_map : List (ℕ × ℕ)
  pub orchestration_started : Bool
  pub first_subscribe_sent : Bool
  pub received : List (ℕ × List ℕ)
  pub faults : List Fault

-- `terminated` says that std::terminate was called.
pub record Session (A H : Type 0) : Type 0 where
  pub config : SessionConfig
  pub moq : MoqState A H
  pub transport : Option Transport
  pub name_map : List (List ℕ × ℕ)
  pub session_running : Bool
  pub terminated : Bool
  pub state : ConnectionState
  pub parsed_host : List ℕ
  pub parsed_port : ℕ
  pub manual_disconnect : Bool
  pub reconnecting_ : Bool
  pub reconnect_attempt : ℕ
  pub total_reconnect_count : ℕ
  pub reconnect_deadline : ℕ
  pub statuses : List (ConnectionState × String)

unfoldable pub is_none : Option Transport → Bool
is_none none = true
is_none (some t) = false

module _ {A H : Type 0} where
  -- A change of state, with the status callback that tells the host.
  unfoldable pub report : ConnectionState → String → Session A H → Session A H
  report cs message s = record s { state = cs; statuses = s.statuses ++ ((cs, message) ∷ []) }
