-- ===== src/Session/Status.antt =====
-- What the host may ask: get_connection_state, get_buffer_status and get_stats of
-- src/session_manager.cpp, with the structs of include/panaudia/core.h. A read of a counter that
-- another thread writes is one step.
pub mod Bounds
use libpanaudia_core.Prelude.{Option, if◌then◌else◌, ltb, none, not, slt, some, u32, ℕ, ◌*◌, ◌/◌}
use libpanaudia_core.Audio.Ring.{RingBuffer, read_available}
use libpanaudia_core.Audio.Jitter.{JitterBuffer}
use libpanaudia_core.Audio.Jitter.Stats.{FloatArith, get_stats}
use libpanaudia_core.Session.Track.{TrackHandle, is_outbound, is_audio}
use libpanaudia_core.Session.State.{ConnectionState, Session}
use libpanaudia_core.Session.Media.{nth}

pub record BufferStatus (A : Type 0) : Type 0 where
  pub buffered_frames : ℕ
  pub capacity_frames : ℕ
  pub fill_ratio : A
  pub underrun_count : ℕ
  pub overrun_count : ℕ

-- `D` is double.
pub record SessionStats (D : Type 0) : Type 0 where
  pub state : ConnectionState
  pub bytes_sent : ℕ
  pub bytes_received : ℕ
  pub packets_sent : ℕ
  pub packets_received : ℕ
  pub packets_lost : ℕ
  pub rtt_ms : D
  pub reconnect_count : ℕ

module _ {A : Type 0} (f : FloatArith A) where
  -- BufferStatus as it is value-initialized.
  unfoldable pub no_status : BufferStatus A
  no_status = record {
    buffered_frames = 0;
    capacity_frames = 0;
    fill_ratio = f.zero_float;
    underrun_count = 0;
    overrun_count = 0;
  }

  unfoldable pub ratio : ℕ → ℕ → A
  ratio level capacity =
      if ltb 0 capacity
      then f.divide (f.of_unsigned level) (f.of_unsigned capacity)
      else f.zero_float

  unfoldable pub ring_status : Option (RingBuffer A) → BufferStatus A
  unfolding no_status ratio
  ring_status none = no_status
  ring_status (some r) = record {
    buffered_frames = read_available r;
    capacity_frames = r.capacity_frames;
    fill_ratio = ratio (read_available r) r.capacity_frames;
    underrun_count = 0;
    overrun_count = 0;
  }

  -- The capacity is that of the latency that the session allows; a level below zero counts as none.
  unfoldable pub jitter_status : ℕ → ℕ → Option (JitterBuffer A) → BufferStatus A
  unfolding no_status ratio get_stats
  jitter_status sample_rate max_ms none = no_status
  jitter_status sample_rate max_ms (some j) =
      let stats = get_stats f j in
      let level = if slt 0 stats.fill_level_samples then stats.fill_level_samples else 0 in
      let capacity = u32 (sample_rate * max_ms) / 1000 in
      record {
        buffered_frames = level;
        capacity_frames = capacity;
        fill_ratio = ratio level capacity;
        underrun_count = stats.underrun_count;
        overrun_count = stats.overrun_count;
      }

  module _ {H : Type 0} where
    unfoldable pub track_status : ℕ → TrackHandle A H → BufferStatus A
    unfolding no_status ring_status jitter_status is_audio is_outbound
    track_status max_ms t =
        if not (is_audio t.config.type)
        then no_status
        else (if is_outbound t.config.direction
            then ring_status t.ring_buffer
            else jitter_status t.config.sample_rate max_ms t.jitter_buffer)

    unfoldable pub status_of : ℕ → Option (TrackHandle A H) → BufferStatus A
    unfolding no_status track_status
    status_of max_ms none = no_status
    status_of max_ms (some t) = track_status max_ms t

    -- A null pointer is no track.
    unfoldable pub get_buffer_status : Option ℕ → Session A H → BufferStatus A
    unfolding no_status status_of nth
    get_buffer_status none s = no_status
    get_buffer_status (some i) s = status_of s.config.jitter_buffer_max_ms (nth i s.moq.tracks)

module _ {A H : Type 0} where
  unfoldable pub get_connection_state : Session A H → ConnectionState
  get_connection_state s = s.state

  -- Only the state and the count of reconnections are kept; `zero_double` is 0.0.
  unfoldable pub get_session_stats : {D : Type 0} → D → Session A H → SessionStats D
  get_session_stats zero_double s = record {
    state = s.state;
    bytes_sent = 0;
    bytes_received = 0;
    packets_sent = 0;
    packets_received = 0;
    packets_lost = 0;
    rtt_ms = zero_double;
    reconnect_count = s.total_reconnect_count;
  }
