-- ===== src/Core.antt =====
-- The public interface: src/panaudia_core.cpp, which forwards each call to the session, and the
-- calls of src/session_manager.cpp that find the track behind a pointer. A TrackHandle* is the
-- index of its track, or none for a null pointer.
mod Tests
pub mod Metering
pub mod Names
pub mod Closing
use libpanaudia_core.Prelude.{Bool, List, Option, [], none, some, ℕ}
use libpanaudia_core.Audio.Jitter.Stats.{FloatArith}
use libpanaudia_core.Session.Track.{Platform, TrackHandle}
use libpanaudia_core.Session.State.{ConnectionState, SessionConfig, Session}
use libpanaudia_core.Session.Control.{set_track}
use libpanaudia_core.Session.Lifecycle.{connect_session, disconnect_session}
use libpanaudia_core.Session.Configure
use libpanaudia_core.Session.Media
use libpanaudia_core.Session.Media.{nth}
use libpanaudia_core.Session.Status
use libpanaudia_core.Session.Status.{BufferStatus, SessionStats, get_session_stats}
use libpanaudia_core.Session.Steps.{new_session}

pub record PanaudiaCore (A H : Type 0) : Type 0 where
  pub session : Session A H

module _ {A H : Type 0} where
  unfoldable pub new_core : SessionConfig → PanaudiaCore A H
  unfolding new_session
  new_core defaults = record { session = new_session defaults }

  -- The destructor ends with the session's, which disconnects.
  unfoldable pub destroy_core : ℕ → PanaudiaCore A H → Session A H
  unfolding disconnect_session
  destroy_core now c = disconnect_session now c.session

  unfoldable pub configure : Platform A H → SessionConfig → PanaudiaCore A H → PanaudiaCore A H
  unfolding Configure.configure
  configure p config c = record { session = Configure.configure p config c.session }

  unfoldable pub connect : ℕ → Bool → Bool → PanaudiaCore A H → PanaudiaCore A H
  unfolding connect_session
  connect now init start c = record { session = connect_session now init start c.session }

  unfoldable pub disconnect : ℕ → PanaudiaCore A H → PanaudiaCore A H
  unfolding disconnect_session
  disconnect now c = record { session = disconnect_session now c.session }

  unfoldable pub update_jwt : List ℕ → PanaudiaCore A H → PanaudiaCore A H
  unfolding Configure.update_jwt
  update_jwt jwt c = record { session = Configure.update_jwt jwt c.session }

  unfoldable pub get_track : List ℕ → PanaudiaCore A H → Option ℕ
  unfolding Configure.get_track
  get_track name c = Configure.get_track name c.session

  unfoldable pub with_tracks : List (TrackHandle A H) → Session A H → Session A H
  with_tracks ts s = record s { moq = record (s.moq) { tracks = ts } }

  unfoldable pub write_audio : Option ℕ → List A → ℕ → PanaudiaCore A H → PanaudiaCore A H
  unfolding Media.write_audio set_track with_tracks
  write_audio none samples frame_count c = c
  write_audio (some i) samples frame_count c =
      let s = c.session in
      record {
        session = with_tracks (set_track i (Media.write_audio samples frame_count) s.moq.tracks) s;
      }

  -- What is read from a track, with the track's index to put it back.
  unfoldable pub read_found :
      A → (ℕ → A) → ℕ → ℕ → Option (TrackHandle A H) → Session A H → ℕ × List A × Session A H
  unfolding Media.read_audio set_track with_tracks
  read_found silence dst i frame_count none s = (0, [], s)
  read_found silence dst i frame_count (some t) s =
      let r = Media.read_audio silence dst frame_count t in
      (r.0, r.1, with_tracks (set_track i (λ _. r.2) s.moq.tracks) s)

  -- The frames returned, the floats in the host's buffer, and the core.
  unfoldable pub read_audio :
      A → (ℕ → A) → Option ℕ → ℕ → PanaudiaCore A H → ℕ × List A × PanaudiaCore A H
  unfolding read_found nth
  read_audio silence dst none frame_count c = (0, [], c)
  read_audio silence dst (some i) frame_count c =
      let r = read_found silence dst i frame_count (nth i c.session.moq.tracks) c.session in
      (r.0, r.1, record { session = r.2 })

  unfoldable pub send_found : List ℕ → ℕ → Option (TrackHandle A H) → Session A H → Session A H
  unfolding Media.send_data set_track with_tracks
  send_found bytes i none s = s
  send_found bytes i (some t) s =
      let r = Media.send_data s.state bytes t s.transport in
      record (with_tracks (set_track i (λ _. r.0) s.moq.tracks) s) { transport = r.1 }

  unfoldable pub send_data : Option ℕ → List ℕ → PanaudiaCore A H → PanaudiaCore A H
  unfolding send_found nth
  send_data none bytes c = c
  send_data (some i) bytes c = record {
    session = send_found bytes i (nth i c.session.moq.tracks) c.session;
  }

  unfoldable pub get_connection_state : PanaudiaCore A H → ConnectionState
  unfolding Status.get_connection_state
  get_connection_state c = Status.get_connection_state c.session

  unfoldable pub get_buffer_status : FloatArith A → Option ℕ → PanaudiaCore A H → BufferStatus A
  unfolding Status.get_buffer_status
  get_buffer_status f track c = Status.get_buffer_status f track c.session

  unfoldable pub get_stats : {D : Type 0} → D → PanaudiaCore A H → SessionStats D
  unfolding Status.get_session_stats
  get_stats zero_double c = Status.get_session_stats zero_double c.session
