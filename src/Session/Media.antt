-- ===== src/Session/Media.antt =====
-- The media of a session: write_audio, read_audio and send_data of the host, and the polling of
-- the outbound tracks. A call on a track is a function of its handle.
pub mod Dispatch
use libpanaudia_core.Prelude.{
  Bool, List, Option, [], false, if◌then◌else◌, leb, length, ltb, none, not, some, suc, true, u32,
  u64, zero, ℕ, ◌&&◌, ◌*◌, ◌++◌, ◌+◌, ◌/◌, ◌==◌, ◌||◌, ◌∷◌,
}
use libpanaudia_core.Moq.Datagram.{build_object_datagram, build_object_datagram_header}
use libpanaudia_core.Audio.Ring.{RingBuffer, read_available}
use libpanaudia_core.Audio.Ring.{write as ring_write, read as ring_read, RingBuffer, read_available}
use libpanaudia_core.Audio.Jitter.{JitterBuffer}
use libpanaudia_core.Audio.Jitter.{read as jitter_read, JitterBuffer}
use libpanaudia_core.Audio.Codec.{OpusEncoderWrapper, pcm_frame, encode_frame}
use libpanaudia_core.Transport.{Transport}
use libpanaudia_core.Transport.Network.{send_datagram}
use libpanaudia_core.Session.Track.{Platform, TrackHandle, is_outbound, is_audio, is_opus}
use libpanaudia_core.Session.State.{
  ConnectionState, disconnected, connecting, connected, reconnecting, failed, outside_buffer,
  endless_loop, MoqState,
}
use libpanaudia_core.Session.Control.{add_fault}

unfoldable pub is_connected : ConnectionState → Bool
is_connected disconnected = false
is_connected connecting = false
is_connected connected = true
is_connected reconnecting = false
is_connected failed = false

-- A loop that sends has ended, writes outside a buffer, or goes on for ever.
pub data Run {ℓ} (T : Type ℓ) : Type ℓ where
  done : T → Run T
  overrun : Run T
  endless : Run T

unfoldable pub put_ring : {A : Type 0} → List A → ℕ → Option (RingBuffer A) → Option (RingBuffer A)
put_ring samples frame_count none = none
put_ring samples frame_count (some r) = some (ring_write r samples frame_count).1

module _ {A H : Type 0} where
  unfoldable pub write_audio : List A → ℕ → TrackHandle A H → TrackHandle A H
  unfolding put_ring is_audio is_outbound
  write_audio samples frame_count t =
      if is_audio t.config.type && is_outbound t.config.direction
      then record t { ring_buffer = put_ring samples frame_count t.ring_buffer }
      else t

  -- The frames returned, the floats written to the host's buffer, which holds `dst` before, and the
  -- track.
  unfoldable pub take_jitter :
      A → (ℕ → A) → ℕ → ℕ → TrackHandle A H → Option (JitterBuffer A) → ℕ × List A × TrackHandle A H
  take_jitter silence dst frame_count float_count t none = (0, [], t)
  take_jitter silence dst frame_count float_count t (some j) =
      let r = jitter_read silence dst j float_count in
      (if r.0 then frame_count else 0, r.1, record t { jitter_buffer = some (r.2) })

  unfoldable pub read_audio : A → (ℕ → A) → ℕ → TrackHandle A H → ℕ × List A × TrackHandle A H
  unfolding take_jitter is_audio is_outbound
  read_audio silence dst frame_count t =
      if is_audio t.config.type && not (is_outbound t.config.direction)
      then take_jitter silence dst frame_count (u32 (frame_count * t.config.channels)) t
          t.jitter_buffer
      else (0, [], t)

  unfoldable pub count_object : TrackHandle A H → TrackHandle A H
  count_object t = record t { next_object_id = u64 (t.next_object_id + 1) }

  unfoldable pub send_data :
      ConnectionState
      → List ℕ
      → TrackHandle A H
      → Option Transport
      → TrackHandle A H × Option Transport
  unfolding count_object is_audio is_connected
  send_data state bytes t none = (t, none)
  send_data state bytes t (some tr) =
      if not (is_audio t.config.type) && not (t.moq_track_alias == 0) && is_connected state
      then (
        count_object t,
        some
            (send_datagram
              (build_object_datagram t.moq_track_alias t.next_group_id t.next_object_id 128 bytes)
              tr).1,
      )
      else (t, some tr)

  -- One payload, behind its header in the datagram buffer.
  unfoldable pub send_payload :
      List ℕ → TrackHandle A H × Transport → Run (TrackHandle A H × Transport)
  unfolding count_object
  send_payload payload (t, tr) =
      let header =
        build_object_datagram_header t.moq_track_alias t.next_group_id t.next_object_id 128 in
      if ltb t.datagram_buffer (length header + length payload)
      then overrun
      else done (count_object t, (send_datagram (header ++ payload) tr).1)

unfoldable pub next {ℓ κ} : {T : Type ℓ} {U : Type κ} → Run T → (T → Run U) → Run U
next (done t) f = f t
next overrun f = overrun
next endless f = endless

unfoldable pub nth {ℓ} : {T : Type ℓ} → ℕ → List T → Option T
nth i [] = none
nth zero (t ∷ ts) = some t
nth (suc i) (t ∷ ts) = nth i ts

-- `read_available() >= frame_size`, and the frames that a ring holds.
unfoldable pub has_frame : {A : Type 0} → ℕ → Option (RingBuffer A) → Bool
has_frame frame_size none = false
has_frame frame_size (some r) = leb frame_size (read_available r)

unfoldable pub frames_in : {A : Type 0} → Option (RingBuffer A) → ℕ
frames_in none = 0
frames_in (some r) = read_available r

module _ {A H : Type 0} (p : Platform A H) where
  -- A round of send_pcm_frame, on the floats that were read.
  unfoldable pub send_pcm :
      ℕ → List A → TrackHandle A H × Transport → Run (TrackHandle A H × Transport)
  unfolding send_payload
  send_pcm frame_size pcm (t, tr) =
      let payload = pcm_frame p.mem pcm frame_size t.config.channels in
      if ltb t.encode_output_buffer (length payload) then overrun else send_payload payload (t, tr)

  -- A round of send_audio_frame; nothing is sent for an empty packet or an error.
  unfoldable pub send_packet :
      Option (List ℕ) → TrackHandle A H × Transport → Run (TrackHandle A H × Transport)
  unfolding send_payload
  send_packet none s = done s
  send_packet (some []) s = done s
  send_packet (some (b ∷ bs)) s = send_payload (b ∷ bs) s

  unfoldable pub send_opus :
      OpusEncoderWrapper H
      → ℕ
      → List A
      → TrackHandle A H × Transport
      → Run (TrackHandle A H × Transport)
  unfolding send_packet
  send_opus encoder frame_size pcm (t, tr) =
      let r = encode_frame p.opus encoder pcm frame_size t.encode_output_buffer in
      send_packet r.0 (record t { encoder = some r.1 }, tr)

  unfoldable pub send_with :
      Option (OpusEncoderWrapper H)
      → ℕ
      → List A
      → TrackHandle A H × Transport
      → Run (TrackHandle A H × Transport)
  unfolding send_opus
  send_with none frame_size pcm s = done s
  send_with (some e) frame_size pcm s = send_opus e frame_size pcm s

  unfoldable pub send_frame :
      Bool → ℕ → List A → TrackHandle A H × Transport → Run (TrackHandle A H × Transport)
  unfolding send_pcm send_with
  send_frame opus frame_size pcm (t, tr) =
      if opus then send_with t.encoder frame_size pcm (t, tr) else send_pcm frame_size pcm (t, tr)

  unfoldable pub send_ring :
      Bool
      → ℕ
      → TrackHandle A H × Transport
      → Option (RingBuffer A)
      → Run (TrackHandle A H × Transport)
  unfolding send_frame
  send_ring opus frame_size s none = done s
  send_ring opus frame_size (t, tr) (some r) =
      let got = ring_read r frame_size in
      if ltb t.pcm_read_buffer (length (got.1))
      then overrun
      else send_frame opus frame_size got.1 (record t { ring_buffer = some got.2 }, tr)

  -- The loop, with a bound on its rounds.
  unfoldable pub send_frames :
      ℕ → Bool → ℕ → TrackHandle A H × Transport → Run (TrackHandle A H × Transport)
  unfolding send_ring has_frame next
  send_frames zero opus frame_size s =
      if has_frame frame_size s.0.ring_buffer then endless else done s
  send_frames (suc n) opus frame_size s =
      if has_frame frame_size s.0.ring_buffer
      then next (send_ring opus frame_size s s.0.ring_buffer) (send_frames n opus frame_size)
      else done s

  -- A round takes a frame out of the ring, so the frames in it bound the rounds.
  unfoldable pub send_track :
      Bool → ℕ → TrackHandle A H × Transport → Run (TrackHandle A H × Transport)
  unfolding send_frames frames_in
  send_track opus frame_size s = send_frames (frames_in s.0.ring_buffer) opus frame_size s

  unfoldable pub poll_opus :
      Option (OpusEncoderWrapper H)
      → TrackHandle A H × Transport
      → Run (TrackHandle A H × Transport)
  unfolding send_track
  poll_opus none s = done s
  poll_opus (some e) s = send_track true e.frame_size_samples s

  unfoldable pub poll_track : TrackHandle A H × Transport → Run (TrackHandle A H × Transport)
  unfolding poll_opus send_track is_audio is_outbound is_opus
  poll_track (t, tr) =
      let frame_size = u32 (t.config.pcm_frame_size_ms * t.config.sample_rate) / 1000 in
      if not (is_outbound t.config.direction)
        || not (is_audio t.config.type)
        || (t.moq_track_alias == 0)
      then done (t, tr)
      else (if is_opus t.config.codec
          then poll_opus t.encoder (t, tr)
          else send_track false frame_size (t, tr))

  unfoldable pub poll_tracks :
      List (TrackHandle A H) → Transport → Run (List (TrackHandle A H) × Transport)
  unfolding poll_track next
  poll_tracks [] tr = done ([], tr)
  poll_tracks (t ∷ ts) tr =
      next (poll_track (t, tr)) (λ s. next (poll_tracks ts s.1) (λ r. done (s.0 ∷ r.0, r.1)))

  unfoldable pub polled :
      Run (List (TrackHandle A H) × Transport) → MoqState A H × Transport → MoqState A H × Transport
  unfolding add_fault
  polled (done (ts, tr)) (m, old) = (record m { tracks = ts }, tr)
  polled overrun (m, old) = (add_fault outside_buffer m, old)
  polled endless (m, old) = (add_fault endless_loop m, old)

  unfoldable pub poll_outbound_tracks : MoqState A H × Transport → MoqState A H × Transport
  unfolding poll_tracks polled
  poll_outbound_tracks (m, tr) = polled (poll_tracks m.tracks tr) (m, tr)
