-- ===== src/Core/Tests.antt =====
-- A core with two tracks that capture and one that plays.
use libpanaudia_core.Prelude.{
  List, [], arith, bytes_eq, false, min, none, refl, some, true, ℕ, ◌*◌, ◌+◌, ◌/◌, ◌∷◌, ◌≡◌,
}
use libpanaudia_core.Core.{
  PanaudiaCore, new_core, destroy_core, configure, connect, disconnect, get_track, write_audio,
  get_connection_state, get_buffer_status,
}
use libpanaudia_core.Core.Metering.{write_audio-get_buffer_status}
use libpanaudia_core.Core.Names.{get_track-configure}
use libpanaudia_core.Core.Closing.{destroy_core-disconnect}
use libpanaudia_core.Audio.Ring.{new_ring, RingBuffer}
use libpanaudia_core.Audio.Ring.Valid.{new_ring-IsValid}
use libpanaudia_core.Audio.Jitter.Stats.{FloatArith}
use libpanaudia_core.Session.Track.{
  audio_track, outbound, inbound, pcm_codec, TrackConfig, TrackHandle,
}
use libpanaudia_core.Session.State.{SessionConfig, disconnected}
use libpanaudia_core.Session.Examples.{platform, defaults}
use libpanaudia_core.Session.Configure.{outbound_track, new_track}
use libpanaudia_core.Session.Media.{nth}
use libpanaudia_core.Session.Status.Bounds.{IsWhole}

-- Floats are numbers here.
abbrev floats : FloatArith ℕ
floats = record {
  of_unsigned = λ n. n;
  of_signed = λ n. n;
  divide = λ a b. a / b;
  multiply = λ a b. a * b;
  zero_float = 0;
}

abbrev microphone : TrackConfig
microphone = record {
  name = b'm' ∷ [];
  moq_namespace = [];
  moq_track_name = [];
  direction = outbound;
  type = audio_track;
  channels = 2;
  sample_rate = 1000;
  codec = pcm_codec;
  opus_bitrate = 64000;
  opus_frame_size_ms = 5;
  pcm_frame_size_ms = 5;
}

abbrev loudspeaker : TrackConfig
loudspeaker = record microphone { name = b'l' ∷ []; direction = inbound }

abbrev tracks : SessionConfig
tracks = record defaults { tracks = microphone ∷ loudspeaker ∷ microphone ∷ [] }

abbrev core : PanaudiaCore ℕ ℕ
core = configure platform tracks (new_core defaults)

abbrev capture : TrackHandle ℕ ℕ
capture = outbound_track platform microphone

abbrev ring : RingBuffer ℕ
ring = new_ring 0 200 2

capture-IsWhole : IsWhole ring
unfolding new_ring
capture-IsWhole = record {
  valid = new_ring-IsValid 0 200 2 (omega arith) (omega arith);
  some_channels = omega arith;
  whole = refl;
}

abbrev sound : List ℕ
sound = 1 ∷ 2 ∷ 3 ∷ 4 ∷ 5 ∷ 6 ∷ []

-- Three frames for the last track.
metering_example :
    let status = λ (k : ℕ) (d : PanaudiaCore ℕ ℕ). get_buffer_status floats (some k) d in
    let after = write_audio (some 2) sound 3 core in
    ((status 2 after).buffered_frames
      ≡ min ((status 2 core).buffered_frames + 3) (status 2 core).capacity_frames)
    × ((status 2 after).capacity_frames ≡ (status 2 core).capacity_frames)
    × (status 0 after ≡ status 0 core)
unfolding configure outbound_track nth new_ring
metering_example =
    write_audio-get_buffer_status floats 2 0 sound 3 core capture ring refl refl refl refl
      capture-IsWhole (omega arith) (omega arith) (λ e. omega arith)

-- The name of two tracks leads to the second.
names_example :
    (get_track (b'm' ∷ []) core ≡ some 2)
    × (nth 2 core.session.moq.tracks ≡ some (new_track platform tracks microphone))
    × ((new_track platform tracks microphone).config ≡ microphone)
    × (get_track (b'x' ∷ []) core ≡ none)
unfolding nth bytes_eq
names_example =
    get_track-configure platform tracks (new_core defaults) 2 microphone refl tt (b'x' ∷ [])
      (refl, (refl, (refl, tt)))

closing_example :
    let d = disconnect 9 (connect 0 true true core) in
    (get_connection_state d ≡ disconnected)
    × (d.session.session_running ≡ false)
    × (d.session.transport ≡ none)
    × (destroy_core 10 d ≡ d.session)
closing_example = destroy_core-disconnect 9 10 (connect 0 true true core)
