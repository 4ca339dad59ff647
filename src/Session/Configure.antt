-- ===== src/Session/Configure.antt =====
-- configure(): the tracks with the buffers and codecs that their configurations ask for, and
-- get_track. The results of the codecs' init are not looked at, as in the source.
use libpanaudia_core.Prelude.{
  List, Option, [], bytes_eq, if◌then◌else◌, map, none, not, some, true, u32, ℕ, ◌*◌, ◌+◌, ◌/◌, ◌∷◌,
}
use libpanaudia_core.Audio.Ring.{new_ring}
use libpanaudia_core.Audio.Jitter.{JitterBufferConfig, new_jitter}
use libpanaudia_core.Audio.Codec.{
  OpusEncoderConfig, new_encoder, new_decoder, init_encoder, init_decoder,
}
use libpanaudia_core.Session.Track.{
  TrackConfig, Platform, TrackHandle, is_outbound, is_audio, is_opus,
}
use libpanaudia_core.Session.State.{disconnected, SessionConfig, Session}

abbrev pub ring_buffer_ms : ℕ
ring_buffer_ms = 200

-- frame_size_samples of configure, and the capacity of a ring.
abbrev pub ms_frames : ℕ → ℕ → ℕ
ms_frames ms sample_rate = u32 (ms * sample_rate) / 1000

abbrev pub frame_ms : TrackConfig → ℕ
frame_ms tc = if is_opus tc.codec then tc.opus_frame_size_ms else tc.pcm_frame_size_ms

unfoldable pub encoder_config : TrackConfig → OpusEncoderConfig
encoder_config tc = record {
  sample_rate = tc.sample_rate;
  channels = tc.channels;
  bitrate = tc.opus_bitrate;
  frame_size_ms = tc.opus_frame_size_ms;
  vbr = true;
  dtx = true;
  complexity = 5;
}

unfoldable pub jitter_config : SessionConfig → TrackConfig → JitterBufferConfig
jitter_config config tc = record {
  sample_rate = tc.sample_rate;
  num_channels = tc.channels;
  target_latency_ms = config.jitter_buffer_initial_ms;
  target_window_ms = 20;
  min_latency_ms = config.jitter_buffer_min_ms;
  max_latency_ms = config.jitter_buffer_max_ms;
  capacity_ms = 1000;
  correction_interval = 16;
}

-- `name_map_[name] = handle`; a handle is the track's index.
unfoldable pub assign_name : List ℕ → ℕ → List (List ℕ × ℕ) → List (List ℕ × ℕ)
assign_name name i [] = (name, i) ∷ []
assign_name name i ((n, j) ∷ m) =
    let rest = assign_name name i m in if bytes_eq n name then (n, i) ∷ m else (n, j) ∷ rest

unfoldable pub find_name : List ℕ → List (List ℕ × ℕ) → Option ℕ
find_name name [] = none
find_name name ((n, j) ∷ m) =
    let rest = find_name name m in if bytes_eq n name then some j else rest

-- The assignments of the loop over the tracks, from index `i` on.
unfoldable pub name_tracks : ℕ → List TrackConfig → List (List ℕ × ℕ) → List (List ℕ × ℕ)
unfolding assign_name
name_tracks i [] m = m
name_tracks i (tc ∷ tcs) m = name_tracks (i + 1) tcs (assign_name tc.name i m)

module _ {A H : Type 0} (p : Platform A H) where
  -- A handle as it is constructed.
  unfoldable pub bare_track : TrackConfig → TrackHandle A H
  bare_track tc = record {
    config = tc;
    moq_track_alias = 0;
    moq_request_id = 0;
    next_object_id = 0;
    next_group_id = 0;
    ring_buffer = none;
    jitter_buffer = none;
    encoder = none;
    decoder = none;
    pcm_read_buffer = 0;
    encode_output_buffer = 0;
    datagram_buffer = 0;
    decode_buffer = 0;
  }

  unfoldable pub outbound_track : TrackConfig → TrackHandle A H
  unfolding bare_track encoder_config
  outbound_track tc =
      let frames = ms_frames (frame_ms tc) tc.sample_rate in
      let output = if is_opus tc.codec then 512 else u32 (frames * tc.channels) * 4 in
      record (bare_track tc) {
        ring_buffer =
            some (new_ring p.silence (ms_frames ring_buffer_ms tc.sample_rate) tc.channels);
        encoder =
            if is_opus tc.codec
            then some (init_encoder p.opus (encoder_config tc) new_encoder).1
            else none;
        pcm_read_buffer = u32 (frames * tc.channels);
        encode_output_buffer = output;
        datagram_buffer = 34 + output;
      }

  unfoldable pub inbound_track : SessionConfig → TrackConfig → TrackHandle A H
  unfolding bare_track jitter_config
  inbound_track config tc = record (bare_track tc) {
    jitter_buffer = some (new_jitter p.silence (jitter_config config tc));
    decoder =
        if is_opus tc.codec
        then some
            (init_decoder p.opus (record { sample_rate = tc.sample_rate; channels = tc.channels })
              new_decoder).1
        else none;
    decode_buffer = u32 (960 * tc.channels);
  }

  unfoldable pub new_track : SessionConfig → TrackConfig → TrackHandle A H
  unfolding bare_track outbound_track inbound_track is_audio is_outbound
  new_track config tc =
      if not (is_audio tc.type)
      then bare_track tc
      else (if is_outbound tc.direction then outbound_track tc else inbound_track config tc)

  -- The rest of the MOQ state stays as it is.
  unfoldable pub configure : SessionConfig → Session A H → Session A H
  unfolding new_track name_tracks
  configure config s = record s {
    config = config;
    state = disconnected;
    name_map = name_tracks 0 config.tracks [];
    moq = record (s.moq) { tracks = map (new_track config) config.tracks };
  }

module _ {A H : Type 0} where
  unfoldable pub get_track : List ℕ → Session A H → Option ℕ
  unfolding find_name
  get_track name s = find_name name s.name_map

  unfoldable pub update_jwt : List ℕ → Session A H → Session A H
  update_jwt jwt s = record s { config = record (s.config) { jwt = jwt } }
