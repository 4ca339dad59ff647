-- ===== src/Session/Track.antt =====
-- A track: its configuration (include/panaudia/core.h) and the handle that the session keeps for it
-- (include/panaudia/session_manager.h). Of the scratch buffers only their sizes count.
use libpanaudia_core.Prelude.{Bool, List, Option, false, true, ℕ}
use libpanaudia_core.Audio.Ring.{RingBuffer}
use libpanaudia_core.Audio.Jitter.{JitterBuffer}
use libpanaudia_core.Audio.Codec.{Opus, FloatBytes, OpusEncoderWrapper, OpusDecoderWrapper}

pub data TrackType : Type 0 where
  audio_track data_track : TrackType

pub data TrackDirection : Type 0 where
  outbound inbound : TrackDirection

pub data AudioCodec : Type 0 where
  opus_codec pcm_codec : AudioCodec

pub record TrackConfig : Type 0 where
  pub name : List ℕ
  pub moq_namespace : List (List ℕ)
  pub moq_track_name : List ℕ
  pub direction : TrackDirection
  pub type : TrackType
  pub channels : ℕ
  pub sample_rate : ℕ
  pub codec : AudioCodec
  pub opus_bitrate : ℕ
  pub opus_frame_size_ms : ℕ
  pub pcm_frame_size_ms : ℕ

-- What the session takes from outside: the Opus library, the memory of floats, and 0.0f.
pub record Platform (A H : Type 0) : Type 0 where
  pub opus : Opus A H
  pub mem : FloatBytes A
  pub silence : A

-- `pcm_read_buffer` and `decode_buffer` are counted in floats, the other two in bytes.
pub record TrackHandle (A H : Type 0) : Type 0 where
  pub config : TrackConfig
  pub moq_track_alias : ℕ
  pub moq_request_id : ℕ
  pub next_object_id : ℕ
  pub next_group_id : ℕ
  pub ring_buffer : Option (RingBuffer A)
  pub jitter_buffer : Option (JitterBuffer A)
  pub encoder : Option (OpusEncoderWrapper H)
  pub decoder : Option (OpusDecoderWrapper H)
  pub pcm_read_buffer : ℕ
  pub encode_output_buffer : ℕ
  pub datagram_buffer : ℕ
  pub decode_buffer : ℕ

unfoldable pub is_outbound : TrackDirection → Bool
is_outbound outbound = true
is_outbound inbound = false

unfoldable pub is_audio : TrackType → Bool
is_audio audio_track = true
is_audio data_track = false

unfoldable pub is_opus : AudioCodec → Bool
is_opus opus_codec = true
is_opus pcm_codec = false
