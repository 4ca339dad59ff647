-- ===== src/Audio/Codec.antt =====
-- The codec wrappers and the PCM framing of src/opus_codec.cpp. The Opus library is an argument:
-- a record of the calls that the wrappers make, with one type of handles for the four kinds. A call
-- that fails gives `none`. Floats in memory are an argument too: the four bytes of a float, and the
-- float of four bytes.
pub mod Pcm
pub mod Moves
mod Tests
use libpanaudia_core.Prelude.{
  Bool, List, Option, [], drop, false, if◌then◌else◌, leb, length, none, not, some, suc, take, true,
  u32, zero, ℕ, ◌%◌, ◌*◌, ◌++◌, ◌/◌, ◌==◌, ◌||◌, ◌∷◌,
}

pub record OpusEncoderConfig : Type 0 where
  pub sample_rate : ℕ
  pub channels : ℕ
  pub bitrate : ℕ
  pub frame_size_ms : ℕ
  pub vbr : Bool
  pub dtx : Bool
  pub complexity : ℕ

pub record OpusDecoderConfig : Type 0 where
  pub sample_rate : ℕ
  pub channels : ℕ

-- `encode` and `encode_multistream` take the samples, their frames and the room for the output,
-- `decode` and `decode_multistream` a packet, or none to conceal a loss, and the room in frames.
pub record Opus (A H : Type 0) : Type 0 where
  pub encoder_create : ℕ → ℕ → Option H
  pub surround_encoder_create : ℕ → ℕ → Option H
  pub encoder_ctl : OpusEncoderConfig → H → H
  pub multistream_encoder_ctl : OpusEncoderConfig → H → H
  pub encode : H → List A → ℕ → ℕ → Option (List ℕ) × H
  pub encode_multistream : H → List A → ℕ → ℕ → Option (List ℕ) × H
  pub decoder_create : ℕ → ℕ → Option H
  pub multistream_decoder_create : ℕ → ℕ → Option H
  pub decode : H → Option (List ℕ) → ℕ → Option (List A) × H
  pub decode_multistream : H → Option (List ℕ) → ℕ → Option (List A) × H

pub record OpusEncoderWrapper (H : Type 0) : Type 0 where
  pub encoder : Option H
  pub ms_encoder : Option H
  pub sample_rate : ℕ
  pub channels : ℕ
  pub frame_size_samples : ℕ

pub record OpusDecoderWrapper (H : Type 0) : Type 0 where
  pub decoder : Option H
  pub ms_decoder : Option H
  pub sample_rate : ℕ
  pub channels : ℕ

pub is_some {ℓ} : {A : Type ℓ} → Option A → Bool
is_some none = false
is_some (some a) = true

pub is_frame_size : ℕ → Bool
is_frame_size ms = ms == 5 || ms == 10 || ms == 20 || ms == 40 || ms == 60

-- The memory of floats.
pub record FloatBytes (A : Type 0) : Type 0 where
  pub bytes : A → List ℕ
  pub float : List ℕ → A

-- frame_count * channels floats, as memcpy of their bytes.
unfoldable pub float_bytes : {A : Type 0} → FloatBytes A → List A → List ℕ
float_bytes mem [] = []
float_bytes mem (a ∷ as_) = mem.bytes a ++ float_bytes mem as_

unfoldable pub floats_of : {A : Type 0} → FloatBytes A → ℕ → List ℕ → List A
floats_of mem zero bytes = []
floats_of mem (suc n) bytes = mem.float (take 4 bytes) ∷ floats_of mem n (drop 4 bytes)

module _ {A : Type 0} (mem : FloatBytes A) where
  -- The bytes written to the output; the count returned is theirs.
  unfoldable pub pcm_frame : List A → ℕ → ℕ → List ℕ
  unfolding float_bytes
  pcm_frame pcm frame_count channels =
      let total_samples = u32 (frame_count * channels) in
      take (u32 (total_samples * 4)) (float_bytes mem pcm)

  -- The frames returned, and the floats written.
  unfoldable pub pcm_unframe : List ℕ → ℕ → ℕ × List A
  unfolding floats_of
  pcm_unframe bytes channels =
      let total_samples = length bytes / 4 in
      if channels == 0
      then (0, [])
      else (if length bytes % u32 (channels * 4) == 0
          then (total_samples / channels, floats_of mem total_samples bytes)
          else (0, []))

abbrev pub new_encoder : {H : Type 0} → OpusEncoderWrapper H
new_encoder = record {
  encoder = none;
  ms_encoder = none;
  sample_rate = 48000;
  channels = 1;
  frame_size_samples = 240;
}

abbrev pub new_decoder : {H : Type 0} → OpusDecoderWrapper H
new_decoder = record { decoder = none; ms_decoder = none; sample_rate = 48000; channels = 1 }

module _ {H : Type 0} where
  pub destroy_encoder : OpusEncoderWrapper H → OpusEncoderWrapper H
  destroy_encoder w = record w { encoder = none; ms_encoder = none }

  unfoldable pub is_encoder_initialized : OpusEncoderWrapper H → Bool
  is_encoder_initialized w = is_some w.encoder || is_some w.ms_encoder

  unfoldable pub create_decoder : OpusDecoderWrapper H → Option H → Bool × OpusDecoderWrapper H
  create_decoder w none = (false, w)
  create_decoder w (some h) = (true, record w { decoder = some h })

  unfoldable pub create_ms_decoder : OpusDecoderWrapper H → Option H → Bool × OpusDecoderWrapper H
  create_ms_decoder w none = (false, w)
  create_ms_decoder w (some h) = (true, record w { ms_decoder = some h })

  pub destroy_decoder : OpusDecoderWrapper H → OpusDecoderWrapper H
  destroy_decoder w = record w { decoder = none; ms_decoder = none }

  pub is_decoder_initialized : OpusDecoderWrapper H → Bool
  is_decoder_initialized w = is_some w.decoder || is_some w.ms_decoder

module _ {A H : Type 0} (opus : Opus A H) where
  unfoldable pub create_encoder :
      OpusEncoderConfig → OpusEncoderWrapper H → Option H → Bool × OpusEncoderWrapper H
  create_encoder config w none = (false, w)
  create_encoder config w (some h) = (true, record w { encoder = some (opus.encoder_ctl config h) })

  unfoldable pub create_ms_encoder :
      OpusEncoderConfig → OpusEncoderWrapper H → Option H → Bool × OpusEncoderWrapper H
  create_ms_encoder config w none = (false, w)
  create_ms_encoder config w (some h) =
      (true, record w { ms_encoder = some (opus.multistream_encoder_ctl config h) })

  -- Whether there is an encoder now, and the wrapper.
  unfoldable pub init_encoder :
      OpusEncoderConfig → OpusEncoderWrapper H → Bool × OpusEncoderWrapper H
  unfolding destroy_encoder create_encoder create_ms_encoder
  init_encoder config w =
      let w1 = destroy_encoder w in
      let w2 = record w1 {
        sample_rate = config.sample_rate;
        channels = config.channels;
        frame_size_samples = u32 (config.sample_rate * config.frame_size_ms) / 1000;
      } in
      if not (is_frame_size config.frame_size_ms)
      then (false, w1)
      else (if config.channels == 0
          then (false, w1)
          else (if leb config.channels 2
              then create_encoder config w2 (opus.encoder_create config.sample_rate config.channels)
              else create_ms_encoder config w2
                  (opus.surround_encoder_create config.sample_rate config.channels)))

  unfoldable pub encode_with :
      OpusEncoderWrapper H
      → List A
      → ℕ
      → ℕ
      → Option H
      → Option H
      → Option (List ℕ) × OpusEncoderWrapper H
  encode_with w pcm frame_count room (some h) ms =
      let r = opus.encode h pcm frame_count room in (r.0, record w { encoder = some r.1 })
  encode_with w pcm frame_count room none (some h) =
      let r = opus.encode_multistream h pcm frame_count room in
      (r.0, record w { ms_encoder = some r.1 })
  encode_with w pcm frame_count room none none = (none, w)

  -- The packet, or none for a negative result.
  unfoldable pub encode_frame :
      OpusEncoderWrapper H → List A → ℕ → ℕ → Option (List ℕ) × OpusEncoderWrapper H
  unfolding is_encoder_initialized encode_with
  encode_frame w pcm frame_count room =
      if not (is_encoder_initialized w)
      then (none, w)
      else (if not (frame_count == w.frame_size_samples)
          then (none, w)
          else encode_with w pcm frame_count room w.encoder w.ms_encoder)

  unfoldable pub init_decoder :
      OpusDecoderConfig → OpusDecoderWrapper H → Bool × OpusDecoderWrapper H
  unfolding destroy_decoder create_decoder create_ms_decoder
  init_decoder config w =
      let w1 = destroy_decoder w in
      let w2 = record w1 { sample_rate = config.sample_rate; channels = config.channels } in
      if config.channels == 0
      then (false, w1)
      else (if leb config.channels 2
          then create_decoder w2 (opus.decoder_create config.sample_rate config.channels)
          else create_ms_decoder w2
              (opus.multistream_decoder_create config.sample_rate config.channels))

  pub decode_with :
      OpusDecoderWrapper H
      → Option (List ℕ)
      → ℕ
      → Option H
      → Option H
      → Option (List A) × OpusDecoderWrapper H
  decode_with w packet room (some h) ms =
      let r = opus.decode h packet room in (r.0, record w { decoder = some r.1 })
  decode_with w packet room none (some h) =
      let r = opus.decode_multistream h packet room in (r.0, record w { ms_decoder = some r.1 })
  decode_with w packet room none none = (none, w)

  -- decode of a packet, and decode_plc without one.
  unfoldable pub decode_frame :
      OpusDecoderWrapper H → Option (List ℕ) → ℕ → Option (List A) × OpusDecoderWrapper H
  unfolding is_decoder_initialized decode_with
  decode_frame w packet room =
      if is_decoder_initialized w
      then decode_with w packet room w.decoder w.ms_decoder
      else (none, w)
