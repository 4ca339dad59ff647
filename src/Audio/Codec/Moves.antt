-- ===== src/Audio/Codec/Moves.antt =====
-- The moves of the Opus wrappers in src/opus_codec.cpp. A move gives the wrapper that is made or
-- assigned to, and the one that was moved from.
use libpanaudia_core.Prelude.{Bool, false, if◌then◌else◌, none, refl, ◌≡◌}
use libpanaudia_core.Audio.Codec.{
  OpusEncoderWrapper, OpusDecoderWrapper, is_some, is_encoder_initialized, is_decoder_initialized,
}

module _ {H : Type 0} where
  unfoldable pub move_encoder : OpusEncoderWrapper H → OpusEncoderWrapper H × OpusEncoderWrapper H
  move_encoder other = (other, record other { encoder = none; ms_encoder = none })

  -- `same` says that the two are one object; what `this` held is destroyed.
  unfoldable pub assign_encoder :
      Bool
      → OpusEncoderWrapper H
      → OpusEncoderWrapper H
      → OpusEncoderWrapper H × OpusEncoderWrapper H
  unfolding move_encoder
  assign_encoder same this other = if same then (this, this) else move_encoder other

  unfoldable pub move_decoder : OpusDecoderWrapper H → OpusDecoderWrapper H × OpusDecoderWrapper H
  move_decoder other = (other, record other { decoder = none; ms_decoder = none })

  unfoldable pub assign_decoder :
      Bool
      → OpusDecoderWrapper H
      → OpusDecoderWrapper H
      → OpusDecoderWrapper H × OpusDecoderWrapper H
  unfolding move_decoder
  assign_decoder same this other = if same then (this, this) else move_decoder other

  -- A wrapper that was moved from holds no codec, so that only the other one destroys it.
  move_encoder-is_encoder_initialized :
      (w : OpusEncoderWrapper H) → is_encoder_initialized (move_encoder w).1 ≡ false
  unfolding move_encoder is_encoder_initialized is_some
  move_encoder-is_encoder_initialized w = refl

  move_decoder-is_decoder_initialized :
      (w : OpusDecoderWrapper H) → is_decoder_initialized (move_decoder w).1 ≡ false
  unfolding move_decoder is_decoder_initialized is_some
  move_decoder-is_decoder_initialized w = refl
