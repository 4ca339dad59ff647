-- ===== src/Audio/Codec/Pcm.antt =====
-- The framing of PCM: pcm_frame and pcm_unframe undo one another.
use native.Mathlib.Nat.{mul-div_cancel, mul-mod_left}
use libpanaudia_core.Prelude.{
  List, [], arith, drop, drop-append_length, false, length, length-append, refl, subst, take,
  take-append_length, take_all, true, u32, ℕ, ◌%◌, ◌*◌, ◌++◌, ◌/◌, ◌<◌, ◌==◌, ◌^◌, ◌∷◌, ◌≡◌,
}
use libpanaudia_core.Audio.Codec.{FloatBytes, float_bytes, floats_of, pcm_frame, pcm_unframe}

-- A float has four bytes, and is read back from them.
pub record IsMemory {A : Type 0} (mem : FloatBytes A) : Type 0 where
  pub float_size : (a : A) → length (mem.bytes a) ≡ 4
  pub float_back : (a : A) → mem.float (mem.bytes a) ≡ a

module _ {A : Type 0} (mem : FloatBytes A) (is_memory : IsMemory mem) where
  length-bytes : (pcm : List A) → length (float_bytes mem pcm) ≡ length pcm * 4
  unfolding float_bytes
  length-bytes [] = omega arith
  length-bytes (a ∷ as_) = omega (
    arith,
    length-append (mem.bytes a) (float_bytes mem as_),
    is_memory.float_size a,
    length-bytes as_,
  )

  floats_of-bytes : (pcm : List A) → floats_of mem (length pcm) (float_bytes mem pcm) ≡ pcm
  unfolding float_bytes floats_of
  floats_of-bytes [] = refl
  floats_of-bytes (a ∷ as_) =
      let front : take 4 (mem.bytes a ++ float_bytes mem as_) ≡ mem.bytes a =
        subst (λ n. take n (mem.bytes a ++ float_bytes mem as_) ≡ mem.bytes a)
          (is_memory.float_size a) (take-append_length (mem.bytes a) (float_bytes mem as_)) in
      let back : drop 4 (mem.bytes a ++ float_bytes mem as_) ≡ float_bytes mem as_ =
        subst (λ n. drop n (mem.bytes a ++ float_bytes mem as_) ≡ float_bytes mem as_)
          (is_memory.float_size a) (drop-append_length (mem.bytes a) (float_bytes mem as_)) in
      rw (front, back, is_memory.float_back a, floats_of-bytes as_) refl

  -- All the bytes of the floats are copied.
  pcm_frame-bytes :
      (pcm : List A) (frames channels : ℕ)
      → length pcm ≡ frames * channels
      → frames * channels * 4 < 2 ^ 32
      → pcm_frame mem pcm frames channels ≡ float_bytes mem pcm
  unfolding pcm_frame
  pcm_frame-bytes pcm frames channels len h =
      take_all (u32 (u32 (frames * channels) * 4)) (float_bytes mem pcm)
        (omega (arith, length-bytes pcm))

  -- If a float has four bytes and is read back from them, then floats that are framed and unframed
  -- come back, with their number of frames, if there are as many as the frames and channels make, at
  -- least one channel, and the bytes of a frame and of all frames fit in 32 bits.
  pub pcm_unframe-pcm_frame :
      (pcm : List A) (frames channels : ℕ)
      → length pcm ≡ frames * channels
      → 0 < channels
      → channels * 4 < 2 ^ 32
      → frames * channels * 4 < 2 ^ 32
      → pcm_unframe mem (pcm_frame mem pcm frames channels) channels ≡ (frames, pcm)
  unfolding pcm_unframe
  pcm_unframe-pcm_frame pcm frames channels len c k h =
      let bytes = float_bytes mem pcm in
      let size : length bytes ≡ frames * (channels * 4) = omega (arith, length-bytes pcm) in
      let aligned : (length bytes % u32 (channels * 4) == 0) ≡ true =
        rw (size) (ground (arith, mul-mod_left frames (channels * 4))) in
      let count : length bytes / 4 ≡ length pcm = omega (arith, length-bytes pcm) in
      let some_channels : (channels == 0) ≡ false = ground arith in
      rw
        (
          pcm_frame-bytes pcm frames channels len h,
          some_channels,
          aligned,
          count,
          floats_of-bytes pcm,
        )
        (rw (len, mul-div_cancel frames c) refl)
