-- ===== src/Audio/Ring/Frames.antt =====
-- The ring counted in frames, as the session's loops count it.
use native.Mathlib.Nat.{le-div_iff_mul-le, add-mul-div_right, mul-pos}
use libpanaudia_core.Prelude.{
  List, ap, arith, length, length-take, min, sym, u32, ℕ, ◌*◌, ◌+◌, ◌/◌, ◌<◌, ◌∙◌, ◌≡◌, ◌≤◌,
}
use libpanaudia_core.Audio.Ring.{
  RingBuffer, read, read_available, discard_oldest, append_floats, write_floats, write,
}
use libpanaudia_core.Audio.Ring.Valid.{IsValid}
use libpanaudia_core.Audio.Ring.Refine.{read_refines}
use libpanaudia_core.Audio.Ring.Contents.{contents, length-contents}

module _ {A : Type 0} where
  -- The floats of the frames that are there.
  floats_there :
      (r : RingBuffer A) (n : ℕ)
      → 0 < r.channels
      → n ≤ read_available r
      → n * r.channels ≤ r.buffered
  unfolding read_available
  floats_there r n c h = (le-div_iff_mul-le c).0 h

  taken :
      (r : RingBuffer A) (n : ℕ)
      → IsValid r
      → 0 < r.channels
      → n ≤ read_available r
      → min (u32 (n * r.channels)) r.buffered ≡ n * r.channels
  taken r n v c h =
      let there = floats_there r n c h in let cap = v.count_in in let small = v.small in omega arith

  buffered-read :
      (r : RingBuffer A) (n : ℕ)
      → IsValid r
      → 0 < r.channels
      → 0 < n
      → n ≤ read_available r
      → ((read r n).2).buffered + n * r.channels ≡ r.buffered
  unfolding read
  buffered-read r n v c k h =
      let there = floats_there r n c h in
      let some_floats = mul-pos k c in
      let cap = v.count_in in let small = v.small in rw (taken r n v c h) (ground arith)

  pub channels-read : (r : RingBuffer A) (n : ℕ) → ((read r n).2).channels ≡ r.channels
  unfolding read
  channels-read r n = ground arith

  length-read :
      (silence : A) (r : RingBuffer A) (n : ℕ)
      → IsValid r
      → 0 < r.channels
      → n ≤ read_available r
      → length ((read r n).1) ≡ n * r.channels
  length-read silence r n v c h =
      let refines = read_refines silence r n v in
      rw (refines.0, taken r n v c h)
        (omega (
          arith,
          length-take (n * r.channels) (contents silence r),
          floats_there r n c h,
          length-contents silence r,
        ))

  -- Reading as many frames as are there gives their floats, and takes the frames.
  pub read_frames :
      (silence : A) (r : RingBuffer A) (n : ℕ)
      → IsValid r
      → 0 < r.channels
      → 0 < n
      → n ≤ read_available r
      → (length ((read r n).1) ≡ n * r.channels)
        × (read_available ((read r n).2) + n ≡ read_available r)
  unfolding read_available
  read_frames silence r n v c k h = (
    length-read silence r n v c h,
    rw (channels-read r n) (
        sym (add-mul-div_right ((read r n).2).buffered n c)
        ∙ ap (λ b. b / r.channels) (buffered-read r n v c k h)),
  )

  channels-discard_oldest :
      (r : RingBuffer A) (floats : ℕ) → (discard_oldest r floats).channels ≡ r.channels
  unfolding discard_oldest
  channels-discard_oldest r floats = ground arith

  channels-write_floats :
      (r : RingBuffer A) (samples : List A) (floats frame_count : ℕ)
      → ((write_floats r samples floats frame_count).1).channels ≡ r.channels
  unfolding write_floats append_floats
  channels-write_floats r samples floats frame_count =
      let large = channels-discard_oldest r r.capacity_floats in
      let small = channels-discard_oldest r floats in ground arith

  pub channels-write :
      (r : RingBuffer A) (samples : List A) (frame_count : ℕ)
      → ((write r samples frame_count).1).channels ≡ r.channels
  unfolding write
  channels-write r samples frame_count =
      let some_floats =
        channels-write_floats r samples (u32 (frame_count * r.channels)) frame_count in
      ground arith

  capacity_frames-discard_oldest :
      (r : RingBuffer A) (floats : ℕ)
      → (discard_oldest r floats).capacity_frames ≡ r.capacity_frames
  unfolding discard_oldest
  capacity_frames-discard_oldest r floats = ground arith

  capacity_frames-write_floats :
      (r : RingBuffer A) (samples : List A) (floats frame_count : ℕ)
      → ((write_floats r samples floats frame_count).1).capacity_frames ≡ r.capacity_frames
  unfolding write_floats append_floats
  capacity_frames-write_floats r samples floats frame_count =
      let large = capacity_frames-discard_oldest r r.capacity_floats in
      let small = capacity_frames-discard_oldest r floats in ground arith

  pub capacity_frames-write :
      (r : RingBuffer A) (samples : List A) (frame_count : ℕ)
      → ((write r samples frame_count).1).capacity_frames ≡ r.capacity_frames
  unfolding write
  capacity_frames-write r samples frame_count =
      let some_floats =
        capacity_frames-write_floats r samples (u32 (frame_count * r.channels)) frame_count in
      ground arith
