-- ===== src/Audio/Ring/Valid.antt =====
-- The invariant of the outbound ring: positions and count in range, and the three in step.
use libpanaudia_core.Prelude.{
  Bool-cases, IsU32, List, arith, drop, inl, inr, length, length-drop, length-replicate, ltb,
  ltb→lt, min, sub32, u32, ℕ, ◌*◌, ◌+◌, ◌<◌, ◌==◌, ◌^◌, ◌≡◌, ◌≤◌,
}
use libpanaudia_core.Audio.Circular.Laws.{wrap, mod-wrap, length-write_ring}
use libpanaudia_core.Audio.Ring.{
  RingBuffer, new_ring, copy_to_ring, discard_oldest, append_floats, write, read, flush,
  write_floats,
}

module _ {A : Type 0} where
  pub record IsValid (r : RingBuffer A) : Type 0 where
    pub storage : length r.store ≡ r.capacity_floats
    pub some_room : 0 < r.capacity_floats
    pub small : r.capacity_floats < 2 ^ 31
    pub write_in : r.write_pos < r.capacity_floats
    pub read_in : r.read_pos < r.capacity_floats
    pub count_in : r.buffered ≤ r.capacity_floats
    pub in_step : r.write_pos ≡ wrap r.capacity_floats (r.read_pos + r.buffered)

  -- A fresh ring of at least one float and fewer than 2^31 is valid.
  pub new_ring-IsValid :
      (silence : A) (frames channels : ℕ)
      → 0 < frames * channels
      → frames * channels < 2 ^ 31
      → IsValid (new_ring silence frames channels)
  unfolding new_ring
  new_ring-IsValid silence frames channels h k =
      ground (arith, length-replicate (u32 (frames * channels)) silence)

  pub discard_oldest-IsValid :
      (r : RingBuffer A) (floats : ℕ)
      → IsValid r
      → floats ≤ r.capacity_floats
      → IsValid (discard_oldest r floats)
        × ((discard_oldest r floats).buffered + floats ≤ r.capacity_floats)
  unfolding discard_oldest
  discard_oldest-IsValid r floats v h = ground (
    arith,
    mod-wrap r.capacity_floats
        (u32 (r.read_pos + sub32 (u32 (r.buffered + floats)) r.capacity_floats)),
  )

  pub capacity-discard_oldest :
      (r : RingBuffer A) (floats : ℕ)
      → (discard_oldest r floats).capacity_floats ≡ r.capacity_floats
  unfolding discard_oldest
  capacity-discard_oldest r floats = ground arith

  pub append_floats-IsValid :
      (r : RingBuffer A) (samples : List A) (floats : ℕ)
      → IsValid r
      → r.buffered + floats ≤ r.capacity_floats
      → floats ≤ length samples
      → IsValid (append_floats r samples floats)
  unfolding append_floats copy_to_ring
  append_floats-IsValid r samples floats v h k = ground (
    arith,
    mod-wrap r.capacity_floats (u32 (r.write_pos + floats)),
    length-write_ring r.capacity_floats r.store samples r.write_pos floats,
  )

  write_floats-IsValid :
      (r : RingBuffer A) (samples : List A) (floats frame_count : ℕ)
      → IsValid r
      → IsU32 floats
      → floats ≤ length samples
      → IsValid (write_floats r samples floats frame_count).1
  unfolding write_floats
  write_floats-IsValid r samples floats frame_count v hu hf =
      elim (Bool-cases (ltb r.capacity_floats floats)) [
        | inl big ↦
            let (v', room) = discard_oldest-IsValid r r.capacity_floats v (omega arith) in
            rw big (
              append_floats-IsValid (discard_oldest r r.capacity_floats)
                (drop (sub32 floats r.capacity_floats) samples) r.capacity_floats v'
                (omega (arith, capacity-discard_oldest r r.capacity_floats))
                (omega (
                  arith,
                  ltb→lt r.capacity_floats floats big,
                  length-drop (sub32 floats r.capacity_floats) samples,
                )))
        | inr fits ↦
            let (v', room) = discard_oldest-IsValid r floats v (ground arith) in
            rw fits (
              append_floats-IsValid (discard_oldest r floats) samples floats v'
                (omega (arith, capacity-discard_oldest r floats)) hf)
      ]

  -- Every write of as many samples as the caller announces keeps the invariant, on each branch:
  -- no samples, more than the ring holds, or as many as make it discard its oldest.
  pub write-IsValid :
      (r : RingBuffer A) (samples : List A) (frame_count : ℕ)
      → IsValid r
      → u32 (frame_count * r.channels) ≤ length samples
      → IsValid (write r samples frame_count).1
  unfolding write
  write-IsValid r samples frame_count v h = elim (Bool-cases (frame_count == 0)) [
    | inl none_ ↦ rw none_ v
    | inr some_ ↦ rw some_ (
        write_floats-IsValid r samples (u32 (frame_count * r.channels)) frame_count v (omega arith)
          h)
  ]

  -- Every read keeps the invariant.
  pub read-IsValid :
      (r : RingBuffer A) (frame_count : ℕ) → IsValid r → IsValid (read r frame_count).2
  unfolding read
  read-IsValid r frame_count v = ground (
    arith,
    mod-wrap r.capacity_floats (u32 (r.read_pos + min (u32 (frame_count * r.channels)) r.buffered)),
  )

  -- A flush keeps the invariant.
  pub flush-IsValid : (r : RingBuffer A) → IsValid r → IsValid (flush r)
  unfolding flush
  flush-IsValid r v = ground arith
