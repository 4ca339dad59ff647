-- ===== src/Audio/Jitter/Valid.antt =====
-- The invariant of the inbound ring: the configuration's limits, positions and count in range, and
-- the three in step unless the writer has flagged an overflow.
use libpanaudia_core.Prelude.{
  Bool-cases, IsU32, List, arith, drop, inl, inr, length, length-drop, ltb, ltb→lt, slt, sub32,
  true, u32, ℕ, ◌*◌, ◌+◌, ◌/◌, ◌<◌, ◌==◌, ◌^◌, ◌≡◌, ◌≤◌, ◌⊎◌,
}
use native.Mathlib.Nat.{div-add-mod}
use libpanaudia_core.Audio.Circular.Laws.{wrap, mod-wrap, length-write_ring}
use libpanaudia_core.Audio.Jitter.{
  JitterBuffer, copy_to_ring, count_written, write_samples, write, overflow_snap, fill_samples,
  consume,
}

mul-le_of_le_div : (c b n : ℕ) → c ≤ b / n → c * n ≤ b
mul-le_of_le_div c b n h = grind (arith, div-add-mod b n)

div-le : (b n : ℕ) → b / n ≤ b
div-le b n = grind (arith, div-add-mod b n)

module _ {A : Type 0} where
  -- What new_jitter takes from a sound configuration, and nothing changes.
  pub record IsConfigured (j : JitterBuffer A) : Type 0 where
    pub some_room : 0 < j.capacity
    pub small : j.capacity < 2 ^ 30
    pub some_channels : 0 < j.num_channels
    pub few_channels : j.num_channels < 2 ^ 30
    pub low_fits : j.target_low < 2 ^ 31
    pub max_fits : j.max_samples < 2 ^ 31
    pub min_fits : j.min_samples < 2 ^ 31
    pub centre_fits : j.target_centre * j.num_channels ≤ j.capacity
    pub centre_below : j.target_centre ≤ j.max_samples

  pub record IsValid (j : JitterBuffer A) : Type 0 where
    pub configured : IsConfigured j
    pub storage : length j.store ≡ j.capacity
    pub write_in : j.write_pos < j.capacity
    pub read_in : j.read_pos < j.capacity
    pub count_in : j.buffered ≤ j.capacity
    pub in_step :
        (j.overflow_flag ≡ true) ⊎ (j.write_pos ≡ wrap j.capacity (j.read_pos + j.buffered))

  count_written-IsValid :
      (j : JitterBuffer A) (src : List A) (n : ℕ)
      → IsValid j
      → n ≤ j.capacity
      → n ≤ length src
      → IsValid (write_samples (count_written j n) src n)
  unfolding count_written write_samples copy_to_ring
  count_written-IsValid j src n v h k = record {
    configured = ground arith;
    storage = ground (arith, length-write_ring j.capacity j.store src j.write_pos n);
    write_in = ground (arith, mod-wrap j.capacity (u32 (j.write_pos + n)));
    read_in = ground arith;
    count_in = ground arith;
    in_step = ground (arith, mod-wrap j.capacity (u32 (j.write_pos + n)));
  }

  -- Every write of as many samples as a 32-bit count announces keeps the invariant; one that
  -- overflows raises the flag and leaves the read position, which is the reader's.
  pub jitter_write-IsValid :
      (j : JitterBuffer A) (src : List A) (n : ℕ)
      → IsValid j
      → IsU32 n
      → n ≤ length src
      → IsValid (write j src n)
  unfolding write
  jitter_write-IsValid j src n v hn h = elim (Bool-cases (n == 0)) [
    | inl nothing ↦ rw nothing v
    | inr some_ ↦ rw some_ (elim (Bool-cases (ltb j.capacity n)) [
      | inl big ↦ rw big (
          count_written-IsValid j (drop (sub32 n j.capacity) src) j.capacity v (omega arith) (
            omega (
              arith,
              ltb→lt j.capacity n big,
              length-drop (sub32 n j.capacity) src,
              v.configured.small,
            )))
      | inr fits ↦ rw fits (count_written-IsValid j src n v (ground arith) h)
    ])
  ]

  pub overflow_snap-IsValid : (j : JitterBuffer A) → IsValid j → IsValid (overflow_snap j)
  unfolding overflow_snap
  overflow_snap-IsValid j v = record {
    configured = ground (arith, v.configured);
    storage = ground arith;
    write_in = ground arith;
    read_in = ground (arith, v.configured.centre_fits, v.configured.small);
    count_in = ground (arith, v.configured.centre_fits, v.configured.small);
    in_step = ground (arith, v.configured.centre_fits, v.configured.small, v.in_step);
  }

  pub fill_samples-div :
      (j : JitterBuffer A) → IsValid j → fill_samples j ≡ j.buffered / j.num_channels
  fill_samples-div j v = ground (arith, v.configured.small, v.configured.few_channels)

  -- More than the limit waits, so the excess over the target's centre is there to drop.
  pub excess_there :
      (j : JitterBuffer A)
      → IsValid j
      → slt j.max_samples (fill_samples j) ≡ true
      → j.target_centre * j.num_channels ≤ j.buffered
  excess_there j v h = mul-le_of_le_div j.target_centre j.buffered j.num_channels (
      ground (
        arith,
        fill_samples-div j v,
        div-le j.buffered j.num_channels,
        v.configured.centre_below,
        v.configured.max_fits,
        v.configured.small,
      ))

  -- Taking no more than waits keeps the invariant.
  pub consume-IsValid :
      (j : JitterBuffer A) (n : ℕ) → IsValid j → n ≤ j.buffered → IsValid (consume j n)
  unfolding consume
  consume-IsValid j n v h = record {
    configured = ground (arith, v.configured);
    storage = ground arith;
    write_in = ground arith;
    read_in = ground (arith, v.configured.small, mod-wrap j.capacity (u32 (j.read_pos + n)));
    count_in = ground (arith, v.configured.small);
    in_step =
        ground (arith, v.configured.small, v.in_step, mod-wrap j.capacity (u32 (j.read_pos + n)));
  }
