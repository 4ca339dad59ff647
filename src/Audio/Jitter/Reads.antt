-- ===== src/Audio/Jitter/Reads.antt =====
-- What a read takes out of the inbound ring and hands to the caller.
use libpanaudia_core.Prelude.{
  ==_ne, Bool, Bool-cases, List, ap, arith, false, if◌then◌else◌, inl, inr, length,
  length-replicate, min, refl, slt, smin, sub32, take_all, true, u32, ℕ, ◌+◌, ◌-◌, ◌/◌, ◌<◌, ◌^◌,
  ◌∙◌, ◌≡◌, ◌≢◌, ◌≤◌,
}
use native.Mathlib.Nat.{div-add-mod}
use libpanaudia_core.Audio.Jitter.{
  JitterBuffer, Correction, insert, keep, drop_one, fill_samples, overrun_snap, consume,
  copy_from_ring, duplicate, produce, JitterBufferState, filling, playing, overflow_snap,
  start_from, start_playing, count_read, correction, play, read_started, read, real_floats,
}
use libpanaudia_core.Audio.Jitter.Valid.{IsValid, consume-IsValid, overflow_snap-IsValid}
use libpanaudia_core.Audio.Jitter.Copies.{
  taken, overrun_snap-IsValid, smin-min, real_floats-taken, length-duplicate, take-duplicate,
  copied, contents-consume, Served, padded, duplicate_unread,
}

-- With less than a frame in the ring there is no sample.
div_small : (b n : ℕ) → b < n → b / n ≡ 0
div_small b n h = grind (arith, div-add-mod b n)

fill-div :
    {A : Type 0} → (j : JitterBuffer A) → IsValid j → fill_samples j ≡ j.buffered / j.num_channels
fill-div j v = ground (arith, v.configured.small, v.configured.few_channels, v.count_in)

module _ {A : Type 0} (silence : A) (dst : ℕ → A) where
  consume-Valid_drop :
      (j : JitterBuffer A) (t : ℕ)
      → IsValid j
      → t ≤ j.buffered
      → IsValid (record (consume j t) { samples_dropped = u32 (j.samples_dropped + 1) })
  unfolding consume
  consume-Valid_drop j t v h =
      let w = consume-IsValid j t v h in
      record {
        configured = ground (arith, v.configured);
        storage = w.storage;
        write_in = w.write_in;
        read_in = w.read_in;
        count_in = w.count_in;
        in_step = w.in_step;
      }

  consume-Valid_insert :
      (j : JitterBuffer A) (t : ℕ)
      → IsValid j
      → t ≤ j.buffered
      → IsValid (record (consume j t) { samples_inserted = u32 (j.samples_inserted + 1) })
  unfolding consume
  consume-Valid_insert j t v h =
      let w = consume-IsValid j t v h in
      record {
        configured = ground (arith, v.configured);
        storage = w.storage;
        write_in = w.write_in;
        read_in = w.read_in;
        count_in = w.count_in;
        in_step = w.in_step;
      }

  duplicated :
      (j : JitterBuffer A) (n t last_start : ℕ)
      → IsValid j
      → t ≤ j.buffered
      → t ≤ n
      → Served silence j n t
          (duplicate dst last_start j.num_channels 0 (n - t) (copy_from_ring j j.read_pos t))
          (record (consume j t) { samples_inserted = u32 (j.samples_inserted + 1) })
  duplicated j n t last_start v h k =
      let (same, len) = copied silence j t v h in
      let block = copy_from_ring j j.read_pos t in
      record {
        full =
            omega
              (arith, len, length-duplicate silence dst last_start j.num_channels 0 (n - t) block);
        oldest_first = rw (at_most) (
            take-duplicate silence dst last_start j.num_channels 0 (n - t) t block
              (omega (arith, len))
            ∙ take_all t block (omega (arith, len))
            ∙ same);
        removed = contents-consume silence j t v h ∙ refl;
        valid = consume-Valid_insert j t v h;
      }
    where
      at_most : min n t ≡ t
      at_most = omega arith

  produce-Served :
      (j : JitterBuffer A) (c : Correction) (n : ℕ)
      → IsValid j
      → n < 2 ^ 30
      → j.num_channels ≤ n
      → let r = produce silence dst j c n in Served silence j n (taken silence j c n) r.0 r.1
  unfolding produce
  produce-Served j keep n v hn hc =
      padded silence j n (min n j.buffered) (consume j (smin n j.buffered)) v hn (omega arith)
        (rw (smin-min silence n j.buffered (omega arith) (omega (arith, v.configured.small)))
          (contents-consume silence j (min n j.buffered) v (omega arith)))
        (rw (smin-min silence n j.buffered (omega arith) (omega (arith, v.configured.small)))
          (consume-IsValid j (min n j.buffered) v (omega arith)))
  produce-Served j drop_one n v hn hc =
      padded silence j n t
        (record (consume j (smin (u32 (n + j.num_channels)) j.buffered)) {
          samples_dropped = u32 (j.samples_dropped + 1);
        })
        v hn (omega arith) (rw (leaving) (contents-consume silence j t v (omega arith)))
        (rw (leaving) (consume-Valid_drop j t v (omega arith)))
    where
      t : ℕ
      t = min (n + j.num_channels) j.buffered

      leaving : smin (u32 (n + j.num_channels)) j.buffered ≡ t
      leaving = ground (arith, v.configured.small, v.configured.few_channels)
  produce-Served j insert n v hn hc =
      rw (real_floats-taken silence j n v hn hc)
        (duplicated j n (taken silence j insert n) _ v (omega arith) (omega arith))

  -- With a frame in the ring, what the caller's buffer held does not matter.
  produce_unread :
      (old : ℕ → A) (j : JitterBuffer A) (c : Correction) (n : ℕ)
      → IsValid j
      → n < 2 ^ 30
      → j.num_channels ≤ n
      → j.num_channels ≤ j.buffered
      → produce silence dst j c n ≡ produce silence old j c n
  unfolding produce
  produce_unread old j keep n v hn hc b = refl
  produce_unread old j drop_one n v hn hc b = refl
  produce_unread old j insert n v hn hc b =
      let real = real_floats j n in
      let last_start = if slt (sub32 real j.num_channels) 0 then 0 else sub32 real j.num_channels in
      let (same, len) =
        copied silence j real v (omega (arith, real_floats-taken silence j n v hn hc)) in
      ap (λ out. (out, record (consume j real) { samples_inserted = u32 (j.samples_inserted + 1) }))
        (duplicate_unread silence dst old last_start j.num_channels 0 (n - real)
          (copy_from_ring j j.read_pos real) v.configured.some_channels
          (ground (arith, len, real_floats-taken silence j n v hn hc, v.configured.small)))

  -- In a valid buffer with a frame in it, for at least one frame and fewer than 2^30 floats:
  -- whatever the correction, the caller is given the oldest samples first and as many floats as it
  -- asked for, all of them written by the call, since they do not depend on what the caller's
  -- buffer held (`dst` or `old`), and the ring loses the samples that the correction takes.
  pub produce_refines :
      (old : ℕ → A) (j : JitterBuffer A) (c : Correction) (n : ℕ)
      → IsValid j
      → n < 2 ^ 30
      → j.num_channels ≤ n
      → j.num_channels ≤ j.buffered
      → let r = produce silence dst j c n in
        Served silence j n (taken silence j c n) r.0 r.1 × (r ≡ produce silence old j c n)
  produce_refines old j c n v hn hc b =
      (produce-Served j c n v hn hc, produce_unread old j c n v hn hc b)

  IsValid-count_read : (j : JitterBuffer A) → IsValid j → IsValid (count_read j)
  IsValid-count_read j v = record {
    configured = ground (arith, v.configured);
    storage = v.storage;
    write_in = v.write_in;
    read_in = v.read_in;
    count_in = v.count_in;
    in_step = v.in_step;
  }

  IsValid-filling :
      (j : JitterBuffer A)
      → IsValid j
      → IsValid (record j { state = filling; underrun_count = u32 (j.underrun_count + 1) })
  IsValid-filling j v = record {
    configured = ground (arith, v.configured);
    storage = v.storage;
    write_in = v.write_in;
    read_in = v.read_in;
    count_in = v.count_in;
    in_step = v.in_step;
  }

  IsValid-playing :
      (j : JitterBuffer A)
      → IsValid j
      → IsValid (record j { state = playing; correction_counter = 0 })
  IsValid-playing j v = record {
    configured = ground (arith, v.configured);
    storage = v.storage;
    write_in = v.write_in;
    read_in = v.read_in;
    count_in = v.count_in;
    in_step = v.in_step;
  }

  -- The caller's buffer is full and the ring is valid.
  abbrev pub Sound : ℕ → Bool × List A × JitterBuffer A → Type 0
  Sound n r = (length r.1 ≡ n) × IsValid r.2

  play-Sound :
      (j : JitterBuffer A) (n : ℕ)
      → IsValid j
      → n < 2 ^ 30
      → j.num_channels ≤ n
      → Sound n (play silence dst j n)
  unfolding play
  play-Sound j n v hn hc = elim (Bool-cases (slt (fill_samples j) j.min_samples)) [
    | inl low ↦ rw low (length-replicate n silence, IsValid-filling j v)
    | inr fine ↦
        let s = produce-Served (count_read j) (correction j) n (IsValid-count_read j v) hn hc in
        rw fine (s.full, s.valid)
  ]

  num_channels-overrun_snap : (j : JitterBuffer A) → (overrun_snap j).num_channels ≡ j.num_channels
  unfolding overrun_snap
  num_channels-overrun_snap j = ground arith

  start-Sound :
      (j : JitterBuffer A) (s : JitterBufferState) (n : ℕ)
      → IsValid j
      → n < 2 ^ 30
      → j.num_channels ≤ n
      → Sound n (read_started silence dst j (start_from s j) n)
  unfolding read_started start_from
  start-Sound j playing n v hn hc =
      play-Sound (overrun_snap j) n (overrun_snap-IsValid silence j v) hn
        (omega (arith, num_channels-overrun_snap j))
  start-Sound j filling n v hn hc = elim (Bool-cases (slt (fill_samples j) j.target_low)) [
    | inl low ↦ rw low (length-replicate n silence, v)
    | inr high ↦
        let k = record j { state = playing; correction_counter = 0 } in
        rw high (
          play-Sound (overrun_snap k) n (overrun_snap-IsValid silence k (IsValid-playing j v)) hn
            (omega (arith, num_channels-overrun_snap k)))
  ]

  min_samples-overflow_snap : (j : JitterBuffer A) → (overflow_snap j).min_samples ≡ j.min_samples
  unfolding overflow_snap
  min_samples-overflow_snap j = ground arith

  min_samples-overrun_snap : (j : JitterBuffer A) → (overrun_snap j).min_samples ≡ j.min_samples
  unfolding overrun_snap
  min_samples-overrun_snap j = ground arith

  num_channels-overflow_snap :
      (j : JitterBuffer A) → (overflow_snap j).num_channels ≡ j.num_channels
  unfolding overflow_snap
  num_channels-overflow_snap j = ground arith

  read-full :
      (j : JitterBuffer A) (n : ℕ)
      → IsValid j
      → n < 2 ^ 30
      → j.num_channels ≤ n
      → Sound n (read silence dst j n)
  unfolding read start_playing
  read-full j n v hn hc = rw (==_ne n 0 some_samples) (
      start-Sound (overflow_snap j) (overflow_snap j).state n (overflow_snap-IsValid j v) hn
        (omega (arith, num_channels-overflow_snap j)))
    where
      some_samples : n ≢ 0
      some_samples = omega (arith, v.configured.some_channels)

  play_unread :
      (old : ℕ → A) (j : JitterBuffer A) (n : ℕ)
      → IsValid j
      → n < 2 ^ 30
      → j.num_channels ≤ n
      → 0 < j.min_samples
      → play silence dst j n ≡ play silence old j n
  unfolding play
  play_unread old j n v hn hc m = elim (Bool-cases (slt (fill_samples j) j.min_samples)) [
    | inl low ↦ rw low refl
    | inr fine ↦ rw fine (
        ap (λ (r : List A × JitterBuffer A). (true, r.0, r.1))
          (produce_unread old (count_read j) (correction j) n (IsValid-count_read j v) hn hc
            (frame_there fine)))
  ]
    where
      frame_there : slt (fill_samples j) j.min_samples ≡ false → j.num_channels ≤ j.buffered
      frame_there h = grind (
        arith,
        div_small j.buffered j.num_channels,
        fill-div j v,
        v.configured.small,
        v.configured.min_fits,
        v.configured.some_channels,
      )

  started_unread :
      (old : ℕ → A) (j : JitterBuffer A) (s : JitterBufferState) (n : ℕ)
      → IsValid j
      → n < 2 ^ 30
      → j.num_channels ≤ n
      → 0 < j.min_samples
      → read_started silence dst j (start_from s j) n
        ≡ read_started silence old j (start_from s j) n
  unfolding read_started start_from
  started_unread old j playing n v hn hc m =
      play_unread old (overrun_snap j) n (overrun_snap-IsValid silence j v) hn
        (omega (arith, num_channels-overrun_snap j)) (omega (arith, min_samples-overrun_snap j))
  started_unread old j filling n v hn hc m = elim (Bool-cases (slt (fill_samples j) j.target_low)) [
    | inl low ↦ rw low refl
    | inr high ↦
        let k = record j { state = playing; correction_counter = 0 } in
        rw high (
          play_unread old (overrun_snap k) n (overrun_snap-IsValid silence k (IsValid-playing j v))
            hn (omega (arith, num_channels-overrun_snap k))
            (omega (arith, min_samples-overrun_snap k)))
  ]

  -- From a valid buffer that plays with at least one sample in it, every read of at least one frame
  -- and fewer than 2^30 floats gives the caller as many floats as it asked for and keeps the
  -- invariant, on each of its branches: after an overflow, while filling, on an overrun, on an
  -- underrun, and with each drift correction. Every one of those floats is written by the call:
  -- the result is the same whatever the caller's buffer held (`dst` or `old`).
  pub read-Sound :
      (old : ℕ → A) (j : JitterBuffer A) (n : ℕ)
      → IsValid j
      → n < 2 ^ 30
      → j.num_channels ≤ n
      → 0 < j.min_samples
      → Sound n (read silence dst j n) × (read silence dst j n ≡ read silence old j n)
  unfolding read start_playing
  read-Sound old j n v hn hc m = (
    read-full j n v hn hc,
    rw (==_ne n 0 (omega (arith, v.configured.some_channels))) (
        started_unread old (overflow_snap j) (overflow_snap j).state n (overflow_snap-IsValid j v)
          hn (omega (arith, num_channels-overflow_snap j))
          (omega (arith, min_samples-overflow_snap j))),
  )
