-- ===== src/Audio/Ring/Refine.antt =====
-- The outbound ring as a queue of samples that keeps the newest that fit.
use libpanaudia_core.Prelude.{
  ==_iff, Bool-cases, IsU32, List, [], ap, append-nil, ap₂, arith, drop, drop-append_left,
  drop-append_right, drop-take, get_or, inl, inr, length, length-append, length-drop, length-take,
  ltb, ltb→lt, min, refl, sub32, sym, take, true, u32, ℕ, ◌%◌, ◌*◌, ◌++◌, ◌+◌, ◌-◌, ◌/◌, ◌<◌, ◌==◌,
  ◌^◌, ◌∙◌, ◌≡◌, ◌≤◌,
}
use libpanaudia_core.Audio.Circular.Laws.{wrap, mod-wrap, take-tabulate, read_ring-window}
use libpanaudia_core.Audio.Ring.{
  RingBuffer, discard_oldest, append_floats, write, read, write_floats, copy_from_ring,
}
use libpanaudia_core.Audio.Ring.Valid.{IsValid, discard_oldest-IsValid, capacity-discard_oldest}
use libpanaudia_core.Audio.Ring.Contents.{
  contents, length-contents, contents-skip, contents-discard_oldest, contents-append_floats,
}

module _ {A : Type 0} (silence : A) where
  write_floats_fits :
      (r : RingBuffer A) (samples : List A) (floats : ℕ)
      → IsValid r
      → floats ≤ r.capacity_floats
      → floats ≤ length samples
      → contents silence (append_floats (discard_oldest r floats) samples floats)
        ≡ drop (r.buffered + floats - r.capacity_floats) (contents silence r ++ take floats samples)
  write_floats_fits r samples floats v hf hs =
      let (w, room) = discard_oldest-IsValid r floats v hf in
      contents-append_floats silence (discard_oldest r floats) samples floats w
        (omega (arith, capacity-discard_oldest r floats)) hs
      ∙ ap (λ t. t ++ take floats samples) (contents-discard_oldest silence r floats v hf)
      ∙ sym (
          drop-append_left (r.buffered + floats - r.capacity_floats) (contents silence r)
            (take floats samples) (omega (arith, length-contents silence r)))

  write_floats_large :
      (r : RingBuffer A) (samples : List A) (floats : ℕ)
      → IsValid r
      → IsU32 floats
      → r.capacity_floats < floats
      → floats ≤ length samples
      → contents silence (
          append_floats
            (discard_oldest r r.capacity_floats)
            (drop (sub32 floats r.capacity_floats) samples)
            r.capacity_floats)
        ≡ drop (r.buffered + floats - r.capacity_floats) (contents silence r ++ take floats samples)
  write_floats_large r samples floats v hu hf hs =
      write_floats_fits r tail capacity v (omega arith)
        (omega (arith, length-drop (sub32 floats capacity) samples))
      ∙ drop-append_right (r.buffered + capacity - capacity) (contents silence r)
          (take capacity tail) (omega (arith, length-contents silence r))
      ∙ ap (λ k. drop k (take capacity tail)) kept
      ∙ sym newest
    where
      capacity : ℕ
      capacity = r.capacity_floats

      tail : List A
      tail = drop (sub32 floats capacity) samples

      kept : r.buffered + capacity - capacity - length (contents silence r) ≡ 0
      kept = omega (arith, length-contents silence r)

      skipped : ℕ
      skipped = r.buffered + floats - capacity - length (contents silence r)

      whole : floats - skipped ≡ capacity
      whole = omega (arith, length-contents silence r)

      from_tail : skipped ≡ sub32 floats capacity
      from_tail = omega (arith, length-contents silence r)

      newest :
          drop (r.buffered + floats - capacity) (contents silence r ++ take floats samples)
          ≡ take capacity tail
      newest =
          drop-append_right (r.buffered + floats - capacity) (contents silence r)
            (take floats samples) (omega (arith, length-contents silence r))
          ∙ drop-take skipped floats samples
          ∙ ap₂ (λ n m. take n (drop m samples)) whole from_tail

  write_floats_refines :
      (r : RingBuffer A) (samples : List A) (floats frame_count : ℕ)
      → IsValid r
      → IsU32 floats
      → floats ≤ length samples
      → contents silence (write_floats r samples floats frame_count).1
        ≡ drop (r.buffered + floats - r.capacity_floats) (contents silence r ++ take floats samples)
  unfolding write_floats
  write_floats_refines r samples floats frame_count v hu hs =
      elim (Bool-cases (ltb r.capacity_floats floats)) [
        | inl big ↦
            rw big
              (write_floats_large r samples floats v hu (ltb→lt r.capacity_floats floats big) hs)
        | inr fits ↦ rw fits (write_floats_fits r samples floats v (ground arith) hs)
      ]

  -- A write to a valid ring, of as many samples as the caller announces, leaves the newest samples
  -- that fit: those that waited and then those written, in
  -- order, less as many of the oldest as are too many. So it is on every branch.
  pub write_refines :
      (r : RingBuffer A) (samples : List A) (frame_count : ℕ)
      → IsValid r
      → u32 (frame_count * r.channels) ≤ length samples
      → let all = contents silence r ++ take (u32 (frame_count * r.channels)) samples in
        contents silence (write r samples frame_count).1 ≡ drop (length all - r.capacity_floats) all
  unfolding write
  write_refines r samples frame_count v h = elim (Bool-cases (frame_count == 0)) [
    | inl nothing ↦ rw nothing (sym (ap₂ drop (excess nothing) (none_taken nothing)))
    | inr some_ ↦ rw some_ (
        write_floats_refines r samples floats frame_count v (omega arith) h
        ∙ ap (λ k. drop k (contents silence r ++ take floats samples)) total)
  ]
    where
      floats : ℕ
      floats = u32 (frame_count * r.channels)

      total :
          r.buffered + floats - r.capacity_floats
          ≡ length (contents silence r ++ take floats samples) - r.capacity_floats
      total = omega (
        arith,
        length-append (contents silence r) (take floats samples),
        length-contents silence r,
        length-take floats samples,
      )

      no_floats : (frame_count == 0) ≡ true → floats ≡ 0
      no_floats e = let z : frame_count ≡ 0 = (==_iff frame_count 0).0 e in rw z (omega arith)

      excess :
          (frame_count == 0) ≡ true
          → length (contents silence r ++ take floats samples) - r.capacity_floats ≡ 0
      excess e = omega (arith, total, no_floats e)

      none_taken :
          (frame_count == 0) ≡ true → contents silence r ++ take floats samples ≡ contents silence r
      none_taken e =
          ap (λ k. contents silence r ++ take k samples) (no_floats e)
          ∙ append-nil (contents silence r)

  -- The read position moves past what was read.
  after_read :
      (r : RingBuffer A) (n : ℕ)
      → IsValid r
      → n ≤ r.buffered
      → let s = record r {
        read_pos = u32 (r.read_pos + n) % r.capacity_floats;
        buffered = sub32 r.buffered n;
      } in
        (copy_from_ring r r.read_pos n ≡ take n (contents silence r))
        × (contents silence s ≡ drop n (contents silence r))
  unfolding copy_from_ring
  after_read r n v h = (
    read_ring-window silence r.capacity_floats r.store r.read_pos n v.storage (omega arith)
          v.read_in (omega arith)
        ∙ sym (
            take-tabulate n r.buffered
              (λ i. get_or r.store ((r.read_pos + i) % r.capacity_floats) silence) h),
    contents-skip silence r s n v valid h refl refl moved (omega arith),
  )
    where
      s : RingBuffer A
      s = record r {
        read_pos = u32 (r.read_pos + n) % r.capacity_floats;
        buffered = sub32 r.buffered n;
      }

      moved : s.read_pos ≡ wrap r.capacity_floats (r.read_pos + n)
      moved =
          ap (λ k. k % r.capacity_floats) (small (r.read_pos + n) (omega arith))
          ∙ mod-wrap r.capacity_floats (r.read_pos + n) (omega arith)
        where
          small : (k : ℕ) → k < 2 ^ 32 → u32 k ≡ k
          small k hk = omega arith

      valid : IsValid s
      valid = ground (arith, moved)

  -- A read of a valid ring hands over the oldest samples, as many as were asked for and are
  -- there, and leaves the others; what it returns is their number in frames.
  pub read_refines :
      (r : RingBuffer A) (frame_count : ℕ)
      → IsValid r
      → let n = min (u32 (frame_count * r.channels)) r.buffered in
        ((read r frame_count).1 ≡ take n (contents silence r))
        × (contents silence (read r frame_count).2 ≡ drop n (contents silence r))
        × ((read r frame_count).0 ≡ n / r.channels)
  unfolding read
  read_refines r frame_count v = elim (Bool-cases (frame_count == 0)) [
    | inl nothing ↦ rw nothing (idle (no_floats ((==_iff frame_count 0).0 nothing)))
    | inr some_ ↦ rw some_ (elim (Bool-cases (n == 0)) [
      | inl empty ↦ rw empty (idle ((==_iff n 0).0 empty))
      | inr full ↦ rw full (let (a, b) = after_read r n v (omega arith) in (a, b, refl))
    ])
  ]
    where
      n : ℕ
      n = min (u32 (frame_count * r.channels)) r.buffered

      no_floats : frame_count ≡ 0 → n ≡ 0
      no_floats e = rw e (omega arith)

      idle :
          n ≡ 0
          → ([] ≡ take n (contents silence r))
            × (contents silence r ≡ drop n (contents silence r))
            × (0 ≡ n / r.channels)
      idle e = rw e (refl, refl, omega arith)
