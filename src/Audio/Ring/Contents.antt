-- ===== src/Audio/Ring/Contents.antt =====
-- The samples that wait in the outbound ring, and what discarding and appending does to them.
use libpanaudia_core.Prelude.{
  List, ap, ap₂, arith, drop, ext, get_or, get_or-append, get_or-drop, get_or-take, length,
  length-append, length-drop, length-take, sub32, sym, take, u32, ℕ, ◌%◌, ◌++◌, ◌+◌, ◌-◌, ◌<◌, ◌∙◌,
  ◌≡◌, ◌≤◌,
}
use libpanaudia_core.Audio.Circular.{window}
use libpanaudia_core.Audio.Circular.Laws.{
  wrap, mod-wrap, past, length-tabulate, get_or-write_ring, get_or-window,
}
use libpanaudia_core.Audio.Ring.{RingBuffer, copy_to_ring, discard_oldest, append_floats}
use libpanaudia_core.Audio.Ring.Valid.{
  IsValid, discard_oldest-IsValid, capacity-discard_oldest, append_floats-IsValid,
}

module _ {A : Type 0} (silence : A) where
  -- The samples that wait in the ring, oldest first.
  abbrev pub contents : RingBuffer A → List A
  contents r = window silence r.capacity_floats r.store r.read_pos r.buffered

  pub length-contents : (r : RingBuffer A) → length (contents r) ≡ r.buffered
  length-contents r =
      length-tabulate r.buffered
        (λ i. get_or r.store ((r.read_pos + i) % r.capacity_floats) silence)

  pub get_or-contents :
      (r : RingBuffer A) (i : ℕ)
      → IsValid r
      → i < r.buffered
      → get_or (contents r) i silence
        ≡ get_or r.store (wrap r.capacity_floats (r.read_pos + i)) silence
  get_or-contents r i v h =
      get_or-window silence r.capacity_floats r.store r.read_pos r.buffered i (omega arith)
        (omega arith) h

  -- Dropping from the front is moving the read position.
  pub contents-skip :
      (r s : RingBuffer A) (n : ℕ)
      → IsValid r
      → IsValid s
      → n ≤ r.buffered
      → s.store ≡ r.store
      → s.capacity_floats ≡ r.capacity_floats
      → s.read_pos ≡ wrap r.capacity_floats (r.read_pos + n)
      → s.buffered + n ≡ r.buffered
      → contents s ≡ drop n (contents r)
  contents-skip r s n v w hn store capacity read_pos count = ext _ _ silence len each
    where
      len : length (contents s) ≡ length (drop n (contents r))
      len = omega (arith, length-contents s, length-drop n (contents r), length-contents r)

      each :
          (i : ℕ)
          → i < length (contents s)
          → get_or (contents s) i silence ≡ get_or (drop n (contents r)) i silence
      each i h =
          let hi : i < s.buffered = omega (arith, length-contents s) in
          get_or-contents s i w hi
          ∙ ap₂ (λ xs k. get_or xs k silence) store (ground arith)
          ∙ sym (get_or-contents r (n + i) v (omega arith))
          ∙ sym (get_or-drop n (contents r) i silence)

  -- Making room for `floats` loses the oldest samples that they would push out.
  pub contents-discard_oldest :
      (r : RingBuffer A) (floats : ℕ)
      → IsValid r
      → floats ≤ r.capacity_floats
      → contents (discard_oldest r floats)
        ≡ drop (r.buffered + floats - r.capacity_floats) (contents r)
  contents-discard_oldest r floats v h =
      contents-skip r (discard_oldest r floats) (r.buffered + floats - r.capacity_floats) v
        (discard_oldest-IsValid r floats v h).0 (omega arith)
        (unfold discard_oldest in ground arith) (capacity-discard_oldest r floats)
        (unfold discard_oldest in
          ground (
            arith,
            mod-wrap r.capacity_floats
                (u32 (r.read_pos + sub32 (u32 (r.buffered + floats)) r.capacity_floats)),
          ))
        (unfold discard_oldest in ground arith)

  -- Appending puts the samples behind those that wait.
  pub contents-append_floats :
      (r : RingBuffer A) (samples : List A) (floats : ℕ)
      → IsValid r
      → r.buffered + floats ≤ r.capacity_floats
      → floats ≤ length samples
      → contents (append_floats r samples floats) ≡ contents r ++ take floats samples
  contents-append_floats r samples floats v h k = ext _ _ silence len each
    where
      s : RingBuffer A
      s = append_floats r samples floats

      count : s.buffered ≡ r.buffered + floats
      count = unfold append_floats in omega arith

      valid : IsValid s
      valid = append_floats-IsValid r samples floats v h k

      len : length (contents s) ≡ length (contents r ++ take floats samples)
      len = omega (
        arith,
        count,
        length-contents s,
        length-append (contents r) (take floats samples),
        length-contents r,
        length-take floats samples,
      )

      at : (xs : List A) (a b : ℕ) → a ≡ b → get_or xs a silence ≡ get_or xs b silence
      at xs a b e = ap (λ t. get_or xs t silence) e

      written :
          (i : ℕ)
          → i < r.buffered + floats
          → get_or s.store (wrap s.capacity_floats (s.read_pos + i)) silence
            ≡ get_or (contents r ++ take floats samples) i silence
      written i hi =
          unfold append_floats copy_to_ring in
          let idx = wrap r.capacity_floats (r.read_pos + i) in
          ground (
            arith,
            get_or-write_ring r.capacity_floats r.store samples r.write_pos floats idx silence,
            get_or-append (contents r) (take floats samples) i silence,
            length-contents r,
            get_or-contents r i v,
            get_or-take floats samples (i - length (contents r)) silence,
            at samples (past r.capacity_floats r.write_pos idx) (i - length (contents r)),
          )

      each :
          (i : ℕ)
          → i < length (contents s)
          → get_or (contents s) i silence ≡ get_or (contents r ++ take floats samples) i silence
      each i hi =
          let bound : i < r.buffered + floats = omega (arith, count, length-contents s) in
          get_or-contents s i valid (omega (arith, count)) ∙ written i bound
