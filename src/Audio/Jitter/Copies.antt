-- ===== src/Audio/Jitter/Copies.antt =====
-- What the copies of a read hand over: the samples that wait, padded up to what was asked for.
use libpanaudia_core.Prelude.{
  Bool-cases, List, [], ap, ap₂, arith, drop, get_or, inl, inr, length, length-append,
  length-replicate, max, min, refl, replicate, slt, smin, sub32, suc, sym, take, take-append_left,
  take_all, true, u32, zero, ℕ, ◌%◌, ◌++◌, ◌+◌, ◌-◌, ◌<◌, ◌^◌, ◌∙◌, ◌∷◌, ◌≡◌, ◌≤◌,
}
use native.Mathlib.Nat.{mod-lt}
use libpanaudia_core.Audio.Circular.{window}
use libpanaudia_core.Audio.Circular.Laws.{
  length-tabulate, take-tabulate, drop-window, read_ring-window,
}
use libpanaudia_core.Audio.Jitter.{
  JitterBuffer, Correction, insert, keep, drop_one, copy_from_ring, snap_floats, fill_samples,
  overrun_snap, consume, pad, duplicate, real_floats,
}
use libpanaudia_core.Audio.Jitter.Valid.{IsValid, excess_there, consume-IsValid}

get_or_inside :
    {A : Type 0} → (xs : List A) (i : ℕ) (d e : A) → i < length xs → get_or xs i d ≡ get_or xs i e
get_or_inside [] i d e h = ground arith
get_or_inside (x ∷ xs) zero d e h = refl
get_or_inside (x ∷ xs) (suc i) d e h = get_or_inside xs i d e (omega arith)

module _ {A : Type 0} (silence : A) where
  -- The samples that wait, oldest first.
  abbrev pub contents : JitterBuffer A → List A
  contents j = window silence j.capacity j.store j.read_pos j.buffered

  -- The samples that leave the ring, and those of them that the caller is given.
  abbrev pub taken : JitterBuffer A → Correction → ℕ → ℕ
  taken j insert n = min (max j.num_channels (n - j.num_channels)) j.buffered
  taken j keep n = min n j.buffered
  taken j drop_one n = min (n + j.num_channels) j.buffered

  pub overrun_snap-IsValid : (j : JitterBuffer A) → IsValid j → IsValid (overrun_snap j)
  unfolding overrun_snap
  overrun_snap-IsValid j v = elim (Bool-cases (slt j.max_samples (fill_samples j))) [
    | inl over ↦
        let w = consume-IsValid j (sub32 j.buffered (snap_floats j)) v (excess over) in
        unfold consume in
        rw over (record {
          configured = ground (arith, v.configured);
          storage = w.storage;
          write_in = w.write_in;
          read_in = w.read_in;
          count_in = w.count_in;
          in_step = w.in_step;
        })
    | inr within ↦ rw within v
  ]
    where
      excess :
          slt j.max_samples (fill_samples j) ≡ true → sub32 j.buffered (snap_floats j) ≤ j.buffered
      excess h = omega (arith, excess_there j v h, v.configured.small, v.configured.centre_fits)

  pub smin-min : (a b : ℕ) → a < 2 ^ 31 → b < 2 ^ 31 → smin a b ≡ min a b
  smin-min a b h k = ground arith

  pub real_floats-taken :
      (j : JitterBuffer A) (n : ℕ)
      → IsValid j
      → n < 2 ^ 30
      → j.num_channels ≤ n
      → real_floats j n ≡ taken j insert n
  real_floats-taken j n v h k = ground (arith, v.configured.small, v.configured.few_channels)

  pub length-duplicate :
      (dst : ℕ → A) (last_start nc k rounds : ℕ) (out : List A)
      → length (duplicate dst last_start nc k rounds out) ≡ length out + rounds
  unfolding duplicate
  length-duplicate dst last_start nc k zero out = omega arith
  length-duplicate dst last_start nc k (suc rounds) out =
      let next = get_or out (last_start + k % nc) (dst (last_start + k % nc)) in
      omega (
        arith,
        length-duplicate dst last_start nc (k + 1) rounds (out ++ (next ∷ [])),
        length-append out (next ∷ []),
      )

  -- The duplicates stand behind what was copied.
  pub take-duplicate :
      (dst : ℕ → A) (last_start nc k rounds m : ℕ) (out : List A)
      → m ≤ length out
      → take m (duplicate dst last_start nc k rounds out) ≡ take m out
  unfolding duplicate
  take-duplicate dst last_start nc k zero m out h = refl
  take-duplicate dst last_start nc k (suc rounds) m out h =
      let next = get_or out (last_start + k % nc) (dst (last_start + k % nc)) in
      take-duplicate dst last_start nc (k + 1) rounds m (out ++ (next ∷ []))
        (omega (arith, length-append out (next ∷ [])))
      ∙ take-append_left m out (next ∷ []) h

  -- From a whole frame on, the duplicates do not show what the caller's buffer held.
  pub duplicate_unread :
      (dst old : ℕ → A) (last_start nc k rounds : ℕ) (out : List A)
      → 0 < nc
      → last_start + nc ≤ length out
      → duplicate dst last_start nc k rounds out ≡ duplicate old last_start nc k rounds out
  unfolding duplicate
  duplicate_unread dst old last_start nc k zero out p h = refl
  duplicate_unread dst old last_start nc k (suc rounds) out p h =
      let i = last_start + k % nc in
      let next = get_or out i (old i) in
      rw (get_or_inside out i (dst i) (old i) (omega (arith, mod-lt k p))) (
        duplicate_unread dst old last_start nc (k + 1) rounds (out ++ (next ∷ [])) p
          (omega (arith, length-append out (next ∷ []))))

  pub copied :
      (j : JitterBuffer A) (n : ℕ)
      → IsValid j
      → n ≤ j.buffered
      → (copy_from_ring j j.read_pos n ≡ take n (contents j))
        × (length (copy_from_ring j j.read_pos n) ≡ n)
  unfolding copy_from_ring
  copied j n v h =
      let f = λ (i : ℕ). get_or j.store ((j.read_pos + i) % j.capacity) silence in
      let w =
        read_ring-window silence j.capacity j.store j.read_pos n v.storage
          (omega (arith, v.configured.small)) v.read_in (omega arith) in
      (w ∙ sym (take-tabulate n j.buffered f h), ap length w ∙ length-tabulate n f)

  pub contents-consume :
      (j : JitterBuffer A) (n : ℕ)
      → IsValid j
      → n ≤ j.buffered
      → contents (consume j n) ≡ drop n (contents j)
  unfolding consume
  contents-consume j n v h =
      ap₂ (λ p m. window silence j.capacity j.store p m) position count
      ∙ sym (drop-window silence j.capacity j.store j.read_pos n j.buffered)
    where
      no_wrap : u32 (j.read_pos + n) ≡ j.read_pos + n
      no_wrap = omega (arith, v.configured.small)

      position : u32 (j.read_pos + n) % j.capacity ≡ (j.read_pos + n) % j.capacity
      position = ap (λ k. k % j.capacity) no_wrap

      count : sub32 j.buffered n ≡ j.buffered - n
      count = omega (arith, v.configured.small)

  -- The oldest `m` samples, then something up to `n` samples.
  pub record Served (j : JitterBuffer A) (n t : ℕ) (out : List A) (j' : JitterBuffer A)
      : Type 0 where
    pub full : length out ≡ n
    pub oldest_first : take (min n t) out ≡ take (min n t) (contents j)
    pub removed : contents j' ≡ drop t (contents j)
    pub valid : IsValid j'

  pub padded :
      (j : JitterBuffer A) (n t : ℕ) (j' : JitterBuffer A)
      → IsValid j
      → n < 2 ^ 30
      → min n t ≡ min n j.buffered
      → contents j' ≡ drop t (contents j)
      → IsValid j'
      → Served j n t
          (pad silence (copy_from_ring j j.read_pos (smin n j.buffered)) (n - smin n j.buffered))
          j'
  unfolding pad
  padded j n t j' v hn e r w =
      rw (smin-min n j.buffered (omega arith) (omega (arith, v.configured.small))) (record {
        full = omega (
          arith,
          length-append block (replicate (n - min n j.buffered) silence),
          length-replicate (n - min n j.buffered) silence,
          facts.1,
        );
        oldest_first = rw e (
            take-append_left (min n j.buffered) block (replicate (n - min n j.buffered) silence)
              (omega (arith, facts.1))
            ∙ take_all (min n j.buffered) block (omega (arith, facts.1))
            ∙ facts.0);
        removed = r;
        valid = w;
      })
    where
      block : List A
      block = copy_from_ring j j.read_pos (min n j.buffered)

      facts : (block ≡ take (min n j.buffered) (contents j)) × (length block ≡ min n j.buffered)
      facts = copied j (min n j.buffered) v (omega arith)
