-- ===== src/Audio/Circular/Laws.antt =====
-- The ring copies, sample by sample.
use libpanaudia_core.Prelude.{
  Bool-cases, List, ap, arith, drop, ext, get_or, get_or-append, get_or-drop, get_or-take,
  if◌then◌else◌, inl, inr, leb, length, length-append, length-drop, length-take, ltb, ltb→lt, refl,
  sub32, suc, sym, take, zero, ℕ, ◌%◌, ◌&&◌, ◌++◌, ◌+◌, ◌-◌, ◌<◌, ◌^◌, ◌∙◌, ◌∷◌, ◌≡◌, ◌≤◌,
}
use native.Mathlib.Nat.{mod-eq_of_lt, mod-eq-sub-mod, mod-add-mod, add_assoc}
use mathlib.Core.Path.{fun_ext}
use libpanaudia_core.Audio.Circular.{memcpy, write_ring, read_ring, tabulate, window}

-- Once round at most.
abbrev pub wrap : ℕ → ℕ → ℕ
wrap cap i = if ltb i cap then i else i - cap

pub mod-wrap : (cap i : ℕ) → i < cap + cap → i % cap ≡ wrap cap i
mod-wrap cap i h = elim (Bool-cases (ltb i cap)) [
  | inl e ↦ rw e (mod-eq_of_lt (ltb→lt i cap e))
  | inr e ↦ rw e (
      ground (
        arith,
        mod-eq-sub-mod {n = i} {m = cap} (ground arith),
        mod-eq_of_lt {n = i - cap} {m = cap} (ground arith),
      ))
]

-- How far past `pos` the position `i` lies, going round.
abbrev pub past : ℕ → ℕ → ℕ → ℕ
past capacity pos i = if leb pos i then i - pos else i + capacity - pos

module _ {A : Type 0} where
  pub length-tabulate : (n : ℕ) (f : ℕ → A) → length (tabulate n f) ≡ n
  length-tabulate zero f = refl
  length-tabulate (suc n) f = ap suc (length-tabulate n (λ i. f (suc i)))

  pub get_or-tabulate :
      (n : ℕ) (f : ℕ → A) (i : ℕ) (d : A) → get_or (tabulate n f) i d ≡ (if ltb i n then f i else d)
  get_or-tabulate zero f i d = ground arith
  get_or-tabulate (suc n) f zero d = ground arith
  get_or-tabulate (suc n) f (suc i) d = ground (arith, get_or-tabulate n (λ i. f (suc i)) i d)

  pub take-tabulate : (n m : ℕ) (f : ℕ → A) → n ≤ m → take n (tabulate m f) ≡ tabulate n f
  take-tabulate zero m f h = refl
  take-tabulate (suc n) zero f h = absurd (omega arith)
  take-tabulate (suc n) (suc m) f h =
      ap (λ t. f 0 ∷ t) (take-tabulate n m (λ i. f (suc i)) (omega arith))

  drop-tabulate : (n m : ℕ) (f : ℕ → A) → drop n (tabulate m f) ≡ tabulate (m - n) (λ i. f (n + i))
  drop-tabulate zero m f =
      let e : m ≡ m - 0 = omega arith in
      let shift : (i : ℕ) → f i ≡ f (0 + i) = λ i. ap f (omega arith) in
      ap (λ k. tabulate k f) e ∙ ap (tabulate (m - 0)) (fun_ext shift)
  drop-tabulate (suc n) zero f =
      let e : 0 ≡ 0 - suc n = omega arith in ap (λ k. tabulate k (λ i. f (suc n + i))) e
  drop-tabulate (suc n) (suc m) f =
      let e : m - n ≡ suc m - suc n = omega arith in
      let shift : (i : ℕ) → f (suc (n + i)) ≡ f (suc n + i) = λ i. ap f (omega arith) in
      drop-tabulate n m (λ i. f (suc i))
      ∙ ap (λ k. tabulate k (λ i. f (suc (n + i)))) e
      ∙ ap (tabulate (suc m - suc n)) (fun_ext shift)

  -- Past the first `n` samples the window goes on from where they end.
  pub drop-window :
      (silence : A) (capacity : ℕ) (store : List A) (pos n m : ℕ)
      → drop n (window silence capacity store pos m)
        ≡ window silence capacity store ((pos + n) % capacity) (m - n)
  drop-window silence capacity store pos n m =
      drop-tabulate n m (λ i. get_or store ((pos + i) % capacity) silence)
      ∙ ap (tabulate (m - n)) (fun_ext each)
    where
      each :
          (i : ℕ)
          → get_or store ((pos + (n + i)) % capacity) silence
            ≡ get_or store (((pos + n) % capacity + i) % capacity) silence
      each i =
          ap (λ k. get_or store k silence)
            (ap (λ k. k % capacity) (sym (add_assoc pos n i))
              ∙ sym (mod-add-mod (pos + n) capacity i))

  length-memcpy :
      (dst src : List A) (pos n : ℕ)
      → pos + n ≤ length dst
      → n ≤ length src
      → length (memcpy dst pos src n) ≡ length dst
  length-memcpy dst src pos n h k = omega (
    arith,
    length-append (take pos dst) (take n src ++ drop (pos + n) dst),
    length-append (take n src) (drop (pos + n) dst),
    length-take pos dst,
    length-take n src,
    length-drop (pos + n) dst,
  )

  get_or-memcpy :
      (dst src : List A) (pos n i : ℕ) (d : A)
      → pos + n ≤ length dst
      → n ≤ length src
      → get_or (memcpy dst pos src n) i d
        ≡ (if leb pos i && ltb i (pos + n) then get_or src (i - pos) d else get_or dst i d)
  get_or-memcpy dst src pos n i d h k = ground (
    arith,
    get_or-append (take pos dst) (take n src ++ drop (pos + n) dst) i d,
    get_or-append (take n src) (drop (pos + n) dst) (i - length (take pos dst)) d,
    get_or-take pos dst i d,
    get_or-take n src (i - length (take pos dst)) d,
    get_or-drop (pos + n) dst (i - length (take pos dst) - length (take n src)) d,
    length-take pos dst,
    length-take n src,
    at src (i - length (take pos dst)) (i - pos),
    at dst (pos + n + (i - length (take pos dst) - length (take n src))) i,
  )
    where
      at : (xs : List A) (a b : ℕ) → a ≡ b → get_or xs a d ≡ get_or xs b d
      at xs a b e = ap (λ t. get_or xs t d) e

  module _ (cap : ℕ) (store src : List A) (pos floats : ℕ) where
    pub length-write_ring :
        length store ≡ cap
        → cap < 2 ^ 32
        → pos < cap
        → floats ≤ cap
        → floats ≤ length src
        → length (write_ring cap store pos src floats) ≡ cap
    unfolding write_ring
    length-write_ring hs hc hp hf hl = ground (
      arith,
      length-memcpy store src pos floats,
      length-memcpy store src pos (sub32 cap pos),
      length-memcpy (memcpy store pos src (sub32 cap pos)) (drop (sub32 cap pos) src) 0
          (sub32 floats (sub32 cap pos)),
      length-drop (sub32 cap pos) src,
    )

    pub get_or-write_ring :
        (i : ℕ) (d : A)
        → length store ≡ cap
        → cap < 2 ^ 32
        → pos < cap
        → floats ≤ cap
        → floats ≤ length src
        → i < cap
        → get_or (write_ring cap store pos src floats) i d ≡ (
            if ltb (past cap pos i) floats then get_or src (past cap pos i) d else get_or store i d)
    unfolding write_ring
    get_or-write_ring i d hs hc hp hf hl hi = ground (
      arith,
      get_or-memcpy store src pos floats i d,
      get_or-memcpy store src pos (sub32 cap pos) i d,
      length-memcpy store src pos (sub32 cap pos),
      get_or-memcpy (memcpy store pos src (sub32 cap pos)) (drop (sub32 cap pos) src) 0
          (sub32 floats (sub32 cap pos)) i d,
      length-drop (sub32 cap pos) src,
      get_or-drop (sub32 cap pos) src (i - 0) d,
      at (sub32 cap pos + (i - 0)) (past cap pos i),
    )
      where
        at : (a b : ℕ) → a ≡ b → get_or src a d ≡ get_or src b d
        at a b e = ap (λ t. get_or src t d) e

  module _ (silence : A) (cap : ℕ) (store : List A) (pos n : ℕ) where
    pub get_or-window :
        (i : ℕ)
        → pos < cap
        → n ≤ cap
        → i < n
        → get_or (window silence cap store pos n) i silence
          ≡ get_or store (wrap cap (pos + i)) silence
    get_or-window i hp hn hi = ground (
      arith,
      get_or-tabulate n (λ k. get_or store ((pos + k) % cap) silence) i silence,
      mod-wrap cap (pos + i),
      ap (λ t. get_or store t silence) (mod-wrap cap (pos + i) (omega arith)),
    )

    -- What copy_from_ring copies is the window from `pos` on.
    pub read_ring-window :
        length store ≡ cap
        → cap < 2 ^ 32
        → pos < cap
        → n ≤ cap
        → read_ring cap store pos n ≡ window silence cap store pos n
    read_ring-window hs hc hp hn = ext _ _ silence len each
      where
        len : length (read_ring cap store pos n) ≡ length (window silence cap store pos n)
        len =
            unfold read_ring in
            ground (
              arith,
              length-tabulate n (λ k. get_or store ((pos + k) % cap) silence),
              length-take n (drop pos store),
              length-drop pos store,
              length-append (take (sub32 cap pos) (drop pos store))
                  (take (sub32 n (sub32 cap pos)) store),
              length-take (sub32 cap pos) (drop pos store),
              length-take (sub32 n (sub32 cap pos)) store,
            )

        at : (a b : ℕ) → a ≡ b → get_or store a silence ≡ get_or store b silence
        at a b e = ap (λ t. get_or store t silence) e

        size : length (read_ring cap store pos n) ≡ n
        size = len ∙ length-tabulate n (λ k. get_or store ((pos + k) % cap) silence)

        from_ring :
            (i : ℕ)
            → i < n
            → get_or (read_ring cap store pos n) i silence
              ≡ get_or store (wrap cap (pos + i)) silence
        from_ring i hi =
            unfold read_ring in
            ground (
              arith,
              get_or-take n (drop pos store) i silence,
              get_or-drop pos store i silence,
              length-drop pos store,
              length-take (sub32 cap pos) (drop pos store),
              get_or-append (take (sub32 cap pos) (drop pos store))
                  (take (sub32 n (sub32 cap pos)) store) i silence,
              get_or-take (sub32 cap pos) (drop pos store) i silence,
              get_or-take (sub32 n (sub32 cap pos)) store
                  (i - length (take (sub32 cap pos) (drop pos store))) silence,
              at (i - length (take (sub32 cap pos) (drop pos store))) (pos + i - cap),
            )

        each :
            (i : ℕ)
            → i < length (read_ring cap store pos n)
            → get_or (read_ring cap store pos n) i silence
              ≡ get_or (window silence cap store pos n) i silence
        each i hi =
            from_ring i (omega (arith, size)) ∙ sym (get_or-window i hp hn (omega (arith, size)))
