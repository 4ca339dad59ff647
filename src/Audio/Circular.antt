-- ===== src/Audio/Circular.antt =====
-- A vector used as a ring: the copies that both buffers make, and the samples that a ring holds.
-- A sample is any value; nothing computes with it. `memcpy` of `n` samples to `dst + pos`: one
-- that runs past the end makes the list longer, which the buffers' invariants rule out.
pub mod Laws
use libpanaudia_core.Prelude.{
  List, [], drop, get_or, if◌then◌else◌, leb, sub32, suc, take, zero, ℕ, ◌%◌, ◌++◌, ◌+◌, ◌∷◌,
}

module _ {A : Type 0} where
  abbrev pub memcpy : List A → ℕ → List A → ℕ → List A
  memcpy dst pos src n = take pos dst ++ (take n src ++ drop (pos + n) dst)

  -- copy_to_ring of a ring of `cap` samples, and copy_from_ring, which gives the samples copied.
  pub write_ring : ℕ → List A → ℕ → List A → ℕ → List A
  write_ring cap store pos src floats =
      let remain = sub32 cap pos in
      if leb floats remain
      then memcpy store pos src floats
      else memcpy (memcpy store pos src remain) 0 (drop remain src) (sub32 floats remain)

  pub read_ring : ℕ → List A → ℕ → ℕ → List A
  read_ring cap store pos floats =
      let remain = sub32 cap pos in
      if leb floats remain
      then take floats (drop pos store)
      else take remain (drop pos store) ++ take (sub32 floats remain) store

  abbrev pub tabulate : ℕ → (ℕ → A) → List A
  tabulate zero f = []
  tabulate (suc n) f = f 0 ∷ tabulate n (λ i. f (suc i))

  -- The `n` samples from position `pos` on, going round at `cap`.
  abbrev pub window : A → ℕ → List A → ℕ → ℕ → List A
  window silence cap store pos n = tabulate n (λ i. get_or store ((pos + i) % cap) silence)
