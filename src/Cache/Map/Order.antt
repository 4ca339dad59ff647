-- ===== src/Cache/Map/Order.antt =====
-- The order of the keys, and the prefix walk: for_each_prefix shows the entries that match.
use libpanaudia_core.Prelude.{
  Bool-cases, List, [], ap, arith, bytes_eq, false, if◌then◌else◌, inl, inr, length, ltb, refl, sym,
  true, ℕ, ◌∷◌, ◌≡◌,
}
use libpanaudia_core.Cache.Map.{
  Entries, key_lt, matches, CacheEntry, CacheMap, lower_bound, walk, for_each_prefix,
}

-- Ascending keys, each above `lo`.
abbrev pub Above : List ℕ → Entries → Type 0
Above lo [] = Unit {0}
Above lo ((k, e) ∷ es) = (key_lt lo k ≡ true) × Above k es

-- Every key once, in ascending order.
abbrev pub Sorted : Entries → Type 0
Sorted [] = Unit {0}
Sorted ((k, e) ∷ es) = Above k es

pub key_lt_trans : (a b c : List ℕ) → key_lt a b ≡ true → key_lt b c ≡ true → key_lt a c ≡ true
unfolding key_lt
key_lt_trans a b [] p q = absurd_right a b p q
  where
    absurd_right : (a b : List ℕ) → key_lt a b ≡ true → key_lt b [] ≡ true → key_lt a [] ≡ true
    absurd_right a [] p q = cc
    absurd_right a (y ∷ b) p q = cc
key_lt_trans [] b (z ∷ c) p q = refl
key_lt_trans (x ∷ a) [] (z ∷ c) p q = cc
key_lt_trans (x ∷ a) (y ∷ b) (z ∷ c) p q = ground (arith, key_lt_trans a b c)

-- Two keys that differ stand in one order or the other.
pub key_lt_total : (a b : List ℕ) → bytes_eq a b ≡ false → key_lt a b ≡ false → key_lt b a ≡ true
unfolding key_lt bytes_eq
key_lt_total [] [] e h = cc
key_lt_total [] (b ∷ bs) e h = cc
key_lt_total (a ∷ as_) [] e h = refl
key_lt_total (a ∷ as_) (b ∷ bs) e h = ground (arith, key_lt_total as_ bs)

pub key_lt_irrefl : (a b : List ℕ) → key_lt a b ≡ true → bytes_eq a b ≡ false
unfolding key_lt bytes_eq
key_lt_irrefl [] [] h = cc
key_lt_irrefl [] (b ∷ bs) h = refl
key_lt_irrefl (a ∷ as_) [] h = refl
key_lt_irrefl (a ∷ as_) (b ∷ bs) h = ground (arith, key_lt_irrefl as_ bs)

-- Above a key that stands at or after a prefix and does not match it, none matches.
past_prefix :
    (p k j : List ℕ)
    → key_lt k p ≡ false
    → matches p k ≡ false
    → key_lt k j ≡ true
    → matches p j ≡ false
unfolding key_lt matches
past_prefix [] k j h m l = absurd_empty k m
  where
    absurd_empty : (k : List ℕ) → matches [] k ≡ false → matches [] j ≡ false
    absurd_empty k m = cc
past_prefix (a ∷ p) [] j h m l = cc
past_prefix (a ∷ p) (b ∷ k) [] h m l = cc
past_prefix (a ∷ p) (b ∷ k) (c ∷ j) h m l = ground (arith, past_prefix p k j)

-- A key that matches does not stand before the prefix.
match_not_before : (p k : List ℕ) → matches p k ≡ true → key_lt k p ≡ false
unfolding key_lt matches
match_not_before [] [] m = refl
match_not_before [] (b ∷ k) m = refl
match_not_before (a ∷ p) [] m = cc
match_not_before (a ∷ p) (b ∷ k) m = ground (arith, match_not_before p k)

match_long : (p k : List ℕ) → matches p k ≡ true → ltb (length k) (length p) ≡ false
unfolding matches
match_long [] k m = ground arith
match_long (a ∷ p) [] m = cc
match_long (a ∷ p) (b ∷ k) m = ground (arith, match_long p k)

-- What stands above a key at or after the prefix stands after it too.
still_after : (p k j : List ℕ) → key_lt k p ≡ false → key_lt k j ≡ true → key_lt j p ≡ false
still_after p k j h l = elim (Bool-cases (key_lt j p)) [
  | inl e ↦ cc (key_lt_trans k j p l e)
  | inr e ↦ e
]

not_match : (p k : List ℕ) → key_lt k p ≡ true → matches p k ≡ false
not_match p k h = elim (Bool-cases (matches p k)) [
  | inl e ↦ cc (match_not_before p k e)
  | inr e ↦ e
]

-- The entries whose key begins with `p`.
pub select : List ℕ → Entries → Entries
select p [] = []
select p ((k, e) ∷ es) = if matches p k then (k, e) ∷ select p es else select p es

-- Past a key that stands after the prefix and does not match, nothing is selected.
select_past :
    (p k : List ℕ) (es : Entries)
    → key_lt k p ≡ false
    → matches p k ≡ false
    → Above k es
    → select p es ≡ []
unfolding select
select_past p k [] h m a = refl
select_past p k ((j, e) ∷ es) h m a =
    rw (past_prefix p k j h m a.0)
      (select_past p j es (still_after p k j h a.0) (past_prefix p k j h m a.0) a.1)

walk-select :
    (p : List ℕ) (es : Entries) (lo : List ℕ)
    → key_lt lo p ≡ false
    → Above lo es
    → walk p es ≡ select p es
unfolding walk select
walk-select p [] lo h a = refl
walk-select p ((k, e) ∷ es) lo h a = elim (Bool-cases (matches p k)) [
  | inl m ↦
      rw (m, match_long p k m)
        (ap (λ t. (k, e) ∷ t) (walk-select p es k (still_after p lo k h a.0) a.1))
  | inr m ↦ rw m (ground (arith, select_past p k es (still_after p lo k h a.0) m a.1))
]

walk-select_first :
    (p : List ℕ) (k : List ℕ) (e : CacheEntry) (es : Entries)
    → key_lt k p ≡ false
    → Above k es
    → walk p ((k, e) ∷ es) ≡ select p ((k, e) ∷ es)
unfolding walk select
walk-select_first p k e es h a = elim (Bool-cases (matches p k)) [
  | inl m ↦ rw (m, match_long p k m) (ap (λ t. (k, e) ∷ t) (walk-select p es k h a))
  | inr m ↦ rw m (ground (arith, select_past p k es h m a))
]

pub Above-Sorted : (lo : List ℕ) (es : Entries) → Above lo es → Sorted es
Above-Sorted lo [] a = tt
Above-Sorted lo ((k, e) ∷ es) a = a.1

walk-lower_bound : (p : List ℕ) (es : Entries) → Sorted es → walk p (lower_bound p es) ≡ select p es
unfolding lower_bound select
walk-lower_bound p [] s = unfold walk in refl
walk-lower_bound p ((k, e) ∷ es) s = elim (Bool-cases (key_lt k p)) [
  | inl before ↦ rw (before, not_match p k before) (walk-lower_bound p es (Above-Sorted k es s))
  | inr after ↦ rw after (unfold select in walk-select_first p k e es after s)
]

select_all : (es : Entries) → select [] es ≡ es
unfolding select matches
select_all [] = refl
select_all ((k, e) ∷ es) = ap (λ t. (k, e) ∷ t) (select_all es)

-- On sorted entries the walk from the lower bound shows the entries whose key begins with the
-- prefix, all of them and no other, in ascending order.
pub for_each_prefix-select :
    (c : CacheMap) (prefix : List ℕ)
    → Sorted c.entries
    → for_each_prefix c prefix ≡ select prefix c.entries
unfolding for_each_prefix
for_each_prefix-select c [] s = sym (select_all c.entries)
for_each_prefix-select c (b ∷ bs) s = walk-lower_bound (b ∷ bs) c.entries s
