-- ===== src/Cache/Map/Convergence.antt =====
-- What many merges leave: the newest value of each key, in whatever order they arrive; and what a
-- tombstone forgets.
use libpanaudia_core.Prelude.{
  All, Bool-cases, List, Option, [], ap, arith, bytes_eq, bytes_eq_iff, bytes_eq_refl, false,
  if◌then◌else◌, inl, inr, leb, leb→le, none, refl, some, subst, sym, true, ℕ, ◌∙◌, ◌∷◌, ◌≡◌, ◌≢◌,
  ◌≤◌, ◌⊎◌,
}
use libpanaudia_core.Cache.Wire.{CacheOp}
use libpanaudia_core.Cache.Map.{
  CacheEntry, CacheMap, entry_of, merge, get, accepted, tombstoned, find, is_stale,
}
use libpanaudia_core.Cache.Map.Order.{Sorted}
use libpanaudia_core.Cache.Map.Merge.{merge-Sorted, resolve, get-merge}

-- Some element has the property.
abbrev pub Among {ℓ} : {A : Type ℓ} → (A → Type 0) → List A → Type 0
Among P [] = ⊥
Among P (x ∷ xs) = P x ⊎ Among P xs

-- The map after the operations, the last to arrive first in the list.
unfoldable pub deliver : CacheMap → List CacheOp → CacheMap
deliver c [] = c
deliver c (op ∷ ops) = (merge (deliver c ops) op).1

pub deliver-Sorted :
    (c : CacheMap) (ops : List CacheOp) → Sorted c.entries → Sorted (deliver c ops).entries
unfolding deliver
deliver-Sorted c [] s = s
deliver-Sorted c (op ∷ ops) s = merge-Sorted (deliver c ops) op (deliver-Sorted c ops s)

-- The entry `found` under `k` is the newest that the operations carried for it.
abbrev Newest : List ℕ → List CacheOp → Option CacheEntry → Type 0
Newest k ops none = All (λ o. o.key ≢ k) ops
Newest k ops (some e) =
    Among (λ o. (o.key ≡ k) × (entry_of o ≡ e)) ops × All (λ o. o.key ≡ k → o.op_id ≤ e.op_id) ops

older :
    (k : List ℕ) (ops : List CacheOp) (n m : ℕ)
    → n ≤ m
    → All (λ o. o.key ≡ k → o.op_id ≤ n) ops
    → All (λ o. o.key ≡ k → o.op_id ≤ m) ops
older k [] n m h a = tt
older k (o ∷ ops) n m h a = (λ e. omega (arith, a.0 e), older k ops n m h a.1)

none_older :
    (k : List ℕ) (ops : List CacheOp) (m : ℕ)
    → All (λ o. o.key ≢ k) ops
    → All (λ o. o.key ≡ k → o.op_id ≤ m) ops
none_older k [] m a = tt
none_older k (o ∷ ops) m a = (λ e. absurd (a.0 e), none_older k ops m a.1)

Newest-other :
    (k : List ℕ) (op : CacheOp) (ops : List CacheOp) (found : Option CacheEntry)
    → op.key ≢ k
    → Newest k ops found
    → Newest k (op ∷ ops) found
Newest-other k op ops none ne h = (ne, h)
Newest-other k op ops (some e) ne h = (inr h.0, ((λ eq. absurd (ne eq)), h.1))

Newest-same :
    (op : CacheOp) (ops : List CacheOp) (found : Option CacheEntry)
    → op.tombstone ≡ false
    → Newest op.key ops found
    → Newest op.key (op ∷ ops) (resolve found op)
Newest-same op ops none t h =
    simp t (inl (refl, refl), ((λ _. omega arith), none_older op.key ops op.op_id h))
Newest-same op ops (some e) t h = elim (Bool-cases (leb op.op_id e.op_id)) [
  | inl stale ↦ simp stale (inr h.0, ((λ _. leb→le op.op_id e.op_id stale), h.1))
  | inr fresh ↦
      simp (fresh, t)
        (
          inl (refl, refl),
          ((λ _. omega arith), older op.key ops e.op_id op.op_id (ground arith) h.1),
        )
]

Newest-step :
    (k : List ℕ) (op : CacheOp) (ops : List CacheOp) (c : CacheMap)
    → op.tombstone ≡ false
    → Newest op.key ops (get c op.key)
    → Newest k ops (get c k)
    → Newest k (op ∷ ops) (if bytes_eq op.key k then resolve (get c op.key) op else get c k)
Newest-step k op ops c t own h = elim (Bool-cases (bytes_eq op.key k)) [
  | inl same ↦ rw same (
      subst (λ j. Newest j (op ∷ ops) (resolve (get c op.key) op)) ((bytes_eq_iff op.key k).0 same)
        (Newest-same op ops (get c op.key) t own))
  | inr other ↦
      rw other (Newest-other k op ops (get c k) (λ e. ground (arith, bytes_eq_iff op.key k)) h)
]

deliver-Newest :
    (c : CacheMap) (ops : List CacheOp) (k : List ℕ)
    → c.entries ≡ []
    → All (λ o. o.tombstone ≡ false) ops
    → Newest k ops (get (deliver c ops) k)
deliver-Newest c [] k e t = unfold deliver get in rw e (unfold find in tt)
deliver-Newest c (op ∷ ops) k e t = subst (Newest k (op ∷ ops)) (sym step) (
    Newest-step k op ops (deliver c ops) t.0 (deliver-Newest c ops op.key e t.1)
      (deliver-Newest c ops k e t.1))
  where
    sorted : Sorted (deliver c ops).entries
    sorted = deliver-Sorted c ops (subst Sorted (sym e) tt)

    step : get (deliver c (op ∷ ops)) k ≡ (
        if bytes_eq op.key k
        then resolve (get (deliver c ops) op.key) op
        else get (deliver c ops) k)
    step = unfold deliver in get-merge (deliver c ops) op k sorted

Among-All :
    {A : Type 0} (P : A → Type 0) (Q : A → Type 0) (xs : List A)
    → Among P xs
    → All Q xs
    → (x : A) × P x × Q x × Among (λ y. y ≡ x) xs
Among-All P Q [] m a = elim m [ ]
Among-All P Q (x ∷ xs) (inl p) a = (x, p, a.0, inl refl)
Among-All P Q (x ∷ xs) (inr m) a = let (y, p, q, w) = Among-All P Q xs m a.1 in (y, p, q, inr w)

All_at :
    {A : Type 0} (Q : A → Type 0) (xs : List A) (x : A) → Among (λ y. y ≡ x) xs → All Q xs → Q x
All_at Q [] x m a = elim m [ ]
All_at Q (y ∷ xs) x (inl e) a = subst Q e a.0
All_at Q (y ∷ xs) x (inr m) a = All_at Q xs x m a.1

-- From an empty map, a value that a lookup finds after a delivery without tombstones came with one
-- of the operations for that key, and no operation for the key had a higher id.
pub get-deliver_newest :
    (c : CacheMap) (ops : List CacheOp) (k : List ℕ) (e : CacheEntry) (o : CacheOp)
    → c.entries ≡ []
    → All (λ z. z.tombstone ≡ false) ops
    → get (deliver c ops) k ≡ some e
    → Among (λ z. z ≡ o) ops
    → o.key ≡ k
    → Among (λ z. (z.key ≡ k) × (entry_of z ≡ e)) ops × (o.op_id ≤ e.op_id)
get-deliver_newest c ops k e o h t g m p =
    let newest = subst (Newest k ops) g (deliver-Newest c ops k h t) in
    (newest.0, All_at _ ops o m newest.1 p)

-- The operation that carried an entry that was found.
carrier :
    (k : List ℕ) (ops : List CacheOp) (e : CacheEntry)
    → Newest k ops (some e)
    → (o : CacheOp) × (o.key ≡ k) × (entry_of o ≡ e) × Among (λ y. y ≡ o) ops
carrier k ops e h = let (o, p, q, m) = Among-All _ _ ops h.0 h.1 in (o, p.0, p.1, m)

same_found :
    (k : List ℕ) (xs ys : List CacheOp) (x y : Option CacheEntry)
    → ((o : CacheOp) → Among (λ z. z ≡ o) xs → Among (λ z. z ≡ o) ys)
    → ((o : CacheOp) → Among (λ z. z ≡ o) ys → Among (λ z. z ≡ o) xs)
    → ((o p : CacheOp)
        → Among (λ z. z ≡ o) xs
        → Among (λ z. z ≡ p) xs
        → o.key ≡ p.key
        → o.op_id ≡ p.op_id
        → entry_of o ≡ entry_of p)
    → Newest k xs x
    → Newest k ys y
    → x ≡ y
same_found k xs ys none none to from one hx hy = refl
same_found k xs ys none (some e) to from one hx hy =
    let (o, p, q, m) = carrier k ys e hy in absurd (All_at _ xs o (from o m) hx p)
same_found k xs ys (some e) none to from one hx hy =
    let (o, p, q, m) = carrier k xs e hx in absurd (All_at _ ys o (to o m) hy p)
same_found k xs ys (some d) (some e) to from one hx hy =
    let (o, p, q, m) = carrier k xs d hx in
    let (o', p', q', m') = carrier k ys e hy in
    let below : o.op_id ≤ e.op_id = All_at _ ys o (to o m) hy.1 p in
    let above : o'.op_id ≤ d.op_id = All_at _ xs o' (from o' m') hx.1 p' in
    let dq : o.op_id ≡ d.op_id = ap (λ z. z.op_id) q in
    let eq : o'.op_id ≡ e.op_id = ap (λ z. z.op_id) q' in
    ap some (sym q ∙ one o o' m (from o' m') (p ∙ sym p') (omega arith) ∙ q')

-- Delivery order and repetition do not matter: from an empty map, two deliveries of the same
-- operations, none of them a tombstone, leave the same value under every key, if one operation id
-- stands for one value of a key.
pub deliver_order :
    (c : CacheMap) (xs ys : List CacheOp) (k : List ℕ)
    → c.entries ≡ []
    → All (λ o. o.tombstone ≡ false) xs
    → All (λ o. o.tombstone ≡ false) ys
    → ((o : CacheOp) → Among (λ z. z ≡ o) xs → Among (λ z. z ≡ o) ys)
    → ((o : CacheOp) → Among (λ z. z ≡ o) ys → Among (λ z. z ≡ o) xs)
    → ((o p : CacheOp)
        → Among (λ z. z ≡ o) xs
        → Among (λ z. z ≡ p) xs
        → o.key ≡ p.key
        → o.op_id ≡ p.op_id
        → entry_of o ≡ entry_of p)
    → get (deliver c xs) k ≡ get (deliver c ys) k
deliver_order c xs ys k e tx ty to from one =
    same_found k xs ys _ _ to from one (deliver-Newest c xs k e tx) (deliver-Newest c ys k e ty)

-- In sorted entries, a tombstone that is accepted leaves no trace of its id: the next value for
-- the key is accepted and stored, however old its own id is.
pub tombstone_forgets :
    (c : CacheMap) (dead op : CacheOp)
    → Sorted c.entries
    → dead.tombstone ≡ true
    → (merge c dead).0 ≡ tombstoned
    → op.key ≡ dead.key
    → op.tombstone ≡ false
    → let c1 = (merge c dead).1 in
      ((merge c1 op).0 ≡ accepted) × (get (merge c1 op).1 op.key ≡ some (entry_of op))
tombstone_forgets c dead op s t r k f =
    (accepts gone, get-merge c1 op op.key sorted ∙ simp (bytes_eq_refl, gone, f))
  where
    c1 : CacheMap
    c1 = (merge c dead).1

    sorted : Sorted c1.entries
    sorted = merge-Sorted c dead s

    fresh : is_stale (get c dead.key) dead.op_id ≡ false
    fresh = unfold merge get in ground arith

    gone : get c1 op.key ≡ none
    gone = get-merge c dead op.key s ∙ simp (k, bytes_eq_refl, fresh, t)

    accepts : get c1 op.key ≡ none → (merge c1 op).0 ≡ accepted
    accepts = unfold merge get in ground arith
