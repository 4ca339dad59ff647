-- ===== src/Cache/Tests.antt =====
-- Runs of the cache's map and its envelopes on concrete operations.
use libpanaudia_core.Prelude.{
  List, [], ap, arith, bytes_eq, false, if◌then◌else◌, inl, inr, refl, some, sym, true, ℕ, ◌++◌,
  ◌∙◌, ◌∷◌, ◌≡◌, ◌≢◌, ◌≤◌,
}
use libpanaudia_core.Cache.Wire.{CacheOp, decode_cache_op, encode_cache_op}
use libpanaudia_core.Cache.Wire.RoundTrip.{truncated, decode-encode_cache_op}
use libpanaudia_core.Cache.Map.{
  accepted, CacheMap, empty_map, entry_of, merge, get, for_each_prefix, tombstoned, find, store,
}
use libpanaudia_core.Cache.Map.Order.{Sorted, select, for_each_prefix-select}
use libpanaudia_core.Cache.Map.Merge.{resolve, get-merge}
use libpanaudia_core.Cache.Map.Convergence.{
  deliver, deliver_order, Among, tombstone_forgets, get-deliver_newest,
}

abbrev op_of : List ℕ → ℕ → ℕ → CacheOp
op_of key value op_id = record {
  topic = [];
  key = key;
  value = value ∷ [];
  op_id = op_id;
  node_id = 1;
  tombstone = false;
}

abbrev first : CacheOp
first = op_of (97 ∷ []) 1 5

abbrev second : CacheOp
second = op_of (97 ∷ []) 2 6

abbrev other : CacheOp
other = op_of (97 ∷ 98 ∷ []) 3 1

abbrev dead : CacheOp
dead = record first { op_id = 9; tombstone = true }

abbrev listened : CacheMap
listened = record empty_map { has_handler = true }

abbrev one_entry : CacheMap
one_entry = record {
  entries = (97 ∷ [], record { value = 1 ∷ []; op_id = 5; node_id = 1 }) ∷ [];
  highest_op_id = 5;
  has_handler = true;
  changes = [];
}

one_entry-Sorted : Sorted one_entry.entries
one_entry-Sorted = tt

wire_example : decode_cache_op (encode_cache_op first ++ (1 ∷ [])) ≡ some (truncated first)
wire_example = decode-encode_cache_op first (1 ∷ []) (omega arith) (omega arith)

get-merge_example : get (merge one_entry second).1 (97 ∷ []) ≡ (
    if bytes_eq second.key (97 ∷ [])
    then resolve (get one_entry second.key) second
    else get one_entry (97 ∷ []))
get-merge_example = get-merge one_entry second (97 ∷ []) one_entry-Sorted

prefix_example : for_each_prefix one_entry (97 ∷ []) ≡ select (97 ∷ []) one_entry.entries
prefix_example = for_each_prefix-select one_entry (97 ∷ []) one_entry-Sorted

-- An operation that the map would have rejected before the tombstone.
abbrev stale : CacheOp
stale = op_of (97 ∷ []) 3 1

tombstone_wins : (merge one_entry dead).0 ≡ tombstoned
unfolding merge find
tombstone_wins = refl

tombstone_example :
    let c1 = (merge one_entry dead).1 in
    ((merge c1 stale).0 ≡ accepted) × (get (merge c1 stale).1 stale.key ≡ some (entry_of stale))
tombstone_example =
    tombstone_forgets one_entry dead stale one_entry-Sorted refl tombstone_wins refl refl

abbrev once : List CacheOp
once = first ∷ second ∷ []

abbrev again : List CacheOp
again = second ∷ first ∷ second ∷ []

once-again : (o : CacheOp) → Among (λ z. z ≡ o) once → Among (λ z. z ≡ o) again
once-again o (inl p) = inr (inl p)
once-again o (inr (inl p)) = inl p
once-again o (inr (inr e)) = elim e [ ]

again-once : (o : CacheOp) → Among (λ z. z ≡ o) again → Among (λ z. z ≡ o) once
again-once o (inl p) = inr (inl p)
again-once o (inr (inl p)) = inl p
again-once o (inr (inr (inl p))) = inr (inl p)
again-once o (inr (inr (inr e))) = elim e [ ]

clash : first.op_id ≢ second.op_id
clash = omega arith

one_id :
    (o p : CacheOp)
    → Among (λ z. z ≡ o) once
    → Among (λ z. z ≡ p) once
    → o.key ≡ p.key
    → o.op_id ≡ p.op_id
    → entry_of o ≡ entry_of p
one_id o p (inl a) (inl b) k h = ap entry_of (sym a ∙ b)
one_id o p (inr (inl a)) (inr (inl b)) k h = ap entry_of (sym a ∙ b)
one_id o p (inl a) (inr (inl b)) k h =
    absurd (clash (ap (λ (z : CacheOp). z.op_id) a ∙ h ∙ sym (ap (λ (z : CacheOp). z.op_id) b)))
one_id o p (inr (inl a)) (inl b) k h =
    absurd
      (clash (sym (ap (λ (z : CacheOp). z.op_id) a ∙ h ∙ sym (ap (λ (z : CacheOp). z.op_id) b))))
one_id o p (inr (inr e)) m k h = elim e [ ]
one_id o p (inl a) (inr (inr e)) k h = elim e [ ]
one_id o p (inr (inl a)) (inr (inr e)) k h = elim e [ ]

order_example : get (deliver empty_map once) (97 ∷ []) ≡ get (deliver empty_map again) (97 ∷ [])
unfolding empty_map
order_example =
    deliver_order empty_map once again (97 ∷ []) refl (refl, (refl, tt)) (refl, (refl, (refl, tt)))
      once-again again-once one_id

found_second : get (deliver empty_map again) (97 ∷ []) ≡ some (entry_of second)
unfolding empty_map deliver get find merge store
found_second = refl

newest_example :
    Among (λ z. (z.key ≡ 97 ∷ []) × (entry_of z ≡ entry_of second)) again
    × (first.op_id ≤ (entry_of second).op_id)
unfolding empty_map
newest_example =
    get-deliver_newest empty_map again (97 ∷ []) (entry_of second) first refl
      (refl, (refl, (refl, tt))) found_second (inr (inl refl)) refl
