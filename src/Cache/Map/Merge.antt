-- ===== src/Cache/Map/Merge.antt =====
-- What a merge does to the map: its lookups, its order, its highest operation id.
use libpanaudia_core.Prelude.{
  List, Option, [], append-nil, arith, bytes_eq, bytes_eq_iff, if◌then◌else◌, max, none, refl, some,
  true, ℕ, ◌++◌, ◌∷◌, ◌≡◌,
}
use libpanaudia_core.Cache.Wire.{CacheOp}
use libpanaudia_core.Cache.Map.{
  CacheEntry, Entries, key_lt, find, erase, store, accepted, tombstoned, CacheMap, is_stale,
  entry_of, merge, get,
}
use libpanaudia_core.Cache.Map.Order.{
  Above, Sorted, key_lt_trans, key_lt_total, key_lt_irrefl, Above-Sorted,
}

-- Lookups, in `if` form.
find-store :
    (j k : List ℕ) (v : CacheEntry) (es : Entries)
    → find j (store k v es) ≡ (if bytes_eq k j then some v else find j es)
unfolding find store
find-store j k v [] = refl
find-store j k v ((i, e) ∷ es) =
    ground (arith, bytes_eq_iff i k, bytes_eq_iff i j, bytes_eq_iff k j, find-store j k v es)

Above-weaken : (k j : List ℕ) (es : Entries) → key_lt k j ≡ true → Above j es → Above k es
Above-weaken k j [] h a = tt
Above-weaken k j ((i, e) ∷ es) h a = (key_lt_trans k j i h a.0, a.1)

-- In sorted entries a key below the first is not there.
find_below : (k : List ℕ) (es : Entries) → Above k es → find k es ≡ none
unfolding find
find_below k [] a = refl
find_below k ((j, e) ∷ es) a = ground (
  arith,
  key_lt_irrefl k j a.0,
  bytes_eq_iff k j,
  bytes_eq_iff j k,
  find_below k es (Above-weaken k j es a.0 a.1),
)

find-erase :
    (j k : List ℕ) (es : Entries)
    → Sorted es
    → find j (erase k es) ≡ (if bytes_eq k j then none else find j es)
unfolding find erase
find-erase j k [] s = ground arith
find-erase j k ((i, e) ∷ es) s = ground (
  arith,
  bytes_eq_iff i k,
  bytes_eq_iff i j,
  bytes_eq_iff k j,
  find_below i es s,
  find-erase j k es (Above-Sorted i es s),
)

store-Above :
    (lo k : List ℕ) (v : CacheEntry) (es : Entries)
    → key_lt lo k ≡ true
    → Above lo es
    → Above lo (store k v es)
unfolding store
store-Above lo k v [] h a = (h, tt)
store-Above lo k v ((j, e) ∷ es) h a =
    ground (arith, key_lt_total j k, store-Above j k v es, bytes_eq_iff j k, key_lt_total k j)

erase-Above : (lo k : List ℕ) (es : Entries) → Above lo es → Above lo (erase k es)
unfolding erase
erase-Above lo k [] a = tt
erase-Above lo k ((j, e) ∷ es) a =
    ground (arith, Above-weaken lo j es a.0 a.1, erase-Above j k es a.1)

store-Sorted : (k : List ℕ) (v : CacheEntry) (es : Entries) → Sorted es → Sorted (store k v es)
unfolding store
store-Sorted k v [] s = tt
store-Sorted k v ((j, e) ∷ es) s =
    ground (arith, key_lt_total j k, key_lt_total k j, store-Above j k v es)

erase-Sorted : (k : List ℕ) (es : Entries) → Sorted es → Sorted (erase k es)
unfolding erase
erase-Sorted k [] s = tt
erase-Sorted k ((j, e) ∷ es) s = ground (arith, Above-Sorted j es s, erase-Above j k es s)

-- A merge keeps the entries in ascending order with every key once, on every branch.
pub merge-Sorted : (c : CacheMap) (op : CacheOp) → Sorted c.entries → Sorted (merge c op).1.entries
unfolding merge
merge-Sorted c op s =
    ground (arith, store-Sorted op.key (entry_of op) c.entries s, erase-Sorted op.key c.entries s)

-- What one operation makes of the entry under its key.
abbrev pub resolve : Option CacheEntry → CacheOp → Option CacheEntry
resolve now op =
    if is_stale now op.op_id then now else (if op.tombstone then none else some (entry_of op))

-- After a merge into sorted entries the operation's key holds its old entry if the operation is
-- stale, nothing after a tombstone, and the operation's value otherwise; every other key holds
-- what it held.
pub get-merge :
    (c : CacheMap) (op : CacheOp) (j : List ℕ)
    → Sorted c.entries
    → get (merge c op).1 j ≡ (if bytes_eq op.key j then resolve (get c op.key) op else get c j)
unfolding merge get
get-merge c op j s = ground (
  arith,
  find-store j op.key (entry_of op) c.entries,
  find-erase j op.key c.entries s,
  bytes_eq_iff op.key j,
)

-- The highest operation id is the greater of what it was and the operation's, also when the
-- operation is rejected.
pub merge_highest :
    (c : CacheMap) (op : CacheOp) → (merge c op).1.highest_op_id ≡ max c.highest_op_id op.op_id
unfolding merge
merge_highest c op = ground arith

-- A change handler that is set is called once for a value that is stored and for a tombstone that
-- removed an entry, with the key and the entry stored, and on no other merge.
pub merge_changes :
    (c : CacheMap) (op : CacheOp)
    → c.has_handler ≡ true
    → (merge c op).1.changes
      ≡ c.changes
        ++ (if is_stale (get c op.key) op.op_id
            then []
            else (if op.tombstone
                then (elim (get c op.key) [
                  | none ↦ []
                  | some e ↦ record { key = op.key; entry = none; result = tombstoned } ∷ []
                ])
                else record { key = op.key; entry = some (entry_of op); result = accepted } ∷ []))
unfolding merge get
merge_changes c op h = ground (arith, append-nil c.changes)
