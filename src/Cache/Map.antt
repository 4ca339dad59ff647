-- ===== src/Cache/Map.antt =====
-- The merged key-value map: src/cache_map.cpp. `std::map` is its entries in ascending order of the
-- keys, byte by byte. Each call holds the lock from its first line to its last, so a call is one
-- step on the state; the change handler is the list of the calls made to it.
pub mod Order
pub mod Merge
pub mod Convergence
use libpanaudia_core.Prelude.{
  Bool, List, Option, [], bytes_eq, false, if◌then◌else◌, leb, length, ltb, none, not, some, take,
  true, ℕ, ◌&&◌, ◌++◌, ◌==◌, ◌||◌, ◌∷◌,
}
use libpanaudia_core.Cache.Wire.{CacheOp}

pub record CacheEntry : Type 0 where
  pub value : List ℕ
  pub op_id : ℕ
  pub node_id : ℕ

pub data MergeResult : Type 0 where
  accepted tombstoned rejected : MergeResult

-- One call of the change handler: key, entry (absent on a tombstone), result.
pub record Change : Type 0 where
  pub key : List ℕ
  pub entry : Option CacheEntry
  pub result : MergeResult

abbrev pub Entries : Type 0
Entries = List (List ℕ × CacheEntry)

pub record CacheMap : Type 0 where
  pub entries : Entries
  pub highest_op_id : ℕ
  pub has_handler : Bool
  pub changes : List Change

unfoldable pub empty_map : CacheMap
empty_map = record { entries = []; highest_op_id = 0; has_handler = false; changes = [] }

-- `std::string::operator<`
unfoldable pub key_lt : List ℕ → List ℕ → Bool
key_lt [] [] = false
key_lt [] (b ∷ bs) = true
key_lt (a ∷ as_) [] = false
key_lt (a ∷ as_) (b ∷ bs) = ltb a b || ((a == b) && key_lt as_ bs)

unfoldable pub find : List ℕ → Entries → Option CacheEntry
unfolding bytes_eq
find k [] = none
find k ((j, e) ∷ es) = if bytes_eq j k then some e else find k es

unfoldable pub erase : List ℕ → Entries → Entries
erase k [] = []
erase k ((j, e) ∷ es) = if bytes_eq j k then es else (j, e) ∷ erase k es

-- Assignment through the iterator for a key that is there, `emplace` for one that is not.
unfoldable pub store : List ℕ → CacheEntry → Entries → Entries
store k v [] = (k, v) ∷ []
store k v ((j, e) ∷ es) =
    if bytes_eq j k
    then (j, v) ∷ es
    else (if key_lt k j then (k, v) ∷ (j, e) ∷ es else (j, e) ∷ store k v es)

pub notify : CacheMap → Change → CacheMap
notify c ch = if c.has_handler then record c { changes = c.changes ++ (ch ∷ []) } else c

-- Whether the cached entry outranks the operation.
abbrev pub is_stale : Option CacheEntry → ℕ → Bool
is_stale none op_id = false
is_stale (some e) op_id = leb op_id e.op_id

apply_tombstone : CacheMap → List ℕ → Option CacheEntry → CacheMap
unfolding notify
apply_tombstone c k none = c
apply_tombstone c k (some e) =
    notify (record c { entries = erase k c.entries })
      (record { key = k; entry = none; result = tombstoned })

abbrev pub entry_of : CacheOp → CacheEntry
entry_of op = record { value = op.value; op_id = op.op_id; node_id = op.node_id }

apply_value : CacheMap → CacheOp → CacheMap
unfolding notify
apply_value c op =
    let entry : CacheEntry = entry_of op in
    notify (record c { entries = store op.key entry c.entries })
      (record { key = op.key; entry = some entry; result = accepted })

unfoldable pub merge : CacheMap → CacheOp → MergeResult × CacheMap
unfolding apply_tombstone apply_value
merge c op =
    let c1 = record c {
      highest_op_id = if ltb c.highest_op_id op.op_id then op.op_id else c.highest_op_id;
    } in
    let it = find op.key c1.entries in
    if is_stale it op.op_id
    then (rejected, c1)
    else (if op.tombstone
        then (tombstoned, apply_tombstone c1 op.key it)
        else (accepted, apply_value c1 op))

unfoldable pub get : CacheMap → List ℕ → Option CacheEntry
get c key = find key c.entries

-- What a visitor is shown, in order.
unfoldable pub for_each : CacheMap → Entries
for_each c = c.entries

unfoldable pub lower_bound : List ℕ → Entries → Entries
lower_bound p [] = []
lower_bound p ((k, e) ∷ es) = if key_lt k p then lower_bound p es else (k, e) ∷ es

-- `k.compare(0, prefix.size(), prefix) == 0`
unfoldable pub matches : List ℕ → List ℕ → Bool
unfolding bytes_eq
matches prefix k = bytes_eq (take (length prefix) k) prefix

-- The walk from the lower bound: a key that is too short or does not match ends it.
pub walk : List ℕ → Entries → Entries
walk prefix [] = []
walk prefix ((k, e) ∷ es) =
    if ltb (length k) (length prefix)
    then []
    else (if not (matches prefix k) then [] else (k, e) ∷ walk prefix es)

unfoldable pub for_each_prefix : CacheMap → List ℕ → Entries
unfolding walk
for_each_prefix c [] = c.entries
for_each_prefix c (b ∷ bs) = walk (b ∷ bs) (lower_bound (b ∷ bs) c.entries)

unfoldable pub size : CacheMap → ℕ
size c = length c.entries

unfoldable pub empty : CacheMap → Bool
empty c = size c == 0

unfoldable pub clear : CacheMap → CacheMap
clear c = record c { entries = []; highest_op_id = 0 }

unfoldable pub set_change_handler : CacheMap → Bool → CacheMap
set_change_handler c handler = record c { has_handler = handler }
