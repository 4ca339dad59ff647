-- ===== src/Cache/Topic.antt =====
-- The topic merger: src/topic_merger.cpp. The JSON library is an argument, a record of the calls
-- that the merger makes; a text that it discards gives `none`, as does a look at a value of another
-- type. The counters are atomic and the cache locks itself, so a call is a step on the state.
pub mod Convergence
pub mod Reads
mod Tests
use libpanaudia_core.Prelude.{
  Bool, List, Option, [], false, if◌then◌else◌, length, map, none, some, suc, true, u64, u8, zero,
  ℕ, ◌++◌, ◌+◌, ◌>>>◌, ◌∷◌,
}
use libpanaudia_core.Cache.Wire.{CacheOp, is_cache_envelope, decode_cache_op}
use libpanaudia_core.Cache.Map.{
  MergeResult, accepted, tombstoned, rejected, CacheMap, empty_map, merge, size,
}

-- `elements` of an array, `member` of an object.
pub record Json (J : Type 0) : Type 0 where
  pub parse : List ℕ → Option J
  pub is_object : J → Bool
  pub elements : J → Option (List J)
  pub member : J → List ℕ → Option J
  pub string : J → Option (List ℕ)
  pub boolean : J → Option Bool
  pub dump : J → List ℕ

-- The eight bytes, last to first.
unfoldable pub resume_bytes : ℕ → ℕ → List ℕ → List ℕ
resume_bytes zero op_id bytes = bytes
resume_bytes (suc n) op_id bytes = resume_bytes n (op_id >>> 8) (u8 op_id ∷ bytes)

unfoldable pub encode_resume_op_id : ℕ → List ℕ
unfolding resume_bytes
encode_resume_op_id op_id = resume_bytes 8 op_id []

pub record TopicValue : Type 0 where
  pub key : List ℕ
  pub value : List ℕ

pub record MergeBatchResult : Type 0 where
  pub accepted_values : List TopicValue
  pub tombstoned_keys : List (List ℕ)

pub record MergeDebugInfo : Type 0 where
  pub topic : List ℕ
  pub op_id : ℕ
  pub op_count : ℕ
  pub accepted_keys : List (List ℕ)
  pub tombstoned_keys : List (List ℕ)
  pub rejected_keys : List (List ℕ)

-- `debug` has the calls of the debug handler.
pub record TopicMerger : Type 0 where
  pub cache : CacheMap
  pub has_debug_handler : Bool
  pub updates_received : ℕ
  pub errors_dropped : ℕ
  pub debug : List MergeDebugInfo

-- What an envelope has come to, operation by operation.
pub record Batch : Type 0 where
  pub cache : CacheMap
  pub result : MergeBatchResult
  pub rejected_keys : List (List ℕ)
  pub updates : ℕ

abbrev key_name : List ℕ
key_name = b'k' ∷ b'e' ∷ b'y' ∷ []

abbrev value_name : List ℕ
value_name = b'v' ∷ b'a' ∷ b'l' ∷ b'u' ∷ b'e' ∷ []

abbrev tombstone_name : List ℕ
tombstone_name = b't' ∷ b'o' ∷ b'm' ∷ b'b' ∷ b's' ∷ b't' ∷ b'o' ∷ b'n' ∷ b'e' ∷ []

-- The result of a merge goes to its bucket.
unfoldable pub record_result : CacheOp → MergeResult × CacheMap → Batch → Batch
record_result op (accepted, cache) b = record b {
  cache = cache;
  result = record (b.result) {
    accepted_values = b.result.accepted_values ++ (record { key = op.key; value = op.value } ∷ []);
  };
  updates = u64 (b.updates + 1);
}
record_result op (tombstoned, cache) b = record b {
  cache = cache;
  result = record (b.result) { tombstoned_keys = b.result.tombstoned_keys ++ (op.key ∷ []) };
  updates = u64 (b.updates + 1);
}
record_result op (rejected, cache) b = record b {
  cache = cache;
  rejected_keys = b.rejected_keys ++ (op.key ∷ []);
}

unfoldable pub process_op : Option CacheOp → Batch → Batch
unfolding record_result merge
process_op none b = b
process_op (some op) b = record_result op (merge b.cache op) b

pub topic_value_key : TopicValue → List ℕ
topic_value_key v = v.key

-- The counters, and the call of the debug handler.
unfoldable pub finish : CacheOp → ℕ → TopicMerger → Batch → Option MergeBatchResult × TopicMerger
finish envelope op_count m b =
    let info : MergeDebugInfo = record {
      topic = envelope.topic;
      op_id = envelope.op_id;
      op_count = op_count;
      accepted_keys = map topic_value_key b.result.accepted_values;
      tombstoned_keys = b.result.tombstoned_keys;
      rejected_keys = b.rejected_keys;
    } in
    (
      some b.result,
      record m {
        cache = b.cache;
        updates_received = b.updates;
        debug = if m.has_debug_handler then m.debug ++ (info ∷ []) else m.debug;
      },
    )

unfoldable pub drop_envelope : TopicMerger → Option MergeBatchResult × TopicMerger
drop_envelope m = (none, record m { errors_dropped = u64 (m.errors_dropped + 1) })

unfoldable pub start_batch : TopicMerger → Batch
start_batch m = record {
  cache = m.cache;
  result = record { accepted_values = []; tombstoned_keys = [] };
  rejected_keys = [];
  updates = m.updates_received;
}

module _ {J : Type 0} (json : Json J) where
  unfoldable pub key_of : Option J → Option (List ℕ)
  key_of none = none
  key_of (some j) = json.string j

  unfoldable pub tombstone_of : Option J → Bool
  tombstone_of none = false
  tombstone_of (some j) = either_way (json.boolean j)
    where
      either_way : Option Bool → Bool
      either_way none = false
      either_way (some b) = b

  unfoldable pub value_of : Bool → Option J → List ℕ
  value_of true j = []
  value_of false none = []
  value_of false (some j) = json.dump j

  -- An operation needs a key that is a string and not empty.
  unfoldable pub with_key : CacheOp → J → Option (List ℕ) → Option CacheOp
  unfolding tombstone_of value_of
  with_key envelope jop none = none
  with_key envelope jop (some []) = none
  with_key envelope jop (some (b ∷ bs)) =
      let tomb = tombstone_of (json.member jop tombstone_name) in
      some (record envelope {
        key = b ∷ bs;
        value = value_of tomb (json.member jop value_name);
        tombstone = tomb;
      })

  unfoldable pub op_of : CacheOp → J → Option CacheOp
  unfolding with_key key_of
  op_of envelope jop =
      if json.is_object jop then with_key envelope jop (key_of (json.member jop key_name)) else none

  unfoldable pub process_one_op : CacheOp → J → Batch → Batch
  unfolding process_op op_of
  process_one_op envelope jop b = process_op (op_of envelope jop) b

  unfoldable pub process_all : CacheOp → List J → Batch → Batch
  unfolding process_one_op
  process_all envelope [] b = b
  process_all envelope (j ∷ js) b = process_all envelope js (process_one_op envelope j b)

  -- A batch, a single operation, or neither.
  unfoldable pub ops_in : J → Option (List J) → Option (List J)
  ops_in j (some js) = some js
  ops_in j none = if json.is_object j then some (j ∷ []) else none

  unfoldable pub json_ops : Option J → Option (List J)
  unfolding ops_in
  json_ops none = none
  json_ops (some j) = ops_in j (json.elements j)

  unfoldable pub apply_ops :
      CacheOp → Option (List J) → TopicMerger → Option MergeBatchResult × TopicMerger
  unfolding drop_envelope finish process_all start_batch
  apply_ops envelope none m = drop_envelope m
  apply_ops envelope (some js) m =
      finish envelope (length js) m (process_all envelope js (start_batch m))

  unfoldable pub apply_decoded :
      Option CacheOp → TopicMerger → Option MergeBatchResult × TopicMerger
  unfolding drop_envelope apply_ops json_ops
  apply_decoded none m = drop_envelope m
  apply_decoded (some envelope) m = apply_ops envelope (json_ops (json.parse envelope.value)) m

  unfoldable pub apply_envelope : List ℕ → TopicMerger → Option MergeBatchResult × TopicMerger
  unfolding apply_decoded drop_envelope is_cache_envelope decode_cache_op
  apply_envelope bytes m =
      if is_cache_envelope bytes then apply_decoded (decode_cache_op bytes) m else drop_envelope m

-- The merger's own map, or a map that it shares.
unfoldable pub new_merger : Option CacheMap → TopicMerger
unfolding empty_map
new_merger none = record {
  cache = empty_map;
  has_debug_handler = false;
  updates_received = 0;
  errors_dropped = 0;
  debug = [];
}
new_merger (some shared) = record {
  cache = shared;
  has_debug_handler = false;
  updates_received = 0;
  errors_dropped = 0;
  debug = [];
}

unfoldable pub resume_op_id : TopicMerger → ℕ
resume_op_id m = m.cache.highest_op_id

unfoldable pub set_debug_handler : Bool → TopicMerger → TopicMerger
set_debug_handler handler m = record m { has_debug_handler = handler }

pub record TopicMergerStats : Type 0 where
  pub updates_received : ℕ
  pub errors_dropped : ℕ
  pub entry_count : ℕ

unfoldable pub stats : TopicMerger → TopicMergerStats
unfolding size
stats m = record {
  updates_received = m.updates_received;
  errors_dropped = m.errors_dropped;
  entry_count = size m.cache;
}
