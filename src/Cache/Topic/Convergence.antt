-- ===== src/Cache/Topic/Convergence.antt =====
-- Mergers that receive the same operations, by whatever envelopes, agree.
use libpanaudia_core.Prelude.{
  All, Bool-cases, List, Option, [], ap, false, if◌then◌else◌, inl, inr, none, refl, some, sym, ℕ,
  ◌∙◌, ◌∷◌, ◌≡◌,
}
use libpanaudia_core.Cache.Wire.{CacheOp, is_cache_envelope, decode_cache_op}
use libpanaudia_core.Cache.Map.{
  MergeResult, accepted, tombstoned, rejected, CacheMap, empty_map, entry_of, merge, get,
}
use libpanaudia_core.Cache.Map.Convergence.{Among, deliver, deliver_order}
use libpanaudia_core.Cache.Topic.{
  Json, TopicMerger, Batch, record_result, process_op, finish, drop_envelope, start_batch, op_of,
  process_one_op, process_all, json_ops, apply_ops, apply_decoded, apply_envelope, new_merger,
}

abbrev push : Option CacheOp → List CacheOp → List CacheOp
push none ops = ops
push (some op) ops = op ∷ ops

-- A merge is recorded with the map that it left.
cache-record_result :
    (op : CacheOp) (r : MergeResult × CacheMap) (b : Batch) → (record_result op r b).cache ≡ r.1
unfolding record_result
cache-record_result op (accepted, cache) b = refl
cache-record_result op (tombstoned, cache) b = refl
cache-record_result op (rejected, cache) b = refl

cache-process_op :
    (c : CacheMap) (ops : List CacheOp) (o : Option CacheOp) (b : Batch)
    → b.cache ≡ deliver c ops
    → (process_op o b).cache ≡ deliver c (push o ops)
unfolding process_op deliver
cache-process_op c ops none b h = h
cache-process_op c ops (some op) b h =
    cache-record_result op (merge b.cache op) b ∙ ap (λ m. (merge m op).1) h

module _ {J : Type 0} (json : Json J) where
  -- The operations that the envelopes carry, the last to arrive first in the list.
  unfoldable pub arrived : CacheOp → List J → List CacheOp → List CacheOp
  arrived envelope [] ops = ops
  arrived envelope (j ∷ js) ops = arrived envelope js (push (op_of json envelope j) ops)

  unfoldable pub arrived_ops : CacheOp → Option (List J) → List CacheOp → List CacheOp
  unfolding arrived
  arrived_ops envelope none ops = ops
  arrived_ops envelope (some js) ops = arrived envelope js ops

  unfoldable pub arrived_decoded : Option CacheOp → List CacheOp → List CacheOp
  unfolding arrived_ops
  arrived_decoded none ops = ops
  arrived_decoded (some envelope) ops =
      arrived_ops envelope (json_ops json (json.parse envelope.value)) ops

  unfoldable pub arrivals : List (List ℕ) → List CacheOp → List CacheOp
  unfolding arrived_decoded
  arrivals [] ops = ops
  arrivals (bytes ∷ rest) ops =
      arrivals rest
        (if is_cache_envelope bytes then arrived_decoded (decode_cache_op bytes) ops else ops)

  -- The envelopes one after the other.
  unfoldable pub apply_envelopes : List (List ℕ) → TopicMerger → TopicMerger
  apply_envelopes [] m = m
  apply_envelopes (bytes ∷ rest) m = apply_envelopes rest (apply_envelope json bytes m).1

  cache-process_all :
      (c : CacheMap) (envelope : CacheOp) (js : List J) (ops : List CacheOp) (b : Batch)
      → b.cache ≡ deliver c ops
      → (process_all json envelope js b).cache ≡ deliver c (arrived envelope js ops)
  unfolding process_all process_one_op arrived
  cache-process_all c envelope [] ops b h = h
  cache-process_all c envelope (j ∷ js) ops b h =
      cache-process_all c envelope js (push (op_of json envelope j) ops) _
        (cache-process_op c ops (op_of json envelope j) b h)

  cache-apply_ops :
      (c : CacheMap) (envelope : CacheOp) (o : Option (List J)) (ops : List CacheOp)
      (m : TopicMerger)
      → m.cache ≡ deliver c ops
      → (apply_ops json envelope o m).1.cache ≡ deliver c (arrived_ops envelope o ops)
  unfolding apply_ops drop_envelope finish start_batch arrived_ops
  cache-apply_ops c envelope none ops m h = h
  cache-apply_ops c envelope (some js) ops m h =
      cache-process_all c envelope js ops (start_batch m) h

  cache-apply_decoded :
      (c : CacheMap) (o : Option CacheOp) (ops : List CacheOp) (m : TopicMerger)
      → m.cache ≡ deliver c ops
      → (apply_decoded json o m).1.cache ≡ deliver c (arrived_decoded o ops)
  unfolding apply_decoded drop_envelope arrived_decoded
  cache-apply_decoded c none ops m h = h
  cache-apply_decoded c (some envelope) ops m h =
      cache-apply_ops c envelope (json_ops json (json.parse envelope.value)) ops m h

  cache-apply_envelope :
      (c : CacheMap) (bytes : List ℕ) (ops : List CacheOp) (m : TopicMerger)
      → m.cache ≡ deliver c ops
      → (apply_envelope json bytes m).1.cache
        ≡ deliver c
            (if is_cache_envelope bytes then arrived_decoded (decode_cache_op bytes) ops else ops)
  unfolding apply_envelope drop_envelope
  cache-apply_envelope c bytes ops m h = elim (Bool-cases (is_cache_envelope bytes)) [
    | inl envelope ↦ rw envelope (cache-apply_decoded c (decode_cache_op bytes) ops m h)
    | inr other ↦ rw other h
  ]

  -- What a merger holds is the delivery, one by one, of the operations that its envelopes carry.
  cache-apply_envelopes :
      (c : CacheMap) (envelopes : List (List ℕ)) (ops : List CacheOp) (m : TopicMerger)
      → m.cache ≡ deliver c ops
      → (apply_envelopes envelopes m).cache ≡ deliver c (arrivals envelopes ops)
  unfolding apply_envelopes arrivals
  cache-apply_envelopes c [] ops m h = h
  cache-apply_envelopes c (bytes ∷ rest) ops m h =
      cache-apply_envelopes c rest _ (apply_envelope json bytes m).1
        (cache-apply_envelope c bytes ops m h)

  -- Two new mergers, of which the envelopes carry the same operations, in any order, batches and
  -- repetition, agree on every key, if none is a tombstone and one operation id stands for one
  -- value of a key. An envelope that is dropped carries none.
  pub apply_envelopes-order :
      (xs ys : List (List ℕ)) (k : List ℕ)
      → All (λ o. o.tombstone ≡ false) (arrivals xs [])
      → All (λ o. o.tombstone ≡ false) (arrivals ys [])
      → ((o : CacheOp) → Among (λ z. z ≡ o) (arrivals xs []) → Among (λ z. z ≡ o) (arrivals ys []))
      → ((o : CacheOp) → Among (λ z. z ≡ o) (arrivals ys []) → Among (λ z. z ≡ o) (arrivals xs []))
      → ((o q : CacheOp)
          → Among (λ z. z ≡ o) (arrivals xs [])
          → Among (λ z. z ≡ q) (arrivals xs [])
          → o.key ≡ q.key
          → o.op_id ≡ q.op_id
          → entry_of o ≡ entry_of q)
      → get (apply_envelopes xs (new_merger none)).cache k
        ≡ get (apply_envelopes ys (new_merger none)).cache k
  unfolding new_merger deliver
  apply_envelopes-order xs ys k tx ty to from one =
      ap (λ c. get c k) (cache-apply_envelopes empty_map xs [] (new_merger none) refl)
      ∙ (unfold empty_map in
          deliver_order empty_map (arrivals xs []) (arrivals ys []) k refl tx ty to from one)
      ∙ sym (ap (λ c. get c k) (cache-apply_envelopes empty_map ys [] (new_merger none) refl))
