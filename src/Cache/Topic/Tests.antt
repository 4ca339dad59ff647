-- ===== src/Cache/Topic/Tests.antt =====
-- A run of two mergers that receive two envelopes in different orders. Of the texts that are read
-- here, each is its own key and value.
use libpanaudia_core.Prelude.{
  All, List, [], ap, arith, false, inl, inr, none, refl, some, subst, sym, true, ℕ, ◌∙◌, ◌∷◌, ◌≡◌,
}
use libpanaudia_core.Cache.Wire.{
  CacheOp, read_u16_be, read_u32_be, read_u64_be, is_cache_envelope, decode_value, decode_key,
  decode_topic, decode_cache_op,
}
use libpanaudia_core.Cache.Map.{entry_of, get}
use libpanaudia_core.Cache.Map.Convergence.{Among}
use libpanaudia_core.Cache.Topic.{
  Json, key_of, tombstone_of, value_of, with_key, op_of, ops_in, json_ops, new_merger,
}
use libpanaudia_core.Cache.Topic.Convergence.{
  arrived, arrived_ops, arrived_decoded, arrivals, apply_envelopes, apply_envelopes-order,
}

abbrev texts : Json (List ℕ)
texts = record {
  parse = λ bytes. some bytes;
  is_object = λ j. true;
  elements = λ j. none;
  member = λ j name. some j;
  string = λ j. some j;
  boolean = λ j. none;
  dump = λ j. j;
}

abbrev carried : ℕ → ℕ → CacheOp
carried text op_id = record {
  topic = [];
  key = text ∷ [];
  value = text ∷ [];
  op_id = op_id;
  node_id = 1;
  tombstone = false;
}

-- Envelopes with the operation ids 5 and 6.
abbrev early : List ℕ
early = 202 ∷ 0 ∷ 0 ∷ 0 ∷ 0 ∷ 0 ∷ 0 ∷ 0 ∷ 0 ∷ 5 ∷ 0 ∷ 0 ∷ 0 ∷ 1 ∷ 0 ∷ 0 ∷ 0 ∷ 0 ∷ 0 ∷ 0 ∷ 1 ∷ 7 ∷ []

abbrev late : List ℕ
late = 202 ∷ 0 ∷ 0 ∷ 0 ∷ 0 ∷ 0 ∷ 0 ∷ 0 ∷ 0 ∷ 6 ∷ 0 ∷ 0 ∷ 0 ∷ 1 ∷ 0 ∷ 0 ∷ 0 ∷ 0 ∷ 0 ∷ 0 ∷ 1 ∷ 8 ∷ []

in_order_lem : arrivals texts (early ∷ late ∷ []) [] ≡ carried 8 6 ∷ carried 7 5 ∷ []
unfolding arrivals arrived_decoded arrived_ops arrived is_cache_envelope decode_cache_op
    decode_topic decode_key decode_value json_ops ops_in op_of with_key key_of value_of tombstone_of
    read_u64_be read_u32_be read_u16_be
in_order_lem = refl

reversed_lem : arrivals texts (late ∷ early ∷ []) [] ≡ carried 7 5 ∷ carried 8 6 ∷ []
unfolding arrivals arrived_decoded arrived_ops arrived is_cache_envelope decode_cache_op
    decode_topic decode_key decode_value json_ops ops_in op_of with_key key_of value_of tombstone_of
    read_u64_be read_u32_be read_u16_be
reversed_lem = refl

swapped : (a b o : CacheOp) → Among (λ z. z ≡ o) (a ∷ b ∷ []) → Among (λ z. z ≡ o) (b ∷ a ∷ [])
swapped a b o (inl p) = inr (inl p)
swapped a b o (inr (inl p)) = inl p
swapped a b o (inr (inr e)) = elim e [ ]

same_id : {o p : CacheOp} → o ≡ p → o.op_id ≡ p.op_id
same_id e = ap (λ (z : CacheOp). z.op_id) e

one_value :
    (o q : CacheOp)
    → Among (λ z. z ≡ o) (carried 8 6 ∷ carried 7 5 ∷ [])
    → Among (λ z. z ≡ q) (carried 8 6 ∷ carried 7 5 ∷ [])
    → o.key ≡ q.key
    → o.op_id ≡ q.op_id
    → entry_of o ≡ entry_of q
one_value o q (inl a) (inl b) k h = ap entry_of (sym a ∙ b)
one_value o q (inr (inl a)) (inr (inl b)) k h = ap entry_of (sym a ∙ b)
one_value o q (inl a) (inr (inl b)) k h = absurd (omega (arith, same_id a, h, same_id b))
one_value o q (inr (inl a)) (inl b) k h = absurd (omega (arith, same_id a, h, same_id b))
one_value o q (inr (inr e)) m k h = elim e [ ]
one_value o q (inl a) (inr (inr e)) k h = elim e [ ]
one_value o q (inr (inl a)) (inr (inr e)) k h = elim e [ ]

order_of_envelopes_example :
    get (apply_envelopes texts (early ∷ late ∷ []) (new_merger none)).cache (7 ∷ [])
    ≡ get (apply_envelopes texts (late ∷ early ∷ []) (new_merger none)).cache (7 ∷ [])
order_of_envelopes_example =
    apply_envelopes-order texts (early ∷ late ∷ []) (late ∷ early ∷ []) (7 ∷ [])
      (subst (All (λ o. o.tombstone ≡ false)) (sym in_order_lem) (refl, (refl, tt)))
      (subst (All (λ o. o.tombstone ≡ false)) (sym reversed_lem) (refl, (refl, tt)))
      (λ o m.
        subst (Among (λ z. z ≡ o)) (sym reversed_lem)
          (swapped (carried 8 6) (carried 7 5) o (subst (Among (λ z. z ≡ o)) in_order_lem m)))
      (λ o m.
        subst (Among (λ z. z ≡ o)) (sym in_order_lem)
          (swapped (carried 7 5) (carried 8 6) o (subst (Among (λ z. z ≡ o)) reversed_lem m)))
      (λ o q m n.
        one_value o q (subst (Among (λ z. z ≡ o)) in_order_lem m)
          (subst (Among (λ z. z ≡ q)) in_order_lem n))
