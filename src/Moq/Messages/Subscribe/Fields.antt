-- ===== src/Moq/Messages/Subscribe/Fields.antt =====
-- What the loop over the parameters of a SUBSCRIBE leaves in a field, in whatever order they stand.
use libpanaudia_core.Prelude.{
  All, Bool-cases, List, [], arith, false, inl, inr, refl, true, ℕ, ◌==◌, ◌∙◌, ◌∷◌, ◌≡◌,
}
use libpanaudia_core.Moq.Params.Sorting.{has_key}
use libpanaudia_core.Moq.Params.{KvpParam}
use libpanaudia_core.Moq.Messages.Subscribe.{
  SubscribeResult, subscribe_param, apply_subscribe_params,
}

-- A field that no parameter changes.
pub apply_keeps {ℓ} :
    {B : Type ℓ} (f : SubscribeResult → B)
    → ((r : SubscribeResult) (p : KvpParam) → f (subscribe_param r p) ≡ f r)
    → (r : SubscribeResult) (ps : List KvpParam) → f (apply_subscribe_params r ps) ≡ f r
unfolding apply_subscribe_params
apply_keeps f same r [] = refl
apply_keeps f same r (p ∷ ps) = apply_keeps f same (subscribe_param r p) ps ∙ same r p

-- A field that the parameters of one key set, all of them to the same value.
pub record IsSetBy (f : SubscribeResult → ℕ) (k v : ℕ) (Sets : KvpParam → Type 0) : Type 0 where
  pub hit :
      (r : SubscribeResult) (p : KvpParam)
      → (p.key == k) ≡ true
      → Sets p
      → f (subscribe_param r p) ≡ v
  pub miss :
      (r : SubscribeResult) (p : KvpParam) → (p.key == k) ≡ false → f (subscribe_param r p) ≡ f r

module _ {f : SubscribeResult → ℕ} {k v : ℕ} {Sets : KvpParam → Type 0}
    (s : IsSetBy f k v Sets) where
  stays_set :
      (r : SubscribeResult) (ps : List KvpParam)
      → All Sets ps
      → f r ≡ v
      → f (apply_subscribe_params r ps) ≡ v
  unfolding apply_subscribe_params
  stays_set r [] h e = e
  stays_set r (p ∷ ps) h e =
      stays_set (subscribe_param r p) ps h.1
        (elim (Bool-cases (p.key == k)) [ inl t ↦ s.hit r p t h.0 | inr t ↦ s.miss r p t ∙ e ])

  pub apply_sets :
      (r : SubscribeResult) (ps : List KvpParam)
      → All Sets ps
      → has_key k ps ≡ true
      → f (apply_subscribe_params r ps) ≡ v
  unfolding apply_subscribe_params has_key
  apply_sets r [] h e = ground arith
  apply_sets r (p ∷ ps) h e = elim (Bool-cases (p.key == k)) [
    | inl t ↦ stays_set (subscribe_param r p) ps h.1 (s.hit r p t h.0)
    | inr t ↦ apply_sets (subscribe_param r p) ps h.1 (ground arith)
  ]
