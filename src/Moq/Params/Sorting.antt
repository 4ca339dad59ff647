-- ===== src/Moq/Params/Sorting.antt =====
-- The order in which encode_params writes: ascending keys, and the same parameters.
use libpanaudia_core.Prelude.{
  All, Bool, Bool-cases, List, [], ap, arith, false, inl, inr, leb, length, refl, suc, ℕ, ◌==◌,
  ◌||◌, ◌∙◌, ◌∷◌, ◌≡◌, ◌≤◌,
}
use mathlib.Core.List.{Perm}
use mathlib.Core.List.Perm
use libpanaudia_core.Moq.Params.{KvpParam, insert_param, sort_params}

-- Ascending from `lo` on.
abbrev pub Ascends : ℕ → List KvpParam → Type 0
Ascends lo [] = Unit {0}
Ascends lo (p ∷ ps) = (lo ≤ p.key) × Ascends p.key ps

insert_param-Ascends :
    (lo : ℕ) (p : KvpParam) (qs : List KvpParam)
    → lo ≤ p.key
    → Ascends lo qs
    → Ascends lo (insert_param p qs)
unfolding insert_param
insert_param-Ascends lo p [] h a = (h, tt)
insert_param-Ascends lo p (q ∷ qs) h a = ground (arith, insert_param-Ascends q.key p qs)

pub sort_params-Ascends : (ps : List KvpParam) → Ascends 0 (sort_params ps)
unfolding sort_params
sort_params-Ascends [] = tt
sort_params-Ascends (p ∷ ps) =
    insert_param-Ascends 0 p (sort_params ps) (omega arith) (sort_params-Ascends ps)

insert_param-perm : (p : KvpParam) (qs : List KvpParam) → Perm (insert_param p qs) (p ∷ qs)
unfolding insert_param
insert_param-perm p [] = Perm.refl (p ∷ [])
insert_param-perm p (q ∷ qs) = elim (Bool-cases (leb p.key q.key)) [
  | inl e ↦ rw e (Perm.refl (p ∷ q ∷ qs))
  | inr e ↦ rw e (Perm.trans (Perm.cons q (insert_param-perm p qs)) (Perm.swap p q qs))
]

-- Sorting keeps every parameter, each as often as it was given.
pub sort_params-perm : (ps : List KvpParam) → Perm (sort_params ps) ps
unfolding sort_params
sort_params-perm [] = Perm.refl []
sort_params-perm (p ∷ ps) =
    Perm.trans (insert_param-perm p (sort_params ps)) (Perm.cons p (sort_params-perm ps))

insert_param-All :
    (P : KvpParam → Type 0) (p : KvpParam) (qs : List KvpParam)
    → P p
    → All P qs
    → All P (insert_param p qs)
unfolding insert_param
insert_param-All P p [] h a = (h, tt)
insert_param-All P p (q ∷ qs) h a = elim (Bool-cases (leb p.key q.key)) [
  | inl e ↦ rw e (h, a)
  | inr e ↦ rw e (a.0, insert_param-All P p qs h a.1)
]

pub sort_params-All :
    (P : KvpParam → Type 0) (ps : List KvpParam) → All P ps → All P (sort_params ps)
unfolding sort_params
sort_params-All P [] a = tt
sort_params-All P (p ∷ ps) a = insert_param-All P p (sort_params ps) a.0 (sort_params-All P ps a.1)

insert_param-length :
    (p : KvpParam) (qs : List KvpParam) → length (insert_param p qs) ≡ suc (length qs)
unfolding insert_param
insert_param-length p [] = refl
insert_param-length p (q ∷ qs) = ground (arith, insert_param-length p qs)

pub length-sort_params : (ps : List KvpParam) → length (sort_params ps) ≡ length ps
unfolding sort_params
length-sort_params [] = refl
length-sort_params (p ∷ ps) =
    omega (arith, insert_param-length p (sort_params ps), length-sort_params ps)

-- Whether a parameter has the key.
unfoldable pub has_key : ℕ → List KvpParam → Bool
has_key k [] = false
has_key k (p ∷ ps) = (p.key == k) || has_key k ps

has_key-insert_param :
    (k : ℕ) (p : KvpParam) (ps : List KvpParam)
    → has_key k (insert_param p ps) ≡ ((p.key == k) || has_key k ps)
unfolding has_key insert_param
has_key-insert_param k p [] = refl
has_key-insert_param k p (q ∷ qs) = let ih = has_key-insert_param k p qs in ground arith

pub has_key-sort_params : (k : ℕ) (ps : List KvpParam) → has_key k (sort_params ps) ≡ has_key k ps
unfolding has_key sort_params
has_key-sort_params k [] = refl
has_key-sort_params k (p ∷ ps) =
    has_key-insert_param k p (sort_params ps)
    ∙ ap (λ b. (p.key == k) || b) (has_key-sort_params k ps)
