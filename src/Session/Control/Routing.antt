-- ===== src/Session/Control/Routing.antt =====
-- What a new request does to the ids of the tracks and the map that leads from them.
use libpanaudia_core.Prelude.{
  Bool-cases, List, Option, [], ap, arith, false, inl, inr, none, refl, some, subst, suc, sym, zero,
  ℕ, ◌*◌, ◌+◌, ◌<◌, ◌==◌, ◌^◌, ◌∙◌, ◌∷◌, ◌≡◌, ◌≤◌, ◌⊎◌,
}
use libpanaudia_core.Session.Track.{TrackHandle}
use libpanaudia_core.Session.State.{MoqState}
use libpanaudia_core.Session.Control.{lookup, assign, set_track, set_request_id, take_request_id}
use libpanaudia_core.Session.Media.{nth}

pub lookup-assign : (k v : ℕ) (m : List (ℕ × ℕ)) → lookup k (assign k v m) ≡ some v
unfolding lookup assign
lookup-assign k v [] = ground arith
lookup-assign k v ((j, w) ∷ m) = let rest = lookup-assign k v m in ground arith

lookup-assign_other :
    (k v j : ℕ) (m : List (ℕ × ℕ)) → (j == k) ≡ false → lookup j (assign k v m) ≡ lookup j m
unfolding lookup assign
lookup-assign_other k v j [] h = ground arith
lookup-assign_other k v j ((i, w) ∷ m) h = let rest = lookup-assign_other k v j m h in ground arith

or_default : {T : Type 0} → T → Option T → T
or_default d none = d
or_default d (some a) = a

some-injective : {T : Type 0} {a b : T} → some a ≡ some b → a ≡ b
unfolding or_default
some-injective {a = a} p = ap (or_default a) p

module _ {A H : Type 0} where
  nth-set_track :
      (i : ℕ) (f : TrackHandle A H → TrackHandle A H) (ts : List (TrackHandle A H))
      (t : TrackHandle A H)
      → nth i (set_track i f ts) ≡ some t
      → (u : TrackHandle A H) × (f u ≡ t)
  unfolding nth set_track
  nth-set_track i f [] t h = ground arith
  nth-set_track zero f (u ∷ ts) t h = (u, some-injective h)
  nth-set_track (suc i) f (u ∷ ts) t h = nth-set_track i f ts t h

  pub nth-set_track_same :
      (i : ℕ) (f : TrackHandle A H → TrackHandle A H) (ts : List (TrackHandle A H))
      (t : TrackHandle A H)
      → nth i ts ≡ some t
      → nth i (set_track i f ts) ≡ some (f t)
  unfolding nth set_track
  nth-set_track_same i f [] t h = ground arith
  nth-set_track_same zero f (u ∷ ts) t h = ap (λ v. some (f v)) (some-injective h)
  nth-set_track_same (suc i) f (u ∷ ts) t h = nth-set_track_same i f ts t h

  pub nth-set_track_other :
      (j i : ℕ) (f : TrackHandle A H → TrackHandle A H) (ts : List (TrackHandle A H))
      → (j == i) ≡ false
      → nth j (set_track i f ts) ≡ nth j ts
  unfolding nth set_track
  nth-set_track_other j i f [] h = refl
  nth-set_track_other zero zero f (u ∷ ts) h = ground arith
  nth-set_track_other zero (suc i) f (u ∷ ts) h = refl
  nth-set_track_other (suc j) zero f (u ∷ ts) h = refl
  nth-set_track_other (suc j) (suc i) f (u ∷ ts) h = nth-set_track_other j i f ts (ground arith)

  -- The request ids of the tracks in `P` lead back to them; `left` more requests can be made.
  pub record IsRouted (P : ℕ → Type 0) (left : ℕ) (m : MoqState A H) : Type 0 where
    pub routed :
        (j : ℕ) (t : TrackHandle A H)
        → P j
        → nth j m.tracks ≡ some t
        → lookup t.moq_request_id m.request_id_map ≡ some j
    pub bounded : (k v : ℕ) → lookup k m.request_id_map ≡ some v → k < m.next_request_id
    pub room : m.next_request_id + 2 * left < 2 ^ 64

  pub weaken-IsRouted :
      (P Q : ℕ → Type 0) (b c : ℕ) (m : MoqState A H)
      → ((j : ℕ) → Q j → P j)
      → c ≤ b
      → IsRouted P b m
      → IsRouted Q c m
  weaken-IsRouted P Q b c m f k h = record {
    routed = λ j t q. h.routed j t (f j q);
    bounded = h.bounded;
    room = omega (arith, h.room);
  }

  -- The track that has got a new request.
  fresh_route :
      (i : ℕ) (m : MoqState A H) (t : TrackHandle A H)
      → nth i (take_request_id i m).tracks ≡ some t
      → lookup t.moq_request_id (take_request_id i m).request_id_map ≡ some i
  unfolding take_request_id set_request_id
  fresh_route i m t n =
      let (u, e) = nth-set_track i (set_request_id m.next_request_id) m.tracks t n in
      subst (λ k. lookup k (assign m.next_request_id i m.request_id_map) ≡ some i)
        (ap (λ (w : TrackHandle A H). w.moq_request_id) e)
        (lookup-assign m.next_request_id i m.request_id_map)

  -- Another track: its id is older than the new one.
  old_route :
      (P : ℕ → Type 0) (b i j : ℕ) (m : MoqState A H) (t : TrackHandle A H)
      → IsRouted P b m
      → (j == i) ≡ false
      → P j
      → nth j (take_request_id i m).tracks ≡ some t
      → lookup t.moq_request_id (take_request_id i m).request_id_map ≡ some j
  unfolding take_request_id
  old_route P b i j m t h d q n =
      let before_ : nth j m.tracks ≡ some t =
        sym (nth-set_track_other j i (set_request_id m.next_request_id) m.tracks d) ∙ n in
      let route = h.routed j t q before_ in
      let older = h.bounded t.moq_request_id j route in
      lookup-assign_other m.next_request_id i t.moq_request_id m.request_id_map (ground arith)
      ∙ route

  bounded-take_request_id :
      (P : ℕ → Type 0) (b i k v : ℕ) (m : MoqState A H)
      → IsRouted P (b + 1) m
      → lookup k (take_request_id i m).request_id_map ≡ some v
      → k < (take_request_id i m).next_request_id
  unfolding take_request_id
  bounded-take_request_id P b i k v m h q =
      let room = h.room in
      elim (Bool-cases (k == m.next_request_id)) [
        | inl same ↦ ground arith
        | inr other ↦
            let older =
              h.bounded k v
                (sym (lookup-assign_other m.next_request_id i k m.request_id_map other) ∙ q) in
            omega arith
      ]

  room-take_request_id :
      (b i : ℕ) (m : MoqState A H)
      → m.next_request_id + 2 * (b + 1) < 2 ^ 64
      → (take_request_id i m).next_request_id + 2 * b < 2 ^ 64
  unfolding take_request_id
  room-take_request_id b i m h = omega arith

  -- A new request for the track `i`.
  pub take_request_id-IsRouted :
      (P : ℕ → Type 0) (b i : ℕ) (m : MoqState A H)
      → IsRouted P (b + 1) m
      → IsRouted (λ j. P j ⊎ (j ≡ i)) b (take_request_id i m)
  take_request_id-IsRouted P b i m h = record {
    routed = route;
    bounded = λ k v q. bounded-take_request_id P b i k v m h q;
    room = room-take_request_id b i m h.room;
  }
    where
      route :
          (j : ℕ) (t : TrackHandle A H)
          → P j ⊎ (j ≡ i)
          → nth j (take_request_id i m).tracks ≡ some t
          → lookup t.moq_request_id (take_request_id i m).request_id_map ≡ some j
      route j t q n = elim (Bool-cases (j == i)) [
        | inl same ↦
            let e : i ≡ j = ground arith in
            subst
              (λ k.
                nth k (take_request_id i m).tracks ≡ some t
                → lookup t.moq_request_id (take_request_id i m).request_id_map ≡ some k)
              e (fresh_route i m t) n
        | inr other ↦ old_route P (b + 1) i j m t h other (was other q) n
      ]
        where
          was : (j == i) ≡ false → P j ⊎ (j ≡ i) → P j
          was d (inl p) = p
          was d (inr e) = absurd (ground arith)
