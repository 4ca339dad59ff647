-- ===== src/Session/Control/Orchestration.antt =====
-- start_orchestration: the request id of each track leads back to the track.
use libpanaudia_core.Prelude.{
  Bool, Bool-cases, List, [], arith, either, false, inl, inr, length, some, true, ℕ, ◌+◌, ◌<◌, ◌==◌,
  ◌^◌, ◌∷◌, ◌≡◌, ◌≤◌, ◌⊎◌,
}
use libpanaudia_core.Transport.{Transport}
use libpanaudia_core.Session.Track.{TrackHandle, is_outbound}
use libpanaudia_core.Session.State.{MoqState}
use libpanaudia_core.Session.Control.{
  lookup, subscribe_track, announce_track, subscribe_tracks, announce_tracks, start_orchestration,
}
use libpanaudia_core.Session.Control.Requests.{inbound_count, outbound_count, counts}
use libpanaudia_core.Session.Media.{nth}
use libpanaudia_core.Session.Control.Routing.{IsRouted, weaken-IsRouted, take_request_id-IsRouted}

-- A test of a direction that goes the other way.
clash : {T : Type 0} {b : Bool} → b ≡ true → b ≡ false → T
clash p q = absurd (ground arith)

module _ {A H : Type 0} where
  -- The inbound and the outbound tracks of a list, by index, from `i` on.
  InboundAt : ℕ → List (TrackHandle A H) → ℕ → Type 0
  InboundAt i [] j = ⊥
  InboundAt i (t ∷ ts) j =
      ((is_outbound t.config.direction ≡ false) × (j ≡ i)) ⊎ InboundAt (i + 1) ts j

  OutboundAt : ℕ → List (TrackHandle A H) → ℕ → Type 0
  OutboundAt i [] j = ⊥
  OutboundAt i (t ∷ ts) j =
      ((is_outbound t.config.direction ≡ true) × (j ≡ i)) ⊎ OutboundAt (i + 1) ts j

  one_of_both :
      (i j : ℕ) (ts : List (TrackHandle A H))
      → i ≤ j
      → j < i + length ts
      → InboundAt i ts j ⊎ OutboundAt i ts j
  unfolding InboundAt OutboundAt
  one_of_both i j [] k h = absurd (omega arith)
  one_of_both i j (t ∷ ts) k h = elim (Bool-cases (j == i)) [
    | inl here ↦
        let e : j ≡ i = ground arith in
        elim (Bool-cases (is_outbound t.config.direction)) [
          | inl out ↦ inr (inl (out, e))
          | inr in_ ↦ inl (inl (in_, e))
        ]
    | inr there ↦ elim (one_of_both (i + 1) j ts (ground arith) (omega arith)) [
      | inl in_ ↦ inl (inr in_)
      | inr out ↦ inr (inr out)
    ]
  ]

  subscribe_track-IsRouted :
      (host : ℕ → List (ℕ × List ℕ)) (jwt : List ℕ) (P : ℕ → Type 0) (b i : ℕ) (t : TrackHandle A H)
      (u : MoqState A H × Transport)
      → IsRouted P (b + 1) u.0
      → IsRouted (λ j. P j ⊎ (j ≡ i)) b (subscribe_track host jwt i t u).0
  unfolding subscribe_track
  subscribe_track-IsRouted host jwt P b i t (m, tr) h =
      take_request_id-IsRouted P b i _
        (record { routed = h.routed; bounded = h.bounded; room = h.room })

  announce_track-IsRouted :
      (P : ℕ → Type 0) (b i : ℕ) (t : TrackHandle A H) (u : MoqState A H × Transport)
      → IsRouted P (b + 1) u.0
      → IsRouted (λ j. P j ⊎ (j ≡ i)) b (announce_track i t u).0
  unfolding announce_track
  announce_track-IsRouted P b i t (m, tr) h = take_request_id-IsRouted P b i m h

  subscribe_tracks-IsRouted :
      (host : ℕ → List (ℕ × List ℕ)) (jwt : List ℕ) (P : ℕ → Type 0) (b i : ℕ)
      (ts : List (TrackHandle A H)) (u : MoqState A H × Transport)
      → IsRouted P (b + inbound_count ts) u.0
      → IsRouted (λ j. P j ⊎ InboundAt i ts j) b (subscribe_tracks host jwt i ts u).0
  unfolding subscribe_tracks inbound_count InboundAt
  subscribe_tracks-IsRouted host jwt P b i [] u h =
      weaken-IsRouted P (λ j. P j ⊎ ⊥) (b + 0) b u.0
        (λ j q. elim q [ inl p ↦ p | inr e ↦ absurd e ]) (omega arith) h
  subscribe_tracks-IsRouted host jwt P b i (t ∷ ts) u h =
      either
        (λ (w : MoqState A H × Transport).
          IsRouted (λ j. P j ⊎ InboundAt i (t ∷ ts) j) b (subscribe_tracks host jwt (i + 1) ts w).0)
        (is_outbound t.config.direction) u (subscribe_track host jwt i t u)
        (λ out.
          weaken-IsRouted (λ j. P j ⊎ InboundAt (i + 1) ts j) _ b b _ (passed out) (omega arith)
            (subscribe_tracks-IsRouted host jwt P b (i + 1) ts u (fewer_out out h)))
        (λ in_.
          weaken-IsRouted (λ j. (P j ⊎ (j ≡ i)) ⊎ InboundAt (i + 1) ts j) _ b b _ added
            (omega arith)
            (subscribe_tracks-IsRouted host jwt (λ j. P j ⊎ (j ≡ i)) b (i + 1) ts _
              (subscribe_track-IsRouted host jwt P (b + inbound_count ts) i t u (fewer_in in_ h))))
    where
      passed :
          is_outbound t.config.direction ≡ true
          → (j : ℕ) → P j ⊎ InboundAt i (t ∷ ts) j
          → P j ⊎ InboundAt (i + 1) ts j
      passed out j (inl p) = inl p
      passed out j (inr (inl (in_, e))) = clash out in_
      passed out j (inr (inr r)) = inr r

      added : (j : ℕ) → P j ⊎ InboundAt i (t ∷ ts) j → (P j ⊎ (j ≡ i)) ⊎ InboundAt (i + 1) ts j
      added j (inl p) = inl (inl p)
      added j (inr (inl (in_, e))) = inl (inr e)
      added j (inr (inr r)) = inr r

      fewer_out :
          is_outbound t.config.direction ≡ true
          → IsRouted P (b + inbound_count (t ∷ ts)) u.0
          → IsRouted P (b + inbound_count ts) u.0
      fewer_out out r =
          weaken-IsRouted P P (b + inbound_count (t ∷ ts)) (b + inbound_count ts) u.0 (λ j p. p)
            (ground arith) r

      fewer_in :
          is_outbound t.config.direction ≡ false
          → IsRouted P (b + inbound_count (t ∷ ts)) u.0
          → IsRouted P (b + inbound_count ts + 1) u.0
      fewer_in in_ r =
          weaken-IsRouted P P (b + inbound_count (t ∷ ts)) (b + inbound_count ts + 1) u.0 (λ j p. p)
            (ground arith) r

  announce_tracks-IsRouted :
      (P : ℕ → Type 0) (b i : ℕ) (ts : List (TrackHandle A H)) (u : MoqState A H × Transport)
      → IsRouted P (b + outbound_count ts) u.0
      → IsRouted (λ j. P j ⊎ OutboundAt i ts j) b (announce_tracks i ts u).0
  unfolding announce_tracks outbound_count OutboundAt
  announce_tracks-IsRouted P b i [] u h =
      weaken-IsRouted P (λ j. P j ⊎ ⊥) (b + 0) b u.0
        (λ j q. elim q [ inl p ↦ p | inr e ↦ absurd e ]) (omega arith) h
  announce_tracks-IsRouted P b i (t ∷ ts) u h =
      either
        (λ (w : MoqState A H × Transport).
          IsRouted (λ j. P j ⊎ OutboundAt i (t ∷ ts) j) b (announce_tracks (i + 1) ts w).0)
        (is_outbound t.config.direction) (announce_track i t u) u
        (λ out.
          weaken-IsRouted (λ j. (P j ⊎ (j ≡ i)) ⊎ OutboundAt (i + 1) ts j) _ b b _ added
            (omega arith)
            (announce_tracks-IsRouted (λ j. P j ⊎ (j ≡ i)) b (i + 1) ts _
              (announce_track-IsRouted P (b + outbound_count ts) i t u (fewer_in out h))))
        (λ in_.
          weaken-IsRouted (λ j. P j ⊎ OutboundAt (i + 1) ts j) _ b b _ (passed in_) (omega arith)
            (announce_tracks-IsRouted P b (i + 1) ts u (fewer_out in_ h)))
    where
      passed :
          is_outbound t.config.direction ≡ false
          → (j : ℕ) → P j ⊎ OutboundAt i (t ∷ ts) j
          → P j ⊎ OutboundAt (i + 1) ts j
      passed in_ j (inl p) = inl p
      passed in_ j (inr (inl (out, e))) = clash out in_
      passed in_ j (inr (inr r)) = inr r

      added : (j : ℕ) → P j ⊎ OutboundAt i (t ∷ ts) j → (P j ⊎ (j ≡ i)) ⊎ OutboundAt (i + 1) ts j
      added j (inl p) = inl (inl p)
      added j (inr (inl (out, e))) = inl (inr e)
      added j (inr (inr r)) = inr r

      fewer_out :
          is_outbound t.config.direction ≡ false
          → IsRouted P (b + outbound_count (t ∷ ts)) u.0
          → IsRouted P (b + outbound_count ts) u.0
      fewer_out out r =
          weaken-IsRouted P P (b + outbound_count (t ∷ ts)) (b + outbound_count ts) u.0 (λ j p. p)
            (ground arith) r

      fewer_in :
          is_outbound t.config.direction ≡ true
          → IsRouted P (b + outbound_count (t ∷ ts)) u.0
          → IsRouted P (b + outbound_count ts + 1) u.0
      fewer_in in_ r =
          weaken-IsRouted P P (b + outbound_count (t ∷ ts)) (b + outbound_count ts + 1) u.0
            (λ j p. p) (ground arith) r

  -- The state that the orchestration starts from.
  reset-IsRouted :
      (m : MoqState A H)
      → m.next_request_id ≡ 0
      → m.request_id_map ≡ []
      → length m.tracks < 2 ^ 62
      → IsRouted
          (λ j. ⊥)
          (0 + outbound_count m.tracks + inbound_count m.tracks)
          (record m { orchestration_started = true })
  unfolding lookup
  reset-IsRouted m z e k = record {
    routed = λ j t q n. absurd q;
    bounded = λ i v q. absurd (empty_lookup i v m.request_id_map e q);
    room = omega (arith, counts m.tracks);
  }
    where
      empty_lookup : (i v : ℕ) (ids : List (ℕ × ℕ)) → ids ≡ [] → lookup i ids ≡ some v → ⊥
      empty_lookup i v [] p q = ground arith
      empty_lookup i v (a ∷ ids) p q = ground arith

  -- If the ids and the map have just been reset, and there are fewer than 2^62 tracks, then after
  -- the orchestration the request id of each track leads back to that track: an answer to a request
  -- finds the track that it was made for.
  pub start_orchestration-routes :
      (host : ℕ → List (ℕ × List ℕ)) (jwt : List ℕ) (m : MoqState A H) (tr : Transport) (j : ℕ)
      (t : TrackHandle A H)
      → m.next_request_id ≡ 0
      → m.request_id_map ≡ []
      → length m.tracks < 2 ^ 62
      → j < length m.tracks
      → nth j (start_orchestration host jwt (m, tr)).0.tracks ≡ some t
      → lookup t.moq_request_id (start_orchestration host jwt (m, tr)).0.request_id_map ≡ some j
  unfolding start_orchestration
  start_orchestration-routes host jwt m tr j t z e k l n =
      let started : MoqState A H × Transport = (record m { orchestration_started = true }, tr) in
      let requested =
        announce_tracks-IsRouted (λ i. ⊥ ⊎ InboundAt 0 m.tracks i) 0 0 m.tracks _
          (subscribe_tracks-IsRouted host jwt (λ i. ⊥) (0 + outbound_count m.tracks) 0 m.tracks
            started (reset-IsRouted m z e k)) in
      requested.routed j t
        (elim (one_of_both 0 j m.tracks (omega arith) (omega arith)) [
          | inl in_ ↦ inl (inr in_)
          | inr out ↦ inr out
        ])
        n
