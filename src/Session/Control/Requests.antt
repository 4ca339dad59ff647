-- ===== src/Session/Control/Requests.antt =====
-- start_orchestration: one request for each track.
use libpanaudia_core.Prelude.{
  Bool-cases, IsU64, List, [], arith, if◌then◌else◌, inl, inr, length, length-append, refl, subst,
  true, u64, ℕ, ◌*◌, ◌+◌, ◌∷◌, ◌≡◌,
}
use libpanaudia_core.Moq.Messages.Subscribe.{build_subscribe}
use libpanaudia_core.Moq.Messages.Announce.{build_announce, AnnounceConfig}
use libpanaudia_core.Transport.{Transport, send_on_control_stream}
use libpanaudia_core.Transport.Network.{can_send, send_control}
use libpanaudia_core.Session.Track.{TrackHandle, is_outbound}
use libpanaudia_core.Session.State.{MoqState}
use libpanaudia_core.Session.Control.{
  transmit, take_request_id, subscribe_config, subscribe_track, announce_track, subscribe_tracks,
  announce_tracks, start_orchestration,
}

transmitted :
    (framed : List ℕ) (tr : Transport)
    → can_send tr.current_state ≡ true
    → tr.control_stream ≡ true
    → (length ((transmit framed tr).sent_control) ≡ length tr.sent_control + 1)
      × ((transmit framed tr).control_stream ≡ true)
      × (can_send (transmit framed tr).current_state ≡ true)
unfolding transmit send_control send_on_control_stream
transmitted framed tr c o = let grown = length-append tr.sent_control (framed ∷ []) in ground arith

module _ {A H : Type 0} where
  -- Counted from a state, `k` requests have been sent.
  pub record IsAfter (k : ℕ) (s u : MoqState A H × Transport) : Type 0 where
    pub ids : u.0.next_request_id ≡ u64 (s.0.next_request_id + 2 * k)
    pub messages : length u.1.sent_control ≡ length s.1.sent_control + k
    pub open_stream : u.1.control_stream ≡ true
    pub open_state : can_send u.1.current_state ≡ true

  unfoldable pub inbound_count : List (TrackHandle A H) → ℕ
  inbound_count [] = 0
  inbound_count (t ∷ ts) =
      let rest = inbound_count ts in if is_outbound t.config.direction then rest else rest + 1

  unfoldable pub outbound_count : List (TrackHandle A H) → ℕ
  outbound_count [] = 0
  outbound_count (t ∷ ts) =
      let rest = outbound_count ts in if is_outbound t.config.direction then rest + 1 else rest

  pub counts : (ts : List (TrackHandle A H)) → inbound_count ts + outbound_count ts ≡ length ts
  unfolding inbound_count outbound_count
  counts [] = refl
  counts (t ∷ ts) = let rest = counts ts in ground arith

  subscribe_track-IsAfter :
      (host : ℕ → List (ℕ × List ℕ)) (jwt : List ℕ) (i : ℕ) (t : TrackHandle A H) (k : ℕ)
      (s u : MoqState A H × Transport)
      → IsAfter k s u
      → IsAfter (k + 1) s (subscribe_track host jwt i t u)
  unfolding subscribe_track take_request_id
  subscribe_track-IsAfter host jwt i t k s (m, tr) h =
      let sent =
        transmitted (build_subscribe (subscribe_config host jwt i t m)) tr h.open_state
          h.open_stream in
      record {
        ids = omega (arith, h.ids);
        messages = omega (arith, sent.0, h.messages);
        open_stream = sent.1;
        open_state = sent.2;
      }

  announce_track-IsAfter :
      (i : ℕ) (t : TrackHandle A H) (k : ℕ) (s u : MoqState A H × Transport)
      → IsAfter k s u
      → IsAfter (k + 1) s (announce_track i t u)
  unfolding announce_track take_request_id
  announce_track-IsAfter i t k s (m, tr) h =
      let announced : AnnounceConfig = record {
        request_id = m.next_request_id;
        track_namespace = t.config.moq_namespace;
      } in
      let sent = transmitted (build_announce announced) tr h.open_state h.open_stream in
      record {
        ids = omega (arith, h.ids);
        messages = omega (arith, sent.0, h.messages);
        open_stream = sent.1;
        open_state = sent.2;
      }

  pub subscribe_tracks-IsAfter :
      (host : ℕ → List (ℕ × List ℕ)) (jwt : List ℕ) (i : ℕ) (ts : List (TrackHandle A H)) (k : ℕ)
      (s u : MoqState A H × Transport)
      → IsAfter k s u
      → IsAfter (k + inbound_count ts) s (subscribe_tracks host jwt i ts u)
  unfolding subscribe_tracks inbound_count
  subscribe_tracks-IsAfter host jwt i [] k s u h = subst (λ n. IsAfter n s u) (omega arith) h
  subscribe_tracks-IsAfter host jwt i (t ∷ ts) k s u h =
      elim (Bool-cases (is_outbound t.config.direction)) [
        | inl out ↦ rw out (subscribe_tracks-IsAfter host jwt (i + 1) ts k s u h)
        | inr in_ ↦ rw in_ (
            subst
              (λ n.
                IsAfter n s (subscribe_tracks host jwt (i + 1) ts (subscribe_track host jwt i t u)))
              (omega arith)
              (subscribe_tracks-IsAfter host jwt (i + 1) ts (k + 1) s _
                (subscribe_track-IsAfter host jwt i t k s u h)))
      ]

  announce_tracks-IsAfter :
      (i : ℕ) (ts : List (TrackHandle A H)) (k : ℕ) (s u : MoqState A H × Transport)
      → IsAfter k s u
      → IsAfter (k + outbound_count ts) s (announce_tracks i ts u)
  unfolding announce_tracks outbound_count
  announce_tracks-IsAfter i [] k s u h = subst (λ n. IsAfter n s u) (omega arith) h
  announce_tracks-IsAfter i (t ∷ ts) k s u h = elim (Bool-cases (is_outbound t.config.direction)) [
    | inl out ↦ rw out (
        subst (λ n. IsAfter n s (announce_tracks (i + 1) ts (announce_track i t u))) (omega arith)
          (announce_tracks-IsAfter (i + 1) ts (k + 1) s _ (announce_track-IsAfter i t k s u h)))
    | inr in_ ↦ rw in_ (announce_tracks-IsAfter (i + 1) ts k s u h)
  ]

  pub started-IsAfter :
      (m : MoqState A H) (tr : Transport)
      → tr.control_stream ≡ true
      → can_send tr.current_state ≡ true
      → IsU64 m.next_request_id
      → IsAfter 0 (m, tr) (record m { orchestration_started = true }, tr)
  started-IsAfter m tr o c h = record {
    ids = omega arith;
    messages = omega arith;
    open_stream = o;
    open_state = c;
  }

  -- As many requests as tracks, and the next request id moves on by two for each, modulo 2^64.
  pub start_orchestration-IsAfter :
      (host : ℕ → List (ℕ × List ℕ)) (jwt : List ℕ) (m : MoqState A H) (tr : Transport)
      → tr.control_stream ≡ true
      → can_send tr.current_state ≡ true
      → IsU64 m.next_request_id
      → IsAfter (length m.tracks) (m, tr) (start_orchestration host jwt (m, tr))
  unfolding start_orchestration
  start_orchestration-IsAfter host jwt m tr o c h =
      let started : MoqState A H × Transport = (record m { orchestration_started = true }, tr) in
      let first = started-IsAfter m tr o c h in
      subst (λ n. IsAfter n (m, tr) (start_orchestration host jwt (m, tr)))
        (omega (arith, counts m.tracks))
        (announce_tracks-IsAfter 0 m.tracks (0 + inbound_count m.tracks) (m, tr) _
          (subscribe_tracks-IsAfter host jwt 0 m.tracks 0 (m, tr) started first))
