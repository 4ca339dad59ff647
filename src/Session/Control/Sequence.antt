-- ===== src/Session/Control/Sequence.antt =====
-- start_orchestration: the messages that it sends, written down as a list.
use libpanaudia_core.Prelude.{
  Bool, Bool-cases, IsU64, List, [], ap, append-nil, append_assoc, arith, if◌then◌else◌, inl, inr,
  length, map, refl, sym, true, u64, ℕ, ◌*◌, ◌++◌, ◌+◌, ◌∙◌, ◌∷◌, ◌≡◌,
}
use libpanaudia_core.Moq.Messages.Subscribe.{build_subscribe}
use libpanaudia_core.Moq.Messages.Keys.{filter_latest_group}
use libpanaudia_core.Moq.Messages.Announce.{build_announce}
use libpanaudia_core.Transport.{Transport, send_on_control_stream}
use libpanaudia_core.Transport.Network.{can_send, send_control}
use libpanaudia_core.Session.Track.{TrackHandle, is_outbound}
use libpanaudia_core.Session.State.{MoqState}
use libpanaudia_core.Session.Control.{
  is_empty, host_param, transmit, take_request_id, attaches_jwt, subscribe_config, subscribe_track,
  announce_track, subscribe_tracks, announce_tracks, start_orchestration,
}
use libpanaudia_core.Session.Control.Requests.{
  subscribe_tracks-IsAfter, inbound_count, started-IsAfter, start_orchestration-IsAfter,
}

sends :
    (framed : List ℕ) (tr : Transport)
    → can_send tr.current_state ≡ true
    → tr.control_stream ≡ true
    → transmit framed tr ≡ record tr { sent_control = tr.sent_control ++ (framed ∷ []) }
unfolding transmit send_control send_on_control_stream
sends framed tr c o = ground arith

module _ {A H : Type 0} where
  -- The tracks of one direction, each with its index.
  unfoldable pub inbound_tracks : ℕ → List (TrackHandle A H) → List (ℕ × TrackHandle A H)
  inbound_tracks i [] = []
  inbound_tracks i (t ∷ ts) =
      let rest = inbound_tracks (i + 1) ts in
      if is_outbound t.config.direction then rest else (i, t) ∷ rest

  unfoldable pub outbound_tracks : List (TrackHandle A H) → List (TrackHandle A H)
  outbound_tracks [] = []
  outbound_tracks (t ∷ ts) =
      let rest = outbound_tracks ts in if is_outbound t.config.direction then t ∷ rest else rest

  -- A SUBSCRIBE for each track, the ids in steps of two, the token on the first alone.
  unfoldable pub subscribes :
      (ℕ → List (ℕ × List ℕ)) → List ℕ → ℕ → List (ℕ × TrackHandle A H) → List (List ℕ)
  subscribes host token id [] = []
  subscribes host token id ((i, t) ∷ ts) =
      build_subscribe (record {
        request_id = id;
        track_namespace = t.config.moq_namespace;
        track_name = t.config.moq_track_name;
        priority = 128;
        group_order = 1;
        forward = 1;
        filter_type = filter_latest_group;
        authorization = token;
        extra_params = map host_param (host i);
      })
      ∷ subscribes host [] (u64 (id + 2)) ts

  -- An ANNOUNCE of the namespace of each track.
  unfoldable pub announces : ℕ → List (TrackHandle A H) → List (List ℕ)
  announces id [] = []
  announces id (t ∷ ts) =
      build_announce (record { request_id = id; track_namespace = t.config.moq_namespace })
      ∷ announces (u64 (id + 2)) ts

  -- The token that the next SUBSCRIBE carries.
  abbrev pub token : List ℕ → MoqState A H → List ℕ
  token jwt m = if m.first_subscribe_sent then [] else jwt

  token-attached :
      (jwt : List ℕ) (m : MoqState A H) → (if attaches_jwt jwt m then jwt else []) ≡ token jwt m
  unfolding attaches_jwt is_empty
  token-attached [] m = ground arith
  token-attached (b ∷ bs) m = ground arith

  inbound_count-length :
      (i : ℕ) (ts : List (TrackHandle A H)) → length (inbound_tracks i ts) ≡ inbound_count ts
  unfolding inbound_tracks inbound_count
  inbound_count-length i [] = refl
  inbound_count-length i (t ∷ ts) = let ih = inbound_count-length (i + 1) ts in ground arith

  -- Neither the id nor the maps of the state matter to the token.
  token-after :
      (host : ℕ → List (ℕ × List ℕ)) (jwt : List ℕ) (i : ℕ) (t : TrackHandle A H) (m : MoqState A H)
      (tr : Transport)
      → token jwt (subscribe_track host jwt i t (m, tr)).0 ≡ []
  unfolding subscribe_track take_request_id attaches_jwt is_empty
  token-after host [] i t m tr = ground arith
  token-after host (b ∷ bs) i t m tr = ground arith

  subscribe_tracks-sends :
      (host : ℕ → List (ℕ × List ℕ)) (jwt : List ℕ) (i : ℕ) (ts : List (TrackHandle A H))
      (m : MoqState A H) (tr : Transport)
      → can_send tr.current_state ≡ true
      → tr.control_stream ≡ true
      → (subscribe_tracks host jwt i ts (m, tr)).1.sent_control
        ≡ tr.sent_control ++ subscribes host (token jwt m) m.next_request_id (inbound_tracks i ts)
  unfolding subscribe_tracks inbound_tracks subscribes
  subscribe_tracks-sends host jwt i [] m tr c o = sym (append-nil tr.sent_control)
  subscribe_tracks-sends host jwt i (t ∷ ts) m tr c o =
      let later = inbound_tracks (i + 1) ts in
      let left = λ (b : Bool).
        (subscribe_tracks host jwt (i + 1) ts
          (if b then (m, tr) else subscribe_track host jwt i t (m, tr))).1.sent_control in
      let right = λ (b : Bool).
        tr.sent_control
        ++ subscribes host (token jwt m) m.next_request_id (if b then later else (i, t) ∷ later) in
      elim (Bool-cases (is_outbound t.config.direction)) [
        | inl out ↦
            ap left out ∙ subscribe_tracks-sends host jwt (i + 1) ts m tr c o ∙ sym (ap right out)
        | inr in_ ↦
            let u = (subscribe_track host jwt i t (m, tr)).0 in
            let framed = build_subscribe (subscribe_config host jwt i t m) in
            let sent : Transport = record tr { sent_control = tr.sent_control ++ (framed ∷ []) } in
            ap left in_
            ∙ ap (λ (x : Transport). (subscribe_tracks host jwt (i + 1) ts (u, x)).1.sent_control)
                (sends framed tr c o)
            ∙ subscribe_tracks-sends host jwt (i + 1) ts u sent c o
            ∙ append_assoc tr.sent_control (framed ∷ []) _
            ∙ ap (λ k. tr.sent_control ++ (framed ∷ subscribes host k u.next_request_id later))
                (token-after host jwt i t m tr)
            ∙ ap
                (λ k.
                  tr.sent_control
                  ++ (build_subscribe
                        (record (subscribe_config host jwt i t m) { authorization = k })
                      ∷ subscribes host [] u.next_request_id later))
                (token-attached jwt m)
            ∙ sym (ap right in_)
      ]

  announce_tracks-sends :
      (i : ℕ) (ts : List (TrackHandle A H)) (m : MoqState A H) (tr : Transport)
      → can_send tr.current_state ≡ true
      → tr.control_stream ≡ true
      → (announce_tracks i ts (m, tr)).1.sent_control
        ≡ tr.sent_control ++ announces m.next_request_id (outbound_tracks ts)
  unfolding announce_tracks announce_track take_request_id outbound_tracks announces
  announce_tracks-sends i [] m tr c o = sym (append-nil tr.sent_control)
  announce_tracks-sends i (t ∷ ts) m tr c o =
      let later = outbound_tracks ts in
      let left = λ (b : Bool).
        (announce_tracks (i + 1) ts
          (if b then announce_track i t (m, tr) else (m, tr))).1.sent_control in
      let right = λ (b : Bool).
        tr.sent_control ++ announces m.next_request_id (if b then t ∷ later else later) in
      elim (Bool-cases (is_outbound t.config.direction)) [
        | inl out ↦
            let u = (announce_track i t (m, tr)).0 in
            let framed = build_announce (record {
              request_id = m.next_request_id;
              track_namespace = t.config.moq_namespace;
            }) in
            let sent : Transport = record tr { sent_control = tr.sent_control ++ (framed ∷ []) } in
            ap left out
            ∙ ap (λ (x : Transport). (announce_tracks (i + 1) ts (u, x)).1.sent_control)
                (sends framed tr c o)
            ∙ announce_tracks-sends (i + 1) ts u sent c o
            ∙ append_assoc tr.sent_control (framed ∷ []) _
            ∙ sym (ap right out)
        | inr in_ ↦ ap left in_ ∙ announce_tracks-sends (i + 1) ts m tr c o ∙ sym (ap right in_)
      ]

  -- If the transport takes control messages and the next request id has 64 bits, the orchestration
  -- sends, behind what was sent before, one SUBSCRIBE for each inbound track and then one ANNOUNCE
  -- for each outbound track, in the order of the tracks: each with its own request id, in steps of
  -- two from the next request id on, modulo 2^64, with the names of its track, and with the token
  -- on the first SUBSCRIBE alone, or on none if a SUBSCRIBE was sent with it before.
  pub start_orchestration-requests :
      (host : ℕ → List (ℕ × List ℕ)) (jwt : List ℕ) (m : MoqState A H) (tr : Transport)
      → tr.control_stream ≡ true
      → can_send tr.current_state ≡ true
      → IsU64 m.next_request_id
      → let ins = inbound_tracks 0 m.tracks in
        let s = start_orchestration host jwt (m, tr) in
        (s.1.sent_control
          ≡ tr.sent_control
            ++ (subscribes host (token jwt m) m.next_request_id ins
                ++ announces (u64 (m.next_request_id + 2 * length ins)) (outbound_tracks m.tracks)))
        × (s.0.next_request_id ≡ u64 (m.next_request_id + 2 * length m.tracks))
  unfolding start_orchestration
  start_orchestration-requests host jwt m tr o c h =
      let started = record m { orchestration_started = true } in
      let outs = outbound_tracks m.tracks in
      let first =
        subscribe_tracks-IsAfter host jwt 0 m.tracks 0 (m, tr) (started, tr)
          (started-IsAfter m tr o c h) in
      let u = subscribe_tracks host jwt 0 m.tracks (started, tr) in
      (
        announce_tracks-sends 0 m.tracks u.0 u.1 first.open_state first.open_stream
            ∙ ap (λ xs. xs ++ announces u.0.next_request_id outs)
                (subscribe_tracks-sends host jwt 0 m.tracks started tr c o)
            ∙ append_assoc tr.sent_control _ _
            ∙ ap
                (λ id.
                  tr.sent_control
                  ++ (subscribes host (token jwt m) m.next_request_id (inbound_tracks 0 m.tracks)
                      ++ announces id outs))
                (first.ids
                  ∙ ap (λ n. u64 (m.next_request_id + 2 * n))
                      (omega (arith, inbound_count-length 0 m.tracks))),
        (start_orchestration-IsAfter host jwt m tr o c h).ids,
      )
