-- ===== src/Session/Sending/Polling.antt =====
-- poll_outbound_tracks as a whole: every track that sends is drained, and nothing goes wrong.
use libpanaudia_core.Prelude.{
  Bool, Bool-cases, List, Option, [], arith, false, if◌then◌else◌, inl, inr, none, not, refl, some,
  subst, sym, true, u32, ℕ, ◌*◌, ◌/◌, ◌==◌, ◌||◌, ◌∷◌, ◌≡◌, ◌≤◌, ◌⊎◌,
}
use libpanaudia_core.Audio.Ring.{RingBuffer, read_available}
use libpanaudia_core.Audio.Codec.{OpusEncoderWrapper}
use libpanaudia_core.Transport.{Transport}
use libpanaudia_core.Session.Track.{Platform, TrackHandle, is_outbound, is_audio, is_opus}
use libpanaudia_core.Session.State.{MoqState}
use libpanaudia_core.Session.Media.{
  Run, done, overrun, endless, send_track, poll_track, poll_tracks, polled, poll_outbound_tracks,
  frames_in, poll_opus,
}
use libpanaudia_core.Session.Sending.{
  Ends, next-Ends, KeepsSizes, IsSending, map-Ends, encoder_frames, object_frames, IsSent,
}
use libpanaudia_core.Session.Sending.Rounds.{send_frames-Ends}

module _ {A H : Type 0} where
  -- The loop over the tracks goes past this one.
  unfoldable pub skipped : TrackHandle A H → Bool
  skipped t =
      not (is_outbound t.config.direction)
      || not (is_audio t.config.type)
      || (t.moq_track_alias == 0)

  -- It does, or the track's buffers have room for its frames.
  unfoldable pub IsReady : TrackHandle A H → Type 0
  IsReady t =
      (skipped t ≡ true) ⊎ ((opus : Bool) × (n : ℕ) × (r : RingBuffer A) × IsSending opus n r t)

  -- It does, or less than a frame is left in the track's ring.
  unfoldable pub IsDrained : TrackHandle A H → Type 0
  IsDrained t = (skipped t ≡ true) ⊎ ((opus : Bool) × (n : ℕ) × IsSent opus n t)

  unfoldable pub Every : (TrackHandle A H → Type 0) → List (TrackHandle A H) → Type 0
  Every P [] = Unit {0}
  Every P (t ∷ ts) = P t × Every P ts

module _ {A H : Type 0} (p : Platform A H) (sizes : KeepsSizes p) where
  send_track-Ends :
      (opus : Bool) (n : ℕ) (r : RingBuffer A) (t : TrackHandle A H) (tr : Transport)
      → IsSending opus n r t
      → Ends (λ s. IsDrained s.0) (send_track p opus n (t, tr))
  unfolding send_track frames_in IsDrained
  send_track-Ends opus n r t tr h =
      let enough : read_available r ≤ frames_in t.ring_buffer =
        subst (λ o. read_available r ≤ frames_in o) (sym h.ring) (omega arith) in
      map-Ends (λ s. IsSent opus n s.0) (λ s. IsDrained s.0) _
        (send_frames-Ends p sizes (frames_in t.ring_buffer) opus n r t tr h enough)
        (λ s g. inr (opus, n, g))

  poll_opus-Ends :
      (o : Option (OpusEncoderWrapper H)) (n : ℕ) (r : RingBuffer A) (t : TrackHandle A H)
      (tr : Transport)
      → encoder_frames o ≡ some n
      → IsSending true n r t
      → Ends (λ s. IsDrained s.0) (poll_opus p o (t, tr))
  unfolding poll_opus encoder_frames
  poll_opus-Ends none n r t tr q h = ground arith
  poll_opus-Ends (some e) n r t tr q h =
      let same : e.frame_size_samples ≡ n = ground arith in
      rw same (send_track-Ends true n r t tr h)

  poll_codec-Ends :
      (opus : Bool) (n : ℕ) (r : RingBuffer A) (t : TrackHandle A H) (tr : Transport)
      → IsSending opus n r t
      → Ends
          (λ s. IsDrained s.0)
          (if is_opus t.config.codec
            then poll_opus p t.encoder (t, tr)
            else send_track p false
                (u32 (t.config.pcm_frame_size_ms * t.config.sample_rate) / 1000)
                (t, tr))
  unfolding object_frames
  poll_codec-Ends true n r t tr h =
      let there : object_frames t ≡ some n = h.frames in
      let codec = h.codec in rw h.codec (poll_opus-Ends t.encoder n r t tr (ground arith) h)
  poll_codec-Ends false n r t tr h =
      let there : object_frames t ≡ some n = h.frames in
      let codec = h.codec in
      let same : u32 (t.config.pcm_frame_size_ms * t.config.sample_rate) / 1000 ≡ n =
        ground arith in
      rw (h.codec, same) (send_track-Ends false n r t tr h)

  poll_track-Ends :
      (t : TrackHandle A H) (tr : Transport)
      → IsReady t
      → Ends (λ s. IsDrained s.0) (poll_track p (t, tr))
  unfolding poll_track skipped IsReady IsDrained Ends
  poll_track-Ends t tr (inl skip) = rw skip (inl skip)
  poll_track-Ends t tr (inr (opus, n, r, h)) = elim (Bool-cases (skipped t)) [
    | inl skip ↦ rw skip (inl skip)
    | inr goes ↦ rw goes (poll_codec-Ends opus n r t tr h)
  ]

  poll_tracks-Ends :
      (ts : List (TrackHandle A H)) (tr : Transport)
      → Every IsReady ts
      → Ends (λ s. Every IsDrained s.0) (poll_tracks p ts tr)
  unfolding poll_tracks Every Ends
  poll_tracks-Ends [] tr h = tt
  poll_tracks-Ends (t ∷ ts) tr h =
      next-Ends (λ (s : TrackHandle A H × Transport). IsDrained s.0) _ _ _
        (poll_track-Ends t tr h.0)
        (λ s d.
          next-Ends (λ (r : List (TrackHandle A H) × Transport). Every IsDrained r.0) _ _ _
            (poll_tracks-Ends ts s.1 h.1) (λ r ds. (d, ds)))

  drained :
      (r : Run (List (TrackHandle A H) × Transport)) (s : MoqState A H × Transport)
      → Ends (λ s. Every IsDrained s.0) r
      → ((polled p r s).0.faults ≡ s.0.faults) × Every IsDrained (polled p r s).0.tracks
  unfolding polled Ends
  drained (done (ts, tr)) (m, old) h = (refl, h)
  drained overrun s h = absurd h
  drained endless s h = absurd h

  -- If the Opus library keeps to the room it is given, a float has four bytes, and every track that
  -- sends has a valid ring, at least one sample to the frame and buffers with room for a frame,
  -- then a poll of the outbound tracks ends, writes outside no buffer, and leaves less than a frame
  -- in the ring of each track that sends.
  pub poll_outbound_tracks-drains :
      (m : MoqState A H) (tr : Transport)
      → Every IsReady m.tracks
      → let after = (poll_outbound_tracks p (m, tr)).0 in
        (after.faults ≡ m.faults) × Every IsDrained after.tracks
  unfolding poll_outbound_tracks
  poll_outbound_tracks-drains m tr h =
      drained (poll_tracks p m.tracks tr) (m, tr) (poll_tracks-Ends m.tracks tr h)
