-- ===== src/Session/Sending/Rounds.antt =====
-- The rounds of the sending loops: each takes a frame out of the ring, so that they end.
use libpanaudia_core.Prelude.{
  Bool, Bool-cases, List, Option, [], arith, false, if◌then◌else◌, inl, inr, leb, leb→le, length,
  length-append, length-take, ltb, none, refl, some, subst, suc, sym, true, u32, zero, ℕ, ◌*◌, ◌+◌,
  ◌∙◌, ◌∷◌, ◌≡◌, ◌≤◌,
}
use libpanaudia_core.Moq.Datagram.{build_object_datagram_header}
use libpanaudia_core.Audio.Ring.{RingBuffer, read_available}
use libpanaudia_core.Audio.Ring.{read as ring_read, RingBuffer, read_available}
use libpanaudia_core.Audio.Ring.Valid.{read-IsValid}
use libpanaudia_core.Audio.Ring.Frames.{channels-read, read_frames}
use libpanaudia_core.Audio.Codec.{
  OpusEncoderWrapper, float_bytes, pcm_frame, encode_with, encode_frame,
}
use libpanaudia_core.Transport.{Transport}
use libpanaudia_core.Session.Track.{Platform, TrackHandle}
use libpanaudia_core.Session.Media.{
  done, endless, count_object, send_payload, next, has_frame, send_pcm, send_packet, send_opus,
  send_with, send_frame, send_ring, send_frames,
}
use libpanaudia_core.Session.Sending.{
  Ends, next-Ends, size_of, KeepsSizes, encoder_frames, object_frames, IsSending, header_size,
  IsSent,
}

module _ {A H : Type 0} where
  -- After a round the same track, with its ring as it was left.
  send_payload-Ends :
      (opus : Bool) (n : ℕ) (r : RingBuffer A) (payload : List ℕ) (t : TrackHandle A H)
      (tr : Transport)
      → IsSending opus n r t
      → length payload ≤ t.encode_output_buffer
      → Ends (λ s. IsSending opus n r s.0) (send_payload payload (t, tr))
  unfolding send_payload Ends count_object object_frames
  send_payload-Ends opus n r payload t tr h k =
      let size =
        header_size t.moq_track_alias t.next_group_id t.next_object_id 128 h.ids.alias_size
          h.ids.group_size h.ids.object_size in
      let fits : ltb t.datagram_buffer (
            length
              (build_object_datagram_header t.moq_track_alias t.next_group_id t.next_object_id 128)
            + length payload)
          ≡ false =
        ground arith in
      rw fits (record {
        codec = h.codec;
        frames = h.frames;
        ring = h.ring;
        valid = h.valid;
        some_channels = h.some_channels;
        same_channels = h.same_channels;
        some_frames = h.some_frames;
        room = h.room;
        ids = record {
          alias_size = h.ids.alias_size;
          group_size = h.ids.group_size;
          object_size = omega arith;
        };
      })

module _ {A H : Type 0} (p : Platform A H) (sizes : KeepsSizes p) where
  length-float_bytes : (pcm : List A) → length (float_bytes p.mem pcm) ≡ length pcm * 4
  unfolding float_bytes
  length-float_bytes [] = omega arith
  length-float_bytes (a ∷ as_) = omega (
    arith,
    length-append (p.mem.bytes a) (float_bytes p.mem as_),
    sizes.float_size a,
    length-float_bytes as_,
  )

  length-pcm_frame :
      (pcm : List A) (n channels : ℕ) → length (pcm_frame p.mem pcm n channels) ≤ length pcm * 4
  unfolding pcm_frame
  length-pcm_frame pcm n channels = omega (
    arith,
    length-take (u32 (u32 (n * channels) * 4)) (float_bytes p.mem pcm),
    length-float_bytes pcm,
  )

  encode_with-fits :
      (w : OpusEncoderWrapper H) (pcm : List A) (frames room : ℕ) (e ms : Option H)
      → size_of (encode_with p.opus w pcm frames room e ms).0 ≤ room
  unfolding encode_with
  encode_with-fits w pcm frames room (some h) ms = sizes.encode_fits h pcm frames room
  encode_with-fits w pcm frames room none (some h) = sizes.encode_multistream_fits h pcm frames room
  encode_with-fits w pcm frames room none none = omega arith

  frames-encode_with :
      (w : OpusEncoderWrapper H) (pcm : List A) (frames room : ℕ) (e ms : Option H)
      → ((encode_with p.opus w pcm frames room e ms).1).frame_size_samples ≡ w.frame_size_samples
  unfolding encode_with
  frames-encode_with w pcm frames room (some h) ms = refl
  frames-encode_with w pcm frames room none (some h) = refl
  frames-encode_with w pcm frames room none none = refl

  encode_frame-fits :
      (w : OpusEncoderWrapper H) (pcm : List A) (frames room : ℕ)
      → size_of (encode_frame p.opus w pcm frames room).0 ≤ room
  unfolding encode_frame
  encode_frame-fits w pcm frames room =
      let fits = encode_with-fits w pcm frames room w.encoder w.ms_encoder in ground arith

  send_packet-Ends :
      (n : ℕ) (r : RingBuffer A) (packet : Option (List ℕ)) (t : TrackHandle A H) (tr : Transport)
      → IsSending true n r t
      → size_of packet ≤ t.encode_output_buffer
      → Ends (λ s. IsSending true n r s.0) (send_packet p packet (t, tr))
  unfolding send_packet Ends
  send_packet-Ends n r none t tr h k = h
  send_packet-Ends n r (some []) t tr h k = h
  send_packet-Ends n r (some (b ∷ bs)) t tr h k = send_payload-Ends true n r (b ∷ bs) t tr h k

  frames-encode_frame :
      (w : OpusEncoderWrapper H) (pcm : List A) (frames room : ℕ)
      → ((encode_frame p.opus w pcm frames room).1).frame_size_samples ≡ w.frame_size_samples
  unfolding encode_frame
  frames-encode_frame w pcm frames room =
      let kept = frames-encode_with w pcm frames room w.encoder w.ms_encoder in ground arith

  kept_frames :
      {r : RingBuffer A} (n : ℕ) (e : OpusEncoderWrapper H) (t : TrackHandle A H) (pcm : List A)
      → t.encoder ≡ some e
      → IsSending true n r t
      → object_frames
          (record t { encoder = some (encode_frame p.opus e pcm n t.encode_output_buffer).1 })
        ≡ some n
  unfolding object_frames encoder_frames
  kept_frames n e t pcm q h =
      let same = frames-encode_frame e pcm n t.encode_output_buffer in
      let there : object_frames t ≡ some n = h.frames in let is_opus_ = h.codec in ground arith

  send_with-Ends :
      (n : ℕ) (r : RingBuffer A) (pcm : List A) (e : Option (OpusEncoderWrapper H))
      (t : TrackHandle A H) (tr : Transport)
      → t.encoder ≡ e
      → IsSending true n r t
      → Ends (λ s. IsSending true n r s.0) (send_with p e n pcm (t, tr))
  unfolding send_with send_opus Ends
  send_with-Ends n r pcm none t tr q h = h
  send_with-Ends n r pcm (some e) t tr q h =
      let sent = encode_frame p.opus e pcm n t.encode_output_buffer in
      send_packet-Ends n r sent.0 (record t { encoder = some sent.1 }) tr
        (record {
          codec = h.codec;
          frames = kept_frames n e t pcm q h;
          ring = h.ring;
          valid = h.valid;
          some_channels = h.some_channels;
          same_channels = h.same_channels;
          some_frames = h.some_frames;
          room = h.room;
          ids = h.ids;
        })
        (encode_frame-fits e pcm n t.encode_output_buffer)

  send_pcm-Ends :
      (n : ℕ) (r : RingBuffer A) (pcm : List A) (t : TrackHandle A H) (tr : Transport)
      → IsSending false n r t
      → length pcm ≡ n * r.channels
      → Ends (λ s. IsSending false n r s.0) (send_pcm p n pcm (t, tr))
  unfolding send_pcm
  send_pcm-Ends n r pcm t tr h k =
      let payload = pcm_frame p.mem pcm n t.config.channels in
      let size : length payload ≤ t.encode_output_buffer =
        omega (arith, length-pcm_frame pcm n t.config.channels, h.room.pcm_room refl) in
      let fits : ltb t.encode_output_buffer (length payload) ≡ false = ground arith in
      rw fits (send_payload-Ends false n r payload t tr h size)

  send_frame-Ends :
      (opus : Bool) (n : ℕ) (r : RingBuffer A) (pcm : List A) (t : TrackHandle A H) (tr : Transport)
      → IsSending opus n r t
      → length pcm ≡ n * r.channels
      → Ends (λ s. IsSending opus n r s.0) (send_frame p opus n pcm (t, tr))
  unfolding send_frame
  send_frame-Ends true n r pcm t tr h k = send_with-Ends n r pcm t.encoder t tr refl h
  send_frame-Ends false n r pcm t tr h k = send_pcm-Ends n r pcm t tr h k

  -- A round of the loop takes a frame out of the ring.
  send_ring-Ends :
      (opus : Bool) (n : ℕ) (r : RingBuffer A) (t : TrackHandle A H) (tr : Transport)
      → IsSending opus n r t
      → n ≤ read_available r
      → Ends (λ s. IsSending opus n (ring_read r n).2 s.0) (send_ring p opus n (t, tr) (some r))
  unfolding send_ring object_frames
  send_ring-Ends opus n r t tr h k =
      let got = ring_read r n in
      let frames = read_frames p.silence r n h.valid h.some_channels h.some_frames k in
      let same = channels-read r n in
      let fits : ltb t.pcm_read_buffer (length (got.1)) ≡ false =
        ground (arith, frames.0, h.room.read_room) in
      rw fits (
        send_frame-Ends opus n got.2 got.1 (record t { ring_buffer = some got.2 }) tr
          (record {
            codec = h.codec;
            frames = h.frames;
            ring = refl;
            valid = read-IsValid r n h.valid;
            some_channels = omega (arith, same, h.some_channels);
            same_channels = same ∙ h.same_channels;
            some_frames = h.some_frames;
            room = rw same h.room;
            ids = h.ids;
          })
          (rw same frames.0))

  pub send_frames-Ends :
      (m : ℕ) (opus : Bool) (n : ℕ) (r : RingBuffer A) (t : TrackHandle A H) (tr : Transport)
      → IsSending opus n r t
      → read_available r ≤ m
      → Ends (λ s. IsSent opus n s.0) (send_frames p m opus n (t, tr))
  unfolding send_frames has_frame IsSent Ends
  send_frames-Ends zero opus n r t tr h k =
      let short : leb n (read_available r) ≡ false = ground (arith, h.some_frames) in
      subst
        (λ o.
          Ends (λ (s : TrackHandle A H × Transport). IsSent opus n s.0)
            (if has_frame n o then endless else done (t, tr)))
        (sym h.ring) (rw short (r, h, omega (arith, h.some_frames)))
  send_frames-Ends (suc m) opus n r t tr h k =
      subst
        (λ o.
          Ends (λ (s : TrackHandle A H × Transport). IsSent opus n s.0)
            (if has_frame n o
              then next (send_ring p opus n (t, tr) o) (send_frames p m opus n)
              else done (t, tr)))
        (sym h.ring)
        (elim (Bool-cases (leb n (read_available r))) [
          | inl there ↦
              let enough = leb→le n (read_available r) there in
              let frames = read_frames p.silence r n h.valid h.some_channels h.some_frames enough in
              rw there (
                next-Ends (λ s. IsSending opus n (ring_read r n).2 s.0) (λ s. IsSent opus n s.0) _ _
                  (send_ring-Ends opus n r t tr h enough)
                  (λ s g.
                    send_frames-Ends m opus n (ring_read r n).2 s.0 s.1 g
                      (omega (arith, frames.1, h.some_frames, k))))
          | inr short ↦ rw short (r, h, ground arith)
        ])
