-- ===== src/Session/Sending/Configured.antt =====
-- The buffers that configure makes have room for the frames that the loops send; and what a frame
-- size of zero does.
use native.Mathlib.Nat.{mul-pos, mul_comm}
use libpanaudia_core.Prelude.{
  Bool, Bool-cases, IsU64, List, Option, [], ap, arith, false, if◌then◌else◌, inl, inr, leb, length,
  ltb, none, refl, some, subst, suc, sym, take-nil, true, u32, zero, ℕ, ◌*◌, ◌++◌, ◌+◌, ◌/◌, ◌<◌,
  ◌^◌, ◌∙◌, ◌≡◌, ◌≤◌,
}
use libpanaudia_core.Audio.Ring.{
  read as ring_read, write as ring_write, RingBuffer, new_ring, read_available,
}
use libpanaudia_core.Audio.Ring.Valid.{new_ring-IsValid, write-IsValid}
use libpanaudia_core.Moq.Datagram.{build_object_datagram_header}
use libpanaudia_core.Audio.Ring.Frames.{channels-write}
use libpanaudia_core.Audio.Codec.{
  OpusEncoderConfig, OpusEncoderWrapper, is_frame_size, new_encoder, create_encoder,
  create_ms_encoder, init_encoder, float_bytes, pcm_frame,
}
use libpanaudia_core.Transport.{Transport}
use libpanaudia_core.Transport.Network.{send_datagram}
use libpanaudia_core.Session.Track.{
  TrackConfig, Platform, TrackHandle, is_opus, is_outbound, is_audio,
}
use libpanaudia_core.Session.Control.{set_alias}
use libpanaudia_core.Session.Configure.{
  ring_buffer_ms, ms_frames, frame_ms, bare_track, outbound_track, encoder_config,
}
use libpanaudia_core.Session.Media.{
  endless, send_frames, done, count_object, send_payload, next, has_frame, send_pcm, send_frame,
  send_ring, put_ring, write_audio,
}
use libpanaudia_core.Session.Sending.{IsSending, encoder_frames, object_frames, header_size}

-- A configuration of an outbound audio track that works: a frame has samples, the buffers fit in 32
-- bits, and the Opus library knows the frame size.
pub record IsUsable (tc : TrackConfig) : Type 0 where
  pub some_channels : 0 < tc.channels
  pub some_frames : 0 < ms_frames (frame_ms tc) tc.sample_rate
  pub some_capacity : 0 < ms_frames ring_buffer_ms tc.sample_rate
  pub ring_size : ms_frames ring_buffer_ms tc.sample_rate * tc.channels < 2 ^ 31
  pub frame_size : ms_frames (frame_ms tc) tc.sample_rate * tc.channels * 4 < 2 ^ 32
  pub known_size : is_opus tc.codec ≡ true → is_frame_size tc.opus_frame_size_ms ≡ true

pcm_output :
    (opus : Bool) (x : ℕ)
    → opus ≡ false
    → x * 4 < 2 ^ 32
    → x * 4 ≤ (if opus then 512 else u32 x * 4)
pcm_output opus x e h = rw e (omega arith)

never : (n : ℕ) → ltb n 0 ≡ false
never n = ground arith

always : (n : ℕ) → leb 0 n ≡ true
always n = ground arith

module _ {A H : Type 0} (p : Platform A H) where
  created_frames :
      (config : OpusEncoderConfig) (w : OpusEncoderWrapper H) (h : Option H)
      → ((create_encoder p.opus config w h).1).frame_size_samples ≡ w.frame_size_samples
  unfolding create_encoder
  created_frames config w none = refl
  created_frames config w (some h) = refl

  created_ms_frames :
      (config : OpusEncoderConfig) (w : OpusEncoderWrapper H) (h : Option H)
      → ((create_ms_encoder p.opus config w h).1).frame_size_samples ≡ w.frame_size_samples
  unfolding create_ms_encoder
  created_ms_frames config w none = refl
  created_ms_frames config w (some h) = refl

  -- Whether or not the library makes an encoder, the frame size is that of the configuration.
  init_encoder-frames :
      (config : OpusEncoderConfig)
      → is_frame_size config.frame_size_ms ≡ true
      → 0 < config.channels
      → ((init_encoder p.opus config new_encoder).1).frame_size_samples
        ≡ u32 (config.sample_rate * config.frame_size_ms) / 1000
  unfolding init_encoder
  init_encoder-frames config f c =
      let w : OpusEncoderWrapper H = record {
        encoder = none;
        ms_encoder = none;
        sample_rate = config.sample_rate;
        channels = config.channels;
        frame_size_samples = u32 (config.sample_rate * config.frame_size_ms) / 1000;
      } in
      let simple =
        created_frames config w (p.opus.encoder_create config.sample_rate config.channels) in
      let multi =
        created_ms_frames config w
          (p.opus.surround_encoder_create config.sample_rate config.channels) in
      ground arith

  outbound_frames :
      (tc : TrackConfig)
      → IsUsable tc
      → object_frames (outbound_track p tc) ≡ some (ms_frames (frame_ms tc) tc.sample_rate)
  unfolding outbound_track bare_track object_frames encoder_frames encoder_config
  outbound_frames tc u =
      let made = init_encoder-frames (encoder_config tc) in
      elim (Bool-cases (is_opus tc.codec)) [
        | inl opus ↦ rw opus (
            ap some (
              made (u.known_size opus) u.some_channels
              ∙ ap (λ x. u32 x / 1000) (mul_comm tc.sample_rate tc.opus_frame_size_ms)))
        | inr pcm ↦ rw pcm refl
      ]

  -- An outbound track with a usable configuration is ready to send from the start: its ring is
  -- valid, and its buffers have room for a frame, whichever its codec.
  pub outbound_track-IsSending :
      (tc : TrackConfig)
      → IsUsable tc
      → IsSending
          (is_opus tc.codec)
          (ms_frames (frame_ms tc) tc.sample_rate)
          (new_ring p.silence (ms_frames ring_buffer_ms tc.sample_rate) tc.channels)
          (outbound_track p tc)
  unfolding outbound_track bare_track new_ring
  outbound_track-IsSending tc u = record {
    codec = refl;
    frames = outbound_frames tc u;
    ring = refl;
    valid =
        new_ring-IsValid p.silence (ms_frames ring_buffer_ms tc.sample_rate) tc.channels
          (mul-pos u.some_capacity u.some_channels) u.ring_size;
    some_channels = u.some_channels;
    same_channels = refl;
    some_frames = u.some_frames;
    room = record {
      read_room = omega (arith, u.frame_size);
      pcm_room = λ e. pcm_output (is_opus tc.codec) _ e u.frame_size;
      datagram_room = omega arith;
    };
    ids = record { alias_size = omega arith; group_size = omega arith; object_size = omega arith };
  }

  -- A track that sends stays ready when it gets its alias, an id of 64 bits.
  pub set_alias-IsSending :
      (alias : ℕ) (opus : Bool) (n : ℕ) (r : RingBuffer A) (t : TrackHandle A H)
      → IsU64 alias
      → IsSending opus n r t
      → IsSending opus n r (set_alias alias t)
  unfolding set_alias object_frames
  set_alias-IsSending alias opus n r t a h = record {
    codec = h.codec;
    frames = h.frames;
    ring = h.ring;
    valid = h.valid;
    some_channels = h.some_channels;
    same_channels = h.same_channels;
    some_frames = h.some_frames;
    room = h.room;
    ids = record { alias_size = a; group_size = h.ids.group_size; object_size = h.ids.object_size };
  }

  -- An outbound audio track that is ready to send stays so when the host writes as many samples as
  -- it announces, also when the ring overflows.
  pub write_audio-IsSending :
      (samples : List A) (frame_count : ℕ) (opus : Bool) (n : ℕ) (r : RingBuffer A)
      (t : TrackHandle A H)
      → is_audio t.config.type ≡ true
      → is_outbound t.config.direction ≡ true
      → u32 (frame_count * r.channels) ≤ length samples
      → IsSending opus n r t
      → IsSending opus n (ring_write r samples frame_count).1 (write_audio samples frame_count t)
  unfolding write_audio put_ring object_frames
  write_audio-IsSending samples frame_count opus n r t a o k h =
      let same = channels-write r samples frame_count in
      rw (a, o)
        (record {
          codec = h.codec;
          frames = h.frames;
          ring = rw (h.ring) refl;
          valid = write-IsValid r samples frame_count h.valid k;
          some_channels = rw same h.some_channels;
          same_channels = same ∙ h.same_channels;
          some_frames = h.some_frames;
          room = rw same h.room;
          ids = h.ids;
        })

  no_payload : (channels : ℕ) → pcm_frame p.mem [] 0 channels ≡ []
  unfolding pcm_frame float_bytes
  no_payload channels = take-nil (u32 (u32 (0 * channels) * 4))

  -- With a frame size of zero, 64-bit ids and room for a header, the loop that sends the PCM of a
  -- track with a ring never ends, whatever bounds its rounds.
  pub send_frames-endless :
      (m : ℕ) (r : RingBuffer A) (t : TrackHandle A H) (tr : Transport)
      → t.ring_buffer ≡ some r
      → 34 ≤ t.datagram_buffer
      → IsU64 t.moq_track_alias
      → IsU64 t.next_group_id
      → IsU64 t.next_object_id
      → send_frames p m false 0 (t, tr) ≡ endless
  unfolding send_frames has_frame send_ring ring_read send_frame send_pcm send_payload next
      count_object
  send_frames-endless zero r t tr e k ha hg ho =
      let s : TrackHandle A H × Transport = (t, tr) in
      subst (λ (o : Option (RingBuffer A)). (if has_frame 0 o then endless else done s) ≡ endless)
        (sym e) (rw (always (read_available r)) refl)
  send_frames-endless (suc m) r t tr e k ha hg ho =
      let size = header_size t.moq_track_alias t.next_group_id t.next_object_id 128 ha hg ho in
      let s : TrackHandle A H × Transport = (t, tr) in
      let header =
        build_object_datagram_header t.moq_track_alias t.next_group_id t.next_object_id 128 in
      let fits : ltb t.datagram_buffer (length header + 0) ≡ false = ground arith in
      let rest =
        send_frames-endless m r (count_object (record t { ring_buffer = some r }))
          (send_datagram (header ++ []) tr).1 refl k ha hg (omega arith) in
      subst
        (λ (o : Option (RingBuffer A)).
          (if has_frame 0 o
            then next (send_ring p false 0 s o) (send_frames p m false 0)
            else done s)
          ≡ endless)
        (sym e)
        (rw
          (
            always (read_available r),
            no_payload t.config.channels,
            never t.pcm_read_buffer,
            never t.encode_output_buffer,
            fits,
          )
          rest)
