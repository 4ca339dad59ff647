-- ===== src/Core/Metering.antt =====
-- What a write of the host does to the levels that it may ask for.
use native.Mathlib.Nat.{add-mul-div_right, mul-div_cancel}
use libpanaudia_core.Prelude.{
  Bool-cases, List, Option, ap, ap₂, arith, inl, inr, leb, length, length-append, length-drop,
  length-take, min, refl, some, sym, take, true, u32, ℕ, ◌*◌, ◌++◌, ◌+◌, ◌-◌, ◌/◌, ◌<◌, ◌^◌, ◌∙◌,
  ◌≡◌, ◌≢◌, ◌≤◌,
}
use libpanaudia_core.Audio.Ring.{RingBuffer, write, read_available}
use libpanaudia_core.Audio.Ring
use libpanaudia_core.Audio.Ring.Valid.{IsValid}
use libpanaudia_core.Audio.Ring.Refine.{write_refines}
use libpanaudia_core.Audio.Ring.Contents.{contents, length-contents}
use libpanaudia_core.Audio.Ring.Frames.{channels-write, capacity_frames-write}
use libpanaudia_core.Audio.Jitter.Stats.{FloatArith}
use libpanaudia_core.Session.Track.{TrackHandle, is_outbound, is_audio}
use libpanaudia_core.Core.{PanaudiaCore, with_tracks, write_audio, get_buffer_status}
use libpanaudia_core.Session.Media.{nth, put_ring}
use libpanaudia_core.Session.Media
use libpanaudia_core.Session.Control.Routing.{nth-set_track_same, nth-set_track_other}
use libpanaudia_core.Session.Status.{BufferStatus, no_status, ring_status, track_status, status_of}
use libpanaudia_core.Session.Status
use libpanaudia_core.Session.Status.Bounds.{IsWhole, div_mono}

module _ {A : Type 0} (silence : A) where
  -- The floats that a write leaves in the ring.
  buffered-write :
      (r : RingBuffer A) (samples : List A) (n : ℕ)
      → IsValid r
      → u32 (n * r.channels) ≤ length samples
      → (Ring.write r samples n).1.buffered
        ≡ min (r.buffered + u32 (n * r.channels)) r.capacity_floats
  buffered-write r samples n v k =
      let all = contents silence r ++ take (u32 (n * r.channels)) samples in
      let len = length-append (contents silence r) (take (u32 (n * r.channels)) samples) in
      let refines = ap length (write_refines silence r samples n v k) in
      omega (
        arith,
        refines,
        len,
        length-contents silence (Ring.write r samples n).1,
        length-contents silence r,
        length-take (u32 (n * r.channels)) samples,
        length-drop (length all - r.capacity_floats) all,
        v.count_in,
      )

min-div : (a b c : ℕ) → 0 < c → min a b / c ≡ min (a / c) (b / c)
min-div a b c h = elim (Bool-cases (leb a b)) [
  | inl low ↦
      let k : a ≤ b = ground arith in
      ap (λ x. x / c) (the_min k) ∙ omega (arith, div_mono a b c h k)
  | inr high ↦
      let k : b ≤ a = ground arith in
      ap (λ x. x / c) (the_max k) ∙ omega (arith, div_mono b a c h k)
]
  where
    the_min : a ≤ b → min a b ≡ a
    the_min k = omega arith

    the_max : b ≤ a → min a b ≡ b
    the_max k = omega arith

module _ {A : Type 0} (silence : A) where
  -- In frames.
  read_available-write :
      (r : RingBuffer A) (samples : List A) (n : ℕ)
      → IsWhole r
      → n * r.channels < 2 ^ 32
      → n * r.channels ≤ length samples
      → read_available (Ring.write r samples n).1 ≡ min (read_available r + n) r.capacity_frames
  unfolding read_available
  read_available-write r samples n w s k =
      let c = w.some_channels in
      let b : (Ring.write r samples n).1.buffered
          ≡ min (r.buffered + n * r.channels) (r.capacity_frames * r.channels) =
        omega (arith, buffered-write silence r samples n w.valid (omega arith), w.whole) in
      ap₂ (λ x y. x / y) b (channels-write r samples n)
      ∙ min-div (r.buffered + n * r.channels) (r.capacity_frames * r.channels) r.channels c
      ∙ ap₂ min (add-mul-div_right r.buffered n c) (mul-div_cancel r.capacity_frames c)

module _ {A H : Type 0} (f : FloatArith A) where
  -- The status of an outbound audio track is that of its ring.
  ring_status-track_status :
      (ms : ℕ) (t : TrackHandle A H)
      → is_audio t.config.type ≡ true
      → is_outbound t.config.direction ≡ true
      → track_status f ms t ≡ ring_status f t.ring_buffer
  unfolding track_status no_status
  ring_status-track_status ms t a o = rw (a, o) refl

  put_ring-write_audio :
      (samples : List A) (n : ℕ) (t : TrackHandle A H)
      → is_audio t.config.type ≡ true
      → is_outbound t.config.direction ≡ true
      → Media.write_audio samples n t ≡ record t { ring_buffer = put_ring samples n t.ring_buffer }
  unfolding Media.write_audio
  put_ring-write_audio samples n t a o = rw (a, o) refl

  -- A write of no more than 2^32 - 1 floats, all of which are there, to an outbound audio track
  -- whose ring keeps its invariant in whole frames raises the level that get_buffer_status reports
  -- for the track by the frames written, up to the capacity, which stays; what it reports for any
  -- other track stays too.
  pub write_audio-get_buffer_status :
      (i j : ℕ) (samples : List A) (n : ℕ) (c : PanaudiaCore A H) (t : TrackHandle A H)
      (r : RingBuffer A)
      → nth i c.session.moq.tracks ≡ some t
      → is_audio t.config.type ≡ true
      → is_outbound t.config.direction ≡ true
      → t.ring_buffer ≡ some r
      → IsWhole r
      → n * r.channels < 2 ^ 32
      → n * r.channels ≤ length samples
      → j ≢ i
      → let status = λ (k : ℕ) (d : PanaudiaCore A H). get_buffer_status f (some k) d in
        let after = write_audio (some i) samples n c in
        ((status i after).buffered_frames
          ≡ min ((status i c).buffered_frames + n) (status i c).capacity_frames)
        × ((status i after).capacity_frames ≡ (status i c).capacity_frames)
        × (status j after ≡ status j c)
  unfolding get_buffer_status Status.get_buffer_status write_audio with_tracks status_of put_ring
      ring_status
  write_audio-get_buffer_status i j samples n c t r e a o k w s h d =
      let ts = c.session.moq.tracks in
      let ms = c.session.config.jitter_buffer_max_ms in
      let write : TrackHandle A H → TrackHandle A H = Media.write_audio samples n in
      let ring = ring_status-track_status ms t a o ∙ ap (ring_status f) k in
      let written =
        ap (track_status f ms) (put_ring-write_audio samples n t a o)
        ∙ ring_status-track_status ms (record t { ring_buffer = put_ring samples n t.ring_buffer })
            a o
        ∙ ap (λ (x : Option (RingBuffer A)). ring_status f (put_ring samples n x)) k in
      let before = ap (status_of f ms) e ∙ ring in
      let after = ap (status_of f ms) (nth-set_track_same i write ts t e) ∙ written in
      let same = capacity_frames-write r samples n in
      (
        ap (λ (x : BufferStatus A). x.buffered_frames) after
            ∙ read_available-write f.zero_float r samples n w s h
            ∙ ap (λ (x : BufferStatus A). min (x.buffered_frames + n) x.capacity_frames)
                (sym before),
        ap (λ (x : BufferStatus A). x.capacity_frames) (after)
            ∙ same
            ∙ ap (λ (x : BufferStatus A). x.capacity_frames) (sym before),
        ap (status_of f ms) (nth-set_track_other j i write ts (ground arith)),
      )
