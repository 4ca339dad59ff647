-- ===== src/Session/Status/Bounds.antt =====
-- The levels that get_buffer_status reports stay within the buffers.
use native.Mathlib.Nat.{le-div_iff_mul-le, mul-div_cancel}
use libpanaudia_core.Prelude.{
  Option, arith, if◌then◌else◌, none, not, slt, some, ℕ, ◌*◌, ◌/◌, ◌<◌, ◌≡◌, ◌≤◌,
}
use libpanaudia_core.Audio.Ring.{RingBuffer, read_available}
use libpanaudia_core.Audio.Ring.Valid.{IsValid as IsValidRing}
use libpanaudia_core.Audio.Jitter.{JitterBuffer, fill_samples}
use libpanaudia_core.Audio.Jitter.Valid.{IsValid as IsValidJitter}
use libpanaudia_core.Audio.Jitter.Stats.{FloatArith, get_stats}
use libpanaudia_core.Session.Track.{TrackHandle, is_outbound, is_audio}
use libpanaudia_core.Session.Status.{no_status, ring_status, jitter_status, track_status}

-- A ring whose capacity is counted in whole frames.
pub record IsWhole {A : Type 0} (r : RingBuffer A) : Type 0 where
  pub valid : IsValidRing r
  pub some_channels : 0 < r.channels
  pub whole : r.capacity_floats ≡ r.capacity_frames * r.channels

-- Of the buffers that a track may lack.
abbrev pub IsAbsentOr : {B : Type 0} → (B → Type 0) → Option B → Type 0
IsAbsentOr P none = Unit
IsAbsentOr P (some b) = P b

module _ {A H : Type 0} where
  -- The buffers of a track.
  pub record IsMetered (t : TrackHandle A H) : Type 0 where
    pub rings : IsAbsentOr IsWhole t.ring_buffer
    pub jitters : IsAbsentOr IsValidJitter t.jitter_buffer

ring_room : {A : Type 0} → Option (RingBuffer A) → ℕ
ring_room none = 0
ring_room (some r) = r.capacity_frames

jitter_room : {A : Type 0} → Option (JitterBuffer A) → ℕ
jitter_room none = 0
jitter_room (some j) = j.capacity / j.num_channels

-- The frames that the buffer in use has room for.
unfoldable pub room : {A H : Type 0} → TrackHandle A H → ℕ
unfolding ring_room jitter_room
room t =
    if not (is_audio t.config.type)
    then 0
    else (if is_outbound t.config.direction
        then ring_room t.ring_buffer
        else jitter_room t.jitter_buffer)

pub div_mono : (a b c : ℕ) → 0 < c → a ≤ b → a / c ≤ b / c
div_mono a b c h k =
    let q = (le-div_iff_mul-le {x = a / c} {y = a} h).0 (omega arith) in
    (le-div_iff_mul-le h).1 (omega (arith, q))

read_available-le :
    {A : Type 0} (r : RingBuffer A) → IsWhole r → read_available r ≤ r.capacity_frames
unfolding read_available
read_available-le r w =
    let m =
      div_mono r.buffered (r.capacity_frames * r.channels) r.channels w.some_channels
        (omega (arith, w.whole, w.valid.count_in)) in
    omega (arith, m, mul-div_cancel r.capacity_frames w.some_channels)

level-le :
    {A : Type 0} (j : JitterBuffer A)
    → IsValidJitter j
    → (if slt 0 (fill_samples j) then fill_samples j else 0) ≤ j.capacity / j.num_channels
level-le j v =
    let c = v.configured in
    let m = div_mono j.buffered j.capacity j.num_channels c.some_channels v.count_in in
    let s = c.few_channels in let k = c.small in let n = v.count_in in ground arith

module _ {A : Type 0} (f : FloatArith A) where
  ring_status-room :
      (o : Option (RingBuffer A))
      → IsAbsentOr IsWhole o
      → (ring_status f o).buffered_frames ≤ ring_room o
  unfolding ring_status ring_room no_status
  ring_status-room none h = omega arith
  ring_status-room (some r) h = read_available-le r h

  jitter_status-room :
      (rate max_ms : ℕ) (o : Option (JitterBuffer A))
      → IsAbsentOr IsValidJitter o
      → (jitter_status f rate max_ms o).buffered_frames ≤ jitter_room o
  unfolding jitter_status jitter_room no_status get_stats
  jitter_status-room rate max_ms none h = omega arith
  jitter_status-room rate max_ms (some j) h = level-le j h

module _ {A H : Type 0} (f : FloatArith A) where
  -- Whatever the track, the status counts no more frames than its buffer has room for, where the
  -- ring keeps its invariant in whole frames and the jitter buffer its invariant.
  pub track_status-room :
      (max_ms : ℕ) (t : TrackHandle A H)
      → IsMetered t
      → (track_status f max_ms t).buffered_frames ≤ room t
  unfolding track_status room no_status
  track_status-room max_ms t m =
      let r = ring_status-room f t.ring_buffer m.rings in
      let j = jitter_status-room f t.config.sample_rate max_ms t.jitter_buffer m.jitters in
      ground arith
