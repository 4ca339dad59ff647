-- ===== src/Audio/Ring.antt =====
-- The outbound buffer: src/ring_buffer.cpp. A call is one step on the state; what the writer and
-- the reader thread do to one another within a call is not modelled. `samples` holds at least the
-- floats that a caller announces. A ring of no capacity divides by zero; the invariant excludes
-- it.
mod Tests
pub mod Valid
pub mod Contents
pub mod Refine
pub mod Frames
use libpanaudia_core.Prelude.{
  List, [], drop, if◌then◌else◌, ltb, min, replicate, sub32, u32, ℕ, ◌%◌, ◌*◌, ◌+◌, ◌/◌, ◌==◌,
}
use libpanaudia_core.Audio.Circular.{write_ring, read_ring}

pub record RingBuffer (A : Type 0) : Type 0 where
  pub store : List A
  pub capacity_floats : ℕ
  pub capacity_frames : ℕ
  pub channels : ℕ
  pub write_pos : ℕ
  pub read_pos : ℕ
  pub buffered : ℕ

module _ {A : Type 0} where
  unfoldable pub new_ring : A → ℕ → ℕ → RingBuffer A
  new_ring silence capacity_frames channels = record {
    store = replicate (u32 (capacity_frames * channels)) silence;
    capacity_floats = u32 (capacity_frames * channels);
    capacity_frames = capacity_frames;
    channels = channels;
    write_pos = 0;
    read_pos = 0;
    buffered = 0;
  }

  -- The copies of this buffer.
  pub copy_to_ring : RingBuffer A → ℕ → List A → ℕ → List A
  copy_to_ring r pos src floats = write_ring r.capacity_floats r.store pos src floats

  pub copy_from_ring : RingBuffer A → ℕ → ℕ → List A
  copy_from_ring r pos floats = read_ring r.capacity_floats r.store pos floats

  -- If the ring would overflow, the read position moves on and the oldest samples are lost.
  pub discard_oldest : RingBuffer A → ℕ → RingBuffer A
  discard_oldest r floats =
      let buf = r.buffered in
      let excess = sub32 (u32 (buf + floats)) r.capacity_floats in
      if ltb r.capacity_floats (u32 (buf + floats))
      then record r {
        read_pos = u32 (r.read_pos + excess) % r.capacity_floats;
        buffered = sub32 buf excess;
      }
      else r

  pub append_floats : RingBuffer A → List A → ℕ → RingBuffer A
  unfolding copy_to_ring
  append_floats r samples floats = record r {
    store = copy_to_ring r r.write_pos samples floats;
    write_pos = u32 (r.write_pos + floats) % r.capacity_floats;
    buffered = u32 (r.buffered + floats);
  }

  -- A write of `floats` samples; one larger than the ring keeps its tail alone.
  pub write_floats : RingBuffer A → List A → ℕ → ℕ → ℕ × RingBuffer A
  write_floats r samples floats frame_count =
      if ltb r.capacity_floats floats
      then (
        r.capacity_frames,
        append_floats (discard_oldest r r.capacity_floats)
            (drop (sub32 floats r.capacity_floats) samples) r.capacity_floats,
      )
      else (frame_count, append_floats (discard_oldest r floats) samples floats)

  -- The frames written, and the ring.
  unfoldable pub write : RingBuffer A → List A → ℕ → ℕ × RingBuffer A
  unfolding write_floats
  write r samples frame_count =
      if frame_count == 0
      then (0, r)
      else write_floats r samples (u32 (frame_count * r.channels)) frame_count

  unfoldable pub write_available : RingBuffer A → ℕ
  write_available r = sub32 r.capacity_floats r.buffered / r.channels

  -- The frames read, the samples copied to the caller's buffer, and the ring.
  unfoldable pub read : RingBuffer A → ℕ → ℕ × List A × RingBuffer A
  unfolding copy_from_ring
  read r frame_count =
      let floats_to_read = min (u32 (frame_count * r.channels)) r.buffered in
      if frame_count == 0
      then (0, [], r)
      else (if floats_to_read == 0 then (0, [], r) else (
        floats_to_read / r.channels,
        copy_from_ring r r.read_pos floats_to_read,
        record r {
          read_pos = u32 (r.read_pos + floats_to_read) % r.capacity_floats;
          buffered = sub32 r.buffered floats_to_read;
        },
      ))

  unfoldable pub read_available : RingBuffer A → ℕ
  read_available r = r.buffered / r.channels

  unfoldable pub flush : RingBuffer A → RingBuffer A
  flush r = record r { read_pos = r.write_pos; buffered = 0 }
