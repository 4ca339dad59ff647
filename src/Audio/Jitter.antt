-- ===== src/Audio/Jitter.antt =====
-- The inbound buffer: src/jitter_buffer.cpp. A call is one step on the state; `int32_t` values are
-- bit patterns. What a read puts into the caller's buffer is a list of its own. A ring of no
-- capacity or no channels divides by zero; the invariant excludes it.
mod Tests
pub mod Valid
pub mod Stats
pub mod States
pub mod Copies
pub mod Reads
use libpanaudia_core.Prelude.{
  Bool, List, Option, [], drop, false, get_or, if◌then◌else◌, leb, ltb, none, not, replicate, sdiv,
  slt, smin, some, sub32, suc, true, u32, zero, ℕ, ◌%◌, ◌*◌, ◌++◌, ◌+◌, ◌-◌, ◌/◌, ◌==◌, ◌∷◌,
}
use libpanaudia_core.Audio.Circular.{write_ring, read_ring}

pub record JitterBufferConfig : Type 0 where
  pub sample_rate : ℕ
  pub num_channels : ℕ
  pub target_latency_ms : ℕ
  pub target_window_ms : ℕ
  pub min_latency_ms : ℕ
  pub max_latency_ms : ℕ
  pub capacity_ms : ℕ
  pub correction_interval : ℕ

pub data JitterBufferState : Type 0 where
  filling playing : JitterBufferState

pub record JitterBuffer (A : Type 0) : Type 0 where
  pub store : List A
  pub capacity : ℕ
  pub num_channels : ℕ
  pub sample_rate : ℕ
  pub target_low : ℕ
  pub target_high : ℕ
  pub target_centre : ℕ
  pub min_samples : ℕ
  pub max_samples : ℕ
  pub write_pos : ℕ
  pub read_pos : ℕ
  pub state : JitterBufferState
  pub correction_interval : ℕ
  pub correction_counter : ℕ
  pub underrun_count : ℕ
  pub overrun_count : ℕ
  pub samples_dropped : ℕ
  pub samples_inserted : ℕ
  pub buffered : ℕ
  pub overflow_flag : Bool

unfoldable pub ms_to_samples : ℕ → ℕ → ℕ
ms_to_samples ms sample_rate = u32 (ms * sample_rate) / 1000

-- What the drift correction does to one read.
pub data Correction : Type 0 where
  insert keep drop_one : Correction

abbrev pub at_least : ℕ → ℕ → ℕ
at_least low n = if slt n low then low else n

module _ {A : Type 0} where
  unfoldable pub new_jitter : A → JitterBufferConfig → JitterBuffer A
  unfolding ms_to_samples
  new_jitter silence config =
      let capacity =
        u32 (ms_to_samples config.capacity_ms config.sample_rate * config.num_channels) in
      let low_ms = sub32 config.target_latency_ms (config.target_window_ms / 2) in
      let high_ms = u32 (config.target_latency_ms + config.target_window_ms / 2) in
      record {
        store = replicate capacity silence;
        capacity = capacity;
        num_channels = config.num_channels;
        sample_rate = config.sample_rate;
        target_low = ms_to_samples low_ms config.sample_rate;
        target_high = ms_to_samples high_ms config.sample_rate;
        target_centre = ms_to_samples config.target_latency_ms config.sample_rate;
        min_samples = ms_to_samples config.min_latency_ms config.sample_rate;
        max_samples = ms_to_samples config.max_latency_ms config.sample_rate;
        write_pos = 0;
        read_pos = 0;
        state = filling;
        correction_interval = config.correction_interval;
        correction_counter = 0;
        underrun_count = 0;
        overrun_count = 0;
        samples_dropped = 0;
        samples_inserted = 0;
        buffered = 0;
        overflow_flag = false;
      }

  pub copy_to_ring : JitterBuffer A → ℕ → List A → ℕ → List A
  copy_to_ring j pos src floats = write_ring j.capacity j.store pos src floats

  pub copy_from_ring : JitterBuffer A → ℕ → ℕ → List A
  copy_from_ring j pos floats = read_ring j.capacity j.store pos floats

  -- The count, or on overflow the flag and a count of the whole ring.
  pub count_written : JitterBuffer A → ℕ → JitterBuffer A
  count_written j n =
      if ltb j.capacity (u32 (j.buffered + n))
      then record j { overflow_flag = true; buffered = j.capacity }
      else record j { buffered = u32 (j.buffered + n) }

  pub write_samples : JitterBuffer A → List A → ℕ → JitterBuffer A
  unfolding copy_to_ring
  write_samples j src n = record j {
    store = copy_to_ring j j.write_pos src n;
    write_pos = u32 (j.write_pos + n) % j.capacity;
  }

  unfoldable pub write : JitterBuffer A → List A → ℕ → JitterBuffer A
  unfolding count_written write_samples
  write j src float_count =
      if float_count == 0
      then j
      else (if ltb j.capacity float_count
          then write_samples (count_written j j.capacity) (drop (sub32 float_count j.capacity) src)
              j.capacity
          else write_samples (count_written j float_count) src float_count)

  abbrev pub snap_floats : JitterBuffer A → ℕ
  snap_floats j = u32 (j.target_centre * j.num_channels)

  -- The writer's flag: go behind the write position by the target's centre.
  pub overflow_snap : JitterBuffer A → JitterBuffer A
  overflow_snap j =
      let snap = snap_floats j in
      if j.overflow_flag
      then record j {
        overflow_flag = false;
        read_pos =
            if leb snap j.write_pos
            then sub32 j.write_pos snap
            else sub32 j.capacity (sub32 snap j.write_pos);
        buffered = snap;
        overrun_count = u32 (j.overrun_count + 1);
      }
      else j

  abbrev pub fill_samples : JitterBuffer A → ℕ
  fill_samples j = sdiv j.buffered j.num_channels

  -- While filling, playing starts at the low mark; `none` goes on filling.
  pub start_from : JitterBufferState → JitterBuffer A → Option (JitterBuffer A)
  start_from filling j =
      if slt (fill_samples j) j.target_low
      then none
      else some (record j { state = playing; correction_counter = 0 })
  start_from playing j = some j

  pub start_playing : JitterBuffer A → Option (JitterBuffer A)
  unfolding start_from
  start_playing j = start_from j.state j

  -- Too much waits: drop down to the target's centre.
  pub overrun_snap : JitterBuffer A → JitterBuffer A
  overrun_snap j =
      let excess = sub32 j.buffered (snap_floats j) in
      if slt j.max_samples (fill_samples j)
      then record j {
        read_pos = u32 (j.read_pos + excess) % j.capacity;
        buffered = sub32 j.buffered excess;
        overrun_count = u32 (j.overrun_count + 1);
      }
      else j

  abbrev pub drift : JitterBuffer A → Correction
  drift j =
      if slt (fill_samples j) j.target_low
      then insert
      else (if slt j.target_high (fill_samples j) then drop_one else keep)

  abbrev pub is_due : JitterBuffer A → Bool
  is_due j = not (ltb (u32 (j.correction_counter + 1)) j.correction_interval)

  abbrev pub count_read : JitterBuffer A → JitterBuffer A
  count_read j = record j {
    correction_counter = if is_due j then 0 else u32 (j.correction_counter + 1);
  }

  abbrev pub correction : JitterBuffer A → Correction
  correction j = if is_due j then drift j else keep

  -- The floats leave the ring.
  pub consume : JitterBuffer A → ℕ → JitterBuffer A
  consume j n = record j {
    read_pos = u32 (j.read_pos + n) % j.capacity;
    buffered = sub32 j.buffered n;
  }

  pub pad : A → List A → ℕ → List A
  pad silence out rounds = out ++ replicate rounds silence

  -- `dst[i] = dst[last_start + (i - real_floats) % nc]` for the rounds left; `k` is
  -- `i - real_floats`. A place not written yet holds what the caller left in `dst`.
  pub duplicate : (ℕ → A) → ℕ → ℕ → ℕ → ℕ → List A → List A
  duplicate dst last_start nc k zero out = out
  duplicate dst last_start nc k (suc rounds) out =
      let i = last_start + k % nc in
      duplicate dst last_start nc (k + 1) rounds (out ++ (get_or out i (dst i) ∷ []))

  -- The samples that one read takes for `insert`: a frame less, but a frame at least.
  abbrev pub real_floats : JitterBuffer A → ℕ → ℕ
  real_floats j requested =
      smin (at_least j.num_channels (sub32 requested j.num_channels)) j.buffered

  pub produce : A → (ℕ → A) → JitterBuffer A → Correction → ℕ → List A × JitterBuffer A
  unfolding copy_from_ring consume pad duplicate
  produce silence dst j drop_one requested =
      let taken = smin (u32 (requested + j.num_channels)) j.buffered in
      let output = smin requested j.buffered in
      (
        pad silence (copy_from_ring j j.read_pos output) (requested - output),
        record (consume j taken) { samples_dropped = u32 (j.samples_dropped + 1) },
      )
  produce silence dst j insert requested =
      let real = real_floats j requested in
      let copied = copy_from_ring j j.read_pos real in
      let last_start = if slt (sub32 real j.num_channels) 0 then 0 else sub32 real j.num_channels in
      (
        duplicate dst last_start j.num_channels 0 (requested - real) copied,
        record (consume j real) { samples_inserted = u32 (j.samples_inserted + 1) },
      )
  produce silence dst j keep requested =
      let output = smin requested j.buffered in
      (pad silence (copy_from_ring j j.read_pos output) (requested - output), consume j output)

  -- From the underrun test on; `dst` is what the caller's buffer holds before the call.
  pub play : A → (ℕ → A) → JitterBuffer A → ℕ → Bool × List A × JitterBuffer A
  unfolding produce
  play silence dst j float_count =
      let (out, j') = produce silence dst (count_read j) (correction j) float_count in
      if slt (fill_samples j) j.min_samples
      then (
        false,
        replicate float_count silence,
        record j { state = filling; underrun_count = u32 (j.underrun_count + 1) },
      )
      else (true, out, j')

  pub read_started :
      A → (ℕ → A) → JitterBuffer A → Option (JitterBuffer A) → ℕ → Bool × List A × JitterBuffer A
  unfolding play overrun_snap
  read_started silence dst j none float_count = (false, replicate float_count silence, j)
  read_started silence dst j (some j') float_count = play silence dst (overrun_snap j') float_count

  -- Whether there is audio, what `dst` holds, and the buffer.
  unfoldable pub read : A → (ℕ → A) → JitterBuffer A → ℕ → Bool × List A × JitterBuffer A
  unfolding read_started overflow_snap start_playing
  read silence dst j float_count =
      let j1 = overflow_snap j in
      if float_count == 0
      then (true, [], j)
      else read_started silence dst j1 (start_playing j1) float_count
