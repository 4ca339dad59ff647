-- ===== src/Audio/Jitter/Stats.antt =====
-- The statistics of the inbound buffer: get_stats of src/jitter_buffer.cpp. The arithmetic of
-- floats is an argument.
use libpanaudia_core.Prelude.{if◌then◌else◌, slt, ℕ}
use libpanaudia_core.Audio.Jitter.{
  JitterBufferState, JitterBuffer, Correction, insert, keep, drop_one, fill_samples,
}

-- Casts to float and the operations on it. A signed number comes as its bit pattern.
pub record FloatArith (A : Type 0) : Type 0 where
  pub of_unsigned : ℕ → A
  pub of_signed : ℕ → A
  pub divide : A → A → A
  pub multiply : A → A → A
  pub zero_float : A

pub record JitterBufferStats (A : Type 0) : Type 0 where
  pub fill_level_samples : ℕ
  pub fill_level_ms : A
  pub current_zone : Correction
  pub underrun_count : ℕ
  pub overrun_count : ℕ
  pub samples_dropped : ℕ
  pub samples_inserted : ℕ
  pub state : JitterBufferState

module _ {A : Type 0} where
  -- The zone: below the target window, in it, or above it.
  unfoldable pub zone : JitterBuffer A → Correction
  zone j =
      if slt (fill_samples j) j.target_low
      then insert
      else (if slt j.target_high (fill_samples j) then drop_one else keep)

  unfoldable pub get_stats : FloatArith A → JitterBuffer A → JitterBufferStats A
  unfolding zone
  get_stats f j =
      let level = fill_samples j in
      record {
        fill_level_samples = level;
        fill_level_ms =
            f.multiply (f.divide (f.of_signed level) (f.of_unsigned j.sample_rate))
              (f.of_unsigned 1000);
        current_zone = zone j;
        underrun_count = j.underrun_count;
        overrun_count = j.overrun_count;
        samples_dropped = j.samples_dropped;
        samples_inserted = j.samples_inserted;
        state = j.state;
      }
