-- ===== src/Audio/Jitter/Tests.antt =====
-- Runs of the inbound buffer on a ring of eight floats and one channel.
use libpanaudia_core.Prelude.{[], arith, false, inr, refl, ℕ, ◌+◌, ◌∷◌, ◌≡◌}
use libpanaudia_core.Audio.Jitter.{playing, JitterBuffer, drop_one, produce, read}
use libpanaudia_core.Audio.Jitter.Valid.{IsConfigured, IsValid}
use libpanaudia_core.Audio.Jitter.Reads.{produce_refines, Sound, read-Sound}
use libpanaudia_core.Audio.Jitter.Copies.{taken, Served}

-- Five samples wait, round the end of the storage.
abbrev half_full : JitterBuffer ℕ
half_full = record {
  store = 3 ∷ 4 ∷ 5 ∷ 0 ∷ 0 ∷ 0 ∷ 1 ∷ 2 ∷ [];
  capacity = 8;
  num_channels = 1;
  sample_rate = 1000;
  target_low = 3;
  target_high = 5;
  target_centre = 4;
  min_samples = 1;
  max_samples = 7;
  write_pos = 3;
  read_pos = 6;
  state = playing;
  correction_interval = 4;
  correction_counter = 0;
  underrun_count = 0;
  overrun_count = 0;
  samples_dropped = 0;
  samples_inserted = 0;
  buffered = 5;
  overflow_flag = false;
}

half_full-IsConfigured : IsConfigured half_full
half_full-IsConfigured = record {
  some_room = omega arith;
  small = omega arith;
  some_channels = omega arith;
  few_channels = omega arith;
  low_fits = omega arith;
  max_fits = omega arith;
  min_fits = omega arith;
  centre_fits = omega arith;
  centre_below = omega arith;
}

half_full-IsValid : IsValid half_full
half_full-IsValid = record {
  configured = half_full-IsConfigured;
  storage = refl;
  write_in = omega arith;
  read_in = omega arith;
  count_in = omega arith;
  in_step = inr refl;
}

-- The caller's buffer before a read.
abbrev stale : ℕ → ℕ
stale i = 90 + i

-- A sample is taken in excess of the two asked for.
produce_refines_example :
    let r = produce 0 stale half_full drop_one 2 in
    Served 0 half_full 2 (taken 0 half_full drop_one 2) r.0 r.1
    × (r ≡ produce 0 (λ i. 0) half_full drop_one 2)
produce_refines_example =
    produce_refines 0 stale (λ i. 0) half_full drop_one 2 half_full-IsValid (omega arith)
      (omega arith) (omega arith)

read-Sound_example :
    Sound 0 stale 2 (read 0 stale half_full 2)
    × (read 0 stale half_full 2 ≡ read 0 (λ i. 0) half_full 2)
read-Sound_example =
    read-Sound 0 stale (λ i. 0) half_full 2 half_full-IsValid (omega arith) (omega arith)
      (omega arith)
