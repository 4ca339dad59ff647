-- ===== src/Audio/Ring/Tests.antt =====
-- Runs of the outbound buffer on a ring of four floats and two channels.
use libpanaudia_core.Prelude.{
  [], arith, drop, length, min, refl, take, u32, ℕ, ◌*◌, ◌++◌, ◌-◌, ◌/◌, ◌∷◌, ◌≡◌,
}
use libpanaudia_core.Audio.Ring.{RingBuffer, write, read}
use libpanaudia_core.Audio.Ring.Valid.{IsValid}
use libpanaudia_core.Audio.Ring.Refine.{write_refines, read_refines}
use libpanaudia_core.Audio.Ring.Contents.{contents}

abbrev silence : ℕ
silence = 0

-- Three floats wait, round the end of the storage.
abbrev wrapped : RingBuffer ℕ
wrapped = record {
  store = 3 ∷ 9 ∷ 1 ∷ 2 ∷ [];
  capacity_floats = 4;
  capacity_frames = 2;
  channels = 2;
  write_pos = 1;
  read_pos = 2;
  buffered = 3;
}

wrapped-IsValid : IsValid wrapped
wrapped-IsValid = record {
  storage = refl;
  some_room = omega arith;
  small = omega arith;
  write_in = omega arith;
  read_in = omega arith;
  count_in = omega arith;
  in_step = refl;
}

write_refines_example :
    let all = contents 0 wrapped ++ take (u32 (1 * wrapped.channels)) (5 ∷ 6 ∷ []) in
    contents 0 (write wrapped (5 ∷ 6 ∷ []) 1).1 ≡ drop (length all - wrapped.capacity_floats) all
write_refines_example = write_refines 0 wrapped (5 ∷ 6 ∷ []) 1 wrapped-IsValid (omega arith)

read_refines_example :
    let n = min (u32 (1 * wrapped.channels)) wrapped.buffered in
    ((read wrapped 1).1 ≡ take n (contents 0 wrapped))
    × (contents 0 (read wrapped 1).2 ≡ drop n (contents 0 wrapped))
    × ((read wrapped 1).0 ≡ n / wrapped.channels)
read_refines_example = read_refines 0 wrapped 1 wrapped-IsValid
