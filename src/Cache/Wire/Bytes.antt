-- ===== src/Cache/Wire/Bytes.antt =====
-- The big-endian readers read back what the writers wrote.
use libpanaudia_core.Prelude.{
  All, IsByte, IsU32, IsU64, List, [], arith, u8, ℕ, ◌*◌, ◌++◌, ◌+◌, ◌/◌, ◌<◌, ◌^◌, ◌∙◌, ◌∷◌, ◌≡◌,
}
use libpanaudia_core.Prelude.Bits.{bit_or-shifted}
use libpanaudia_core.Cache.Wire.{
  read_u16_be, read_u32_be, read_u64_be, write_u16_be, write_u32_be, write_u64_be,
}

pub read-write_u16_be :
    (v : ℕ) (rest : List ℕ) → v < 2 ^ 16 → read_u16_be (write_u16_be v ++ rest) ≡ v
unfolding read_u16_be write_u16_be
read-write_u16_be v rest h = ground (arith, bit_or-shifted 8 (u8 (v / 2 ^ 8)) (u8 v))

-- Four and eight bytes as sums.
abbrev sum_four : (a b c d : ℕ) → ℕ
sum_four a b c d = a * 2 ^ 24 + (b * 2 ^ 16 + (c * 2 ^ 8 + d))

read_u32_be_sum :
    (a b c d : ℕ) (rest : List ℕ)
    → All IsByte (a ∷ b ∷ c ∷ d ∷ [])
    → read_u32_be (a ∷ b ∷ c ∷ d ∷ rest) ≡ sum_four a b c d
unfolding read_u32_be
read_u32_be_sum a b c d rest h = ground (
  arith,
  bit_or-shifted 8 c d,
  bit_or-shifted 16 b (c * 2 ^ 8 + d),
  bit_or-shifted 24 a (b * 2 ^ 16 + (c * 2 ^ 8 + d)),
)

pub read-write_u32_be : (v : ℕ) (rest : List ℕ) → IsU32 v → read_u32_be (write_u32_be v ++ rest) ≡ v
unfolding write_u32_be
read-write_u32_be v rest h =
    read_u32_be_sum (u8 (v / 2 ^ 24)) (u8 (v / 2 ^ 16)) (u8 (v / 2 ^ 8)) (u8 v) rest (omega arith)
    ∙ omega arith

read_u64_be_sum :
    (a b c d e f g i : ℕ) (rest : List ℕ)
    → All IsByte (a ∷ b ∷ c ∷ d ∷ e ∷ f ∷ g ∷ i ∷ [])
    → read_u64_be (a ∷ b ∷ c ∷ d ∷ e ∷ f ∷ g ∷ i ∷ rest)
      ≡ sum_four a b c d * 2 ^ 32 + sum_four e f g i
unfolding read_u64_be
read_u64_be_sum a b c d e f g i rest h = ground (
  arith,
  bit_or-shifted 8 g i,
  bit_or-shifted 16 f (g * 2 ^ 8 + i),
  bit_or-shifted 24 e (f * 2 ^ 16 + (g * 2 ^ 8 + i)),
  bit_or-shifted 32 d (e * 2 ^ 24 + (f * 2 ^ 16 + (g * 2 ^ 8 + i))),
  bit_or-shifted 40 c (d * 2 ^ 32 + (e * 2 ^ 24 + (f * 2 ^ 16 + (g * 2 ^ 8 + i)))),
  bit_or-shifted 48 b (c * 2 ^ 40 + (d * 2 ^ 32 + (e * 2 ^ 24 + (f * 2 ^ 16 + (g * 2 ^ 8 + i))))),
  bit_or-shifted 56 a
      (b * 2 ^ 48 + (c * 2 ^ 40 + (d * 2 ^ 32 + (e * 2 ^ 24 + (f * 2 ^ 16 + (g * 2 ^ 8 + i)))))),
)

pub read-write_u64_be : (v : ℕ) (rest : List ℕ) → IsU64 v → read_u64_be (write_u64_be v ++ rest) ≡ v
unfolding write_u64_be
read-write_u64_be v rest h =
    read_u64_be_sum (u8 (v / 2 ^ 56)) (u8 (v / 2 ^ 48)) (u8 (v / 2 ^ 40)) (u8 (v / 2 ^ 32))
      (u8 (v / 2 ^ 24)) (u8 (v / 2 ^ 16)) (u8 (v / 2 ^ 8)) (u8 v) rest (omega arith)
    ∙ omega arith
