-- ===== src/Moq/Varint/RoundTrip.antt =====
-- What decode_varint reads back of what encode_varint wrote, and how long that is.
use libpanaudia_core.Prelude.{
  ==_iff, All, Bool, IsByte, IsU64, List, [], arith, bit_and, bit_or, inl, inr, length, refl, suc,
  true, zero, ℕ, ◌%◌, ◌&&◌, ◌*◌, ◌++◌, ◌+◌, ◌/◌, ◌<◌, ◌==◌, ◌^◌, ◌∷◌, ◌≡◌, ◌≤◌, ◌⊎◌,
}
use libpanaudia_core.Prelude.Bits.{bit_or-shifted, bit_and_six, bit_and-byte}
use libpanaudia_core.Moq.Varint.{encode_varint, decode_varint, varint_size}

holds_below : ℕ → (ℕ → Bool) → Bool
holds_below zero p = true
holds_below (suc n) p = p n && holds_below n p

holds_below_at : (n : ℕ) (p : ℕ → Bool) (x : ℕ) → holds_below n p ≡ true → x < n → p x ≡ true
unfolding holds_below
holds_below_at zero p x h lt = absurd (omega arith)
holds_below_at (suc n) p x h lt = ground (arith, holds_below_at n p x)

-- The two bits of the length, set over a byte.
tag_one : (x : ℕ) → x < 64 → bit_or x 0x40 ≡ x + 64
unfolding holds_below
tag_one x h = (==_iff _ _).0 (holds_below_at 64 (λ x. bit_or x 0x40 == x + 64) x refl h)

tag_two : (x : ℕ) → x < 64 → bit_or x 0x80 ≡ x + 128
unfolding holds_below
tag_two x h = (==_iff _ _).0 (holds_below_at 64 (λ x. bit_or x 0x80 == x + 128) x refl h)

tag_three : (x : ℕ) → x < 256 → bit_or x 0xc0 ≡ x % 64 + 192
unfolding holds_below
tag_three x h = (==_iff _ _).0 (holds_below_at 256 (λ x. bit_or x 0xc0 == x % 64 + 192) x refl h)

-- The encoding in plain arithmetic, by size.
encode_one : (v : ℕ) → v < 64 → encode_varint v ≡ v ∷ []
unfolding encode_varint
encode_one v h = ground arith

encode_two : (v : ℕ) → 64 ≤ v → v < 2 ^ 14 → encode_varint v ≡ (v / 256 + 64) ∷ (v % 256) ∷ []
unfolding encode_varint
encode_two v l h = ground (arith, tag_one (v / 256), bit_and-byte v)

encode_four :
    (v : ℕ)
    → 2 ^ 14 ≤ v
    → v < 2 ^ 30
    → encode_varint v ≡ (v / 2 ^ 24 + 128) ∷ (v / 2 ^ 16 % 256) ∷ (v / 2 ^ 8 % 256) ∷ (v % 256) ∷ []
unfolding encode_varint
encode_four v l h = ground (
  arith,
  tag_two (v / 2 ^ 24),
  bit_and-byte (v / 2 ^ 16),
  bit_and-byte (v / 2 ^ 8),
  bit_and-byte v,
)

abbrev eight_bytes : ℕ → List ℕ
eight_bytes v =
    (v / 2 ^ 56 % 64 + 192)
    ∷ (v / 2 ^ 48 % 256)
    ∷ (v / 2 ^ 40 % 256)
    ∷ (v / 2 ^ 32 % 256)
    ∷ (v / 2 ^ 24 % 256)
    ∷ (v / 2 ^ 16 % 256)
    ∷ (v / 2 ^ 8 % 256)
    ∷ (v % 256)
    ∷ []

encode_eight : (v : ℕ) → 2 ^ 30 ≤ v → v < 2 ^ 64 → encode_varint v ≡ eight_bytes v
unfolding encode_varint
encode_eight v l h = ground (
  arith,
  tag_three (v / 2 ^ 56),
  bit_and-byte (v / 2 ^ 48),
  bit_and-byte (v / 2 ^ 40),
  bit_and-byte (v / 2 ^ 32),
  bit_and-byte (v / 2 ^ 24),
  bit_and-byte (v / 2 ^ 16),
  bit_and-byte (v / 2 ^ 8),
  bit_and-byte v,
)

-- Two bytes joined, and so on up: big-endian reading as a sum.
join_two : (a b : ℕ) → b < 2 ^ 8 → bit_or (a * 2 ^ 8) b ≡ a * 2 ^ 8 + b
join_two a b h = bit_or-shifted 8 a b h

decode_one : (v : ℕ) (rest : List ℕ) → v < 64 → decode_varint (v ∷ rest) ≡ (v, 1)
unfolding decode_varint
decode_one v rest h = ground (arith, bit_and_six v)

decode_two :
    (a b : ℕ) (rest : List ℕ)
    → a < 64
    → b < 256
    → decode_varint ((a + 64) ∷ b ∷ rest) ≡ (a * 2 ^ 8 + b, 2)
unfolding decode_varint
decode_two a b rest ha hb =
    ground (arith, bit_and_six (a + 64), bit_or-shifted 8 (bit_and (a + 64) 0x3f) b)

decode_four :
    (a b c d : ℕ) (rest : List ℕ)
    → a < 64
    → b < 256
    → c < 256
    → d < 256
    → decode_varint ((a + 128) ∷ b ∷ c ∷ d ∷ rest) ≡ (a * 2 ^ 24 + b * 2 ^ 16 + c * 2 ^ 8 + d, 4)
unfolding decode_varint
decode_four a b c d rest ha hb hc hd = ground (
  arith,
  bit_and_six (a + 128),
  bit_or-shifted 8 c d,
  bit_or-shifted 16 b (c * 2 ^ 8 + d),
  bit_or-shifted 24 a (b * 2 ^ 16 + (c * 2 ^ 8 + d)),
)

abbrev sum_eight : (a b c d e f g h : ℕ) → ℕ
sum_eight a b c d e f g h =
    a * 2 ^ 56
    + (b * 2 ^ 48 + (c * 2 ^ 40 + (d * 2 ^ 32 + (e * 2 ^ 24 + (f * 2 ^ 16 + (g * 2 ^ 8 + h))))))

decode_eight :
    (a b c d e f g h : ℕ) (rest : List ℕ)
    → a < 64
    → All IsByte (b ∷ c ∷ d ∷ e ∷ f ∷ g ∷ h ∷ [])
    → decode_varint ((a + 192) ∷ b ∷ c ∷ d ∷ e ∷ f ∷ g ∷ h ∷ rest) ≡ (sum_eight a b c d e f g h, 8)
unfolding decode_varint
decode_eight a b c d e f g h rest ha hs = ground (
  arith,
  bit_and_six (a + 192),
  bit_or-shifted 8 g h,
  bit_or-shifted 16 f (g * 2 ^ 8 + h),
  bit_or-shifted 24 e (f * 2 ^ 16 + (g * 2 ^ 8 + h)),
  bit_or-shifted 32 d (e * 2 ^ 24 + (f * 2 ^ 16 + (g * 2 ^ 8 + h))),
  bit_or-shifted 40 c (d * 2 ^ 32 + (e * 2 ^ 24 + (f * 2 ^ 16 + (g * 2 ^ 8 + h)))),
  bit_or-shifted 48 b (c * 2 ^ 40 + (d * 2 ^ 32 + (e * 2 ^ 24 + (f * 2 ^ 16 + (g * 2 ^ 8 + h))))),
  bit_or-shifted 56 a
      (b * 2 ^ 48 + (c * 2 ^ 40 + (d * 2 ^ 32 + (e * 2 ^ 24 + (f * 2 ^ 16 + (g * 2 ^ 8 + h)))))),
)

-- The four ranges of a 64-bit value.
ranges :
    (v : ℕ)
    → IsU64 v
    → (v < 64) ⊎ (((64 ≤ v) × (v < 2 ^ 14)) ⊎ (((2 ^ 14 ≤ v) × (v < 2 ^ 30)) ⊎ (2 ^ 30 ≤ v)))
ranges v h = grind arith

pub length-encode_varint : (v : ℕ) → IsU64 v → length (encode_varint v) ≡ varint_size v
unfolding varint_size
length-encode_varint v h = elim (ranges v h) [
  | inl a ↦ rw (encode_one v a) (ground arith)
  | inr (inl (a, b)) ↦ rw (encode_two v a b) (ground arith)
  | inr (inr (inl (a, b))) ↦ rw (encode_four v a b) (ground arith)
  | inr (inr (inr a)) ↦ rw (encode_eight v a h) (ground arith)
]

pub varint_size_bounds : (v : ℕ) → (1 ≤ varint_size v) × (varint_size v ≤ 8)
unfolding varint_size
varint_size_bounds v = ground arith

pub encode_varint-All : (v : ℕ) → IsU64 v → All IsByte (encode_varint v)
encode_varint-All v h = elim (ranges v h) [
  | inl a ↦ rw (encode_one v a) (omega arith)
  | inr (inl (a, b)) ↦ rw (encode_two v a b) (omega arith)
  | inr (inr (inl (a, b))) ↦ rw (encode_four v a b) (omega arith)
  | inr (inr (inr a)) ↦ rw (encode_eight v a h) (omega arith)
]

-- decode_varint reads back what encode_varint wrote of any 64-bit value, whatever bytes follow:
-- the value itself below 2^62, and above that its low 62 bits, since the two top bits of the first
-- byte hold the length. The bytes read are the size that varint_size announces.
pub decode-encode :
    (v : ℕ) (rest : List ℕ)
    → IsU64 v
    → decode_varint (encode_varint v ++ rest) ≡ (v % 2 ^ 62, varint_size v)
unfolding varint_size
decode-encode v rest h = elim (ranges v h) [
  | inl a ↦ rw (encode_one v a) (ground (arith, decode_one v rest))
  | inr (inl (a, b)) ↦ rw (encode_two v a b) (ground (arith, decode_two (v / 256) (v % 256) rest))
  | inr (inr (inl (a, b))) ↦
      rw (encode_four v a b) (
        ground
          (arith, decode_four (v / 2 ^ 24) (v / 2 ^ 16 % 256) (v / 2 ^ 8 % 256) (v % 256) rest))
  | inr (inr (inr a)) ↦ rw (encode_eight v a h) (
      ground (
        arith,
        decode_eight (v / 2 ^ 56 % 64) (v / 2 ^ 48 % 256) (v / 2 ^ 40 % 256) (v / 2 ^ 32 % 256)
            (v / 2 ^ 24 % 256) (v / 2 ^ 16 % 256) (v / 2 ^ 8 % 256) (v % 256) rest,
      ))
]
