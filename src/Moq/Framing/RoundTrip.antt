-- ===== src/Moq/Framing/RoundTrip.antt =====
-- parse_control_message reads back what build_control_message framed.
use libpanaudia_core.Prelude.{
  List, [], ap, append_assoc, arith, bit_and, drop, get_or, get_or-append, length, length-append,
  refl, some, suc, take-append_length, u16, u8, ℕ, ◌%◌, ◌*◌, ◌++◌, ◌+◌, ◌-◌, ◌<◌, ◌>>>◌, ◌^◌, ◌∙◌,
  ◌∷◌, ◌≡◌,
}
use libpanaudia_core.Prelude.Bits.{bit_or-shifted, bit_and-byte}
use libpanaudia_core.Moq.Varint.{encode_varint, varint_size}
use libpanaudia_core.Moq.Varint.RoundTrip.{decode-encode, length-encode_varint, varint_size_bounds}
use libpanaudia_core.Moq.Reader.Laws.{IsVarint}
use libpanaudia_core.Moq.Framing.{
  build_control_message, parse_control_message, content_length, parse_content,
}

-- The rest of a frame, behind a type of `length front` bytes.
content_length_at :
    (front body : List ℕ) (hi lo : ℕ)
    → hi < 256
    → lo < 256
    → content_length (front ++ (hi ∷ lo ∷ body)) (length front) ≡ hi * 256 + lo
unfolding content_length
content_length_at front body hi lo hh hl = ground (
  arith,
  get_or-append front (hi ∷ lo ∷ body) (length front) 0,
  get_or-append front (hi ∷ lo ∷ body) (length front + 1) 0,
  at (length front - length front) 0 (omega arith),
  at (length front + 1 - length front) 1 (omega arith),
  bit_or-shifted 8 hi lo,
)
  where
    at : (i j : ℕ) → i ≡ j → get_or (hi ∷ lo ∷ body) i 0 ≡ get_or (hi ∷ lo ∷ body) j 0
    at i j e = ap (λ k. get_or (hi ∷ lo ∷ body) k 0) e

drop-append_two :
    (front body : List ℕ) (hi lo : ℕ) → drop (length front + 2) (front ++ (hi ∷ lo ∷ body)) ≡ body
drop-append_two [] body hi lo = refl
drop-append_two (f ∷ fs) body hi lo =
    ap (λ k. drop k (f ∷ (fs ++ (hi ∷ lo ∷ body)))) (shift (length fs))
    ∙ drop-append_two fs body hi lo
  where
    shift : (n : ℕ) → suc n + 2 ≡ suc (n + 2)
    shift n = omega arith

parse_content_at :
    (t hi lo : ℕ) (front content rest : List ℕ)
    → hi < 256
    → lo < 256
    → hi * 256 + lo ≡ length content
    → parse_content (front ++ (hi ∷ lo ∷ (content ++ rest))) t (length front)
      ≡ some (record { type = t; content = content; consumed = length front + 2 + length content })
unfolding parse_content
parse_content_at t hi lo front content rest hh hl e =
    rw
      (
        content_length_at front (content ++ rest) hi lo hh hl,
        drop-append_two front (content ++ rest) hi lo,
        e,
        take-append_length content rest,
      )
      (ground
        (arith, length-append front (hi ∷ lo ∷ (content ++ rest)), length-append content rest))

-- What build_control_message framed of a type below 2^62 and content below 64 KiB is read back
-- whole, type and content, and the bytes consumed end where the next message begins.
pub parse-build_control_message :
    (type : ℕ) (content rest : List ℕ)
    → IsVarint type
    → length content < 2 ^ 16
    → parse_control_message (build_control_message type content ++ rest)
      ≡ some (record {
        type = type;
        content = content;
        consumed = varint_size type + 2 + length content;
      })
unfolding parse_control_message build_control_message
parse-build_control_message type content rest ht hc =
    rw
      (
        append_assoc (encode_varint type) (hi ∷ lo ∷ content) rest,
        decode-encode type (hi ∷ lo ∷ (content ++ rest)) (omega arith),
      )
      (ground (
        arith,
        varint_size_bounds type,
        ap (λ k. k + 0) (length-encode_varint type (omega arith)),
        length-append (encode_varint type) (hi ∷ lo ∷ (content ++ rest)),
        at_size,
        type_kept,
      ))
  where
    hi : ℕ
    hi = u8 (u16 (length content) >>> 8)

    lo : ℕ
    lo = bit_and (u16 (length content)) 0xff

    fits : hi * 256 + lo ≡ length content
    fits = omega (arith, bit_and-byte (u16 (length content)))

    type_kept : type % 2 ^ 62 ≡ type
    type_kept = omega arith

    at_size :
        parse_content (encode_varint type ++ (hi ∷ lo ∷ (content ++ rest))) type (varint_size type)
        ≡ some (record {
          type = type;
          content = content;
          consumed = varint_size type + 2 + length content;
        })
    at_size = rw (← length-encode_varint type (omega arith)) (
        parse_content_at type hi lo (encode_varint type) content rest (omega arith)
          (omega (arith, bit_and-byte (u16 (length content)))) fits)
