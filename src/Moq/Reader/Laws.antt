-- ===== src/Moq/Reader/Laws.antt =====
-- What the readers return on what the writers wrote, and on any input.
use libpanaudia_core.Prelude.{
  List, ap, append_assoc, arith, drop, drop-append_length, length, length-append,
  take-append_length, ℕ, ◌++◌, ◌+◌, ◌<◌, ◌^◌, ◌≡◌,
}
use libpanaudia_core.Moq.Varint.{encode_varint, varint_size}
use libpanaudia_core.Moq.Varint.RoundTrip.{decode-encode, length-encode_varint, varint_size_bounds}
use libpanaudia_core.Moq.Reader.{ok, cursor, read_varint, read_bytes, read_string}

-- A value that a varint can carry.
abbrev pub IsVarint : ℕ → Type 0
IsVarint v = v < 2 ^ 62

pub drop-encode :
    (v : ℕ) (rest : List ℕ) → IsVarint v → drop (varint_size v) (encode_varint v ++ rest) ≡ rest
drop-encode v rest h =
    rw (← length-encode_varint v (omega arith)) (drop-append_length (encode_varint v) rest)

pub read_varint-encode :
    (v o : ℕ) (rest : List ℕ)
    → IsVarint v
    → read_varint (cursor o (encode_varint v ++ rest)) ≡ ok (v, cursor (o + varint_size v) rest)
unfolding read_varint
read_varint-encode v o rest h =
    rw (decode-encode v rest (omega arith))
      (ground (arith, varint_size_bounds v, drop-encode v rest))

pub read_bytes-append :
    (s rest : List ℕ) (o : ℕ)
    → o + length s < 2 ^ 31
    → read_bytes (cursor o (s ++ rest)) (length s) ≡ ok (s, cursor (o + length s) rest)
unfolding read_bytes
read_bytes-append s rest o h =
    ground (arith, length-append s rest, take-append_length s rest, drop-append_length s rest)

abbrev pub string_bytes : List ℕ → List ℕ
string_bytes s = encode_varint (length s) ++ s

abbrev pub string_size : List ℕ → ℕ
string_size s = varint_size (length s) + length s

pub read_string-string_bytes :
    (s rest : List ℕ) (o : ℕ)
    → o + string_size s < 2 ^ 31
    → read_string (cursor o (string_bytes s ++ rest)) ≡ ok (s, cursor (o + string_size s) rest)
unfolding read_string
read_string-string_bytes s rest o h =
    rw
      (
        append_assoc (encode_varint (length s)) s rest,
        read_varint-encode (length s) o (s ++ rest) (omega arith),
        read_bytes-append s rest (o + varint_size (length s)) (omega arith),
      )
      (ap (λ k. ok (s, cursor k rest)) (omega arith))
