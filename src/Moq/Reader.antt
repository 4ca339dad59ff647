-- ===== src/Moq/Reader.antt =====
-- The readers at the top of src/moq_protocol.cpp: append_varint, append_string_bytes,
-- read_varint, read_string, read_byte. `buffer`, `buffer_len` and `offset` are a cursor: the
-- offset reached and the bytes from there to the end of the buffer. `int32_t` offsets and the
-- casts of a 64-bit length to `int32_t` are written out; `fault` is undefined behaviour (a read
-- outside the buffer, or a signed sum that does not fit) or an exception, which no caller catches.
pub mod Laws
use libpanaudia_core.Prelude.{
  List, [], drop, if◌then◌else◌, leb, length, ltb, take, u32, ℕ, ◌++◌, ◌+◌, ◌==◌, ◌^◌, ◌∷◌,
}
use libpanaudia_core.Moq.Varint.{encode_varint, decode_varint}

pub data Parsed {ℓ} (A : Type ℓ) : Type ℓ where
  ok : A → Parsed A
  fail : Parsed A
  fault : Parsed A

infixl 5 ◌>>=◌
abbrev pub ◌>>=◌ {ℓ κ} : {A : Type ℓ} {B : Type κ} → Parsed A → (A → Parsed B) → Parsed B
ok a >>= f = f a
fail >>= f = fail
fault >>= f = fault

pub record Cursor : Type 0 where
  pub offset : ℕ
  pub rest : List ℕ

abbrev pub cursor : ℕ → List ℕ → Cursor
cursor o r = record { offset = o; rest = r }

abbrev pub advance : Cursor → ℕ → Cursor
advance c n = cursor (c.offset + n) (drop n c.rest)

-- `vec` with the encoding of `value` at its end.
abbrev pub append_varint : List ℕ → ℕ → List ℕ
append_varint vec value = vec ++ encode_varint value

abbrev pub append_string_bytes : List ℕ → List ℕ → List ℕ
append_string_bytes vec str = append_varint vec (length str) ++ str

unfoldable pub read_varint : Cursor → Parsed (ℕ × Cursor)
read_varint c = let d = decode_varint c.rest in if d.1 == 0 then fail else ok (d.0, advance c d.1)

-- `if (offset + static_cast<int32_t>(len) > buffer_len) return false;`, then the copy of `len`
-- bytes from `offset` on, and `offset += static_cast<int32_t>(len)`.
-- A length whose cast is negative passes the test, and so does one of 2^32 and more whose low
-- 32 bits are small: the copy then reads outside the buffer.
unfoldable pub read_bytes : Cursor → ℕ → Parsed (List ℕ × Cursor)
read_bytes c len =
    if leb (2 ^ 31) (u32 len)
    then fault
    else (if leb (2 ^ 31) (c.offset + u32 len)
        then fault
        else (if ltb (length c.rest) (u32 len)
            then fail
            else (if ltb (length c.rest) len then fault else ok (take len c.rest, advance c len))))

unfoldable pub read_string : Cursor → Parsed (List ℕ × Cursor)
read_string c = do (len, c1) ← read_varint c; read_bytes c1 len

unfoldable pub read_byte : Cursor → Parsed (ℕ × Cursor)
read_byte c = first c.rest
  where
    first : List ℕ → Parsed (ℕ × Cursor)
    first [] = fail
    first (b ∷ bs) = ok (b, cursor (c.offset + 1) bs)
