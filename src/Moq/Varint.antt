-- ===== src/Moq/Varint.antt =====
-- Variable-length integers (RFC 9000, section 16): encode_varint, decode_varint, varint_size of
-- src/moq_protocol.cpp. A byte buffer is the list of its bytes.
pub mod RoundTrip
use libpanaudia_core.Prelude.{
  List, [], bit_and, bit_or, get_or, if◌then◌else◌, leb, length, ltb, u8, ℕ, ◌<<<◌, ◌==◌, ◌>>>◌,
  ◌∷◌,
}

unfoldable pub encode_varint : ℕ → List ℕ
encode_varint value =
    if leb value 63
    then u8 value ∷ []
    else (if leb value 16383
        then u8 (bit_or (value >>> 8) 0x40) ∷ bit_and value 0xff ∷ []
        else (if leb value 1073741823
            then u8 (bit_or (value >>> 24) 0x80)
              ∷ bit_and (value >>> 16) 0xff
              ∷ bit_and (value >>> 8) 0xff
              ∷ bit_and value 0xff
              ∷ []
            else u8 (bit_or (value >>> 56) 0xc0)
              ∷ bit_and (value >>> 48) 0xff
              ∷ bit_and (value >>> 40) 0xff
              ∷ bit_and (value >>> 32) 0xff
              ∷ bit_and (value >>> 24) 0xff
              ∷ bit_and (value >>> 16) 0xff
              ∷ bit_and (value >>> 8) 0xff
              ∷ bit_and value 0xff
              ∷ []))

-- `(a << k) | b`
abbrev join : ℕ → ℕ → ℕ → ℕ
join k a b = bit_or (a <<< k) b

-- The value, and the bytes read: 0 of them when the buffer is too short.
unfoldable pub decode_varint : List ℕ → ℕ × ℕ
decode_varint buffer =
    let b = λ (i : ℕ). get_or buffer i 0 in
    let prefix = b 0 >>> 6 in
    if ltb (length buffer) 1
    then (0, 0)
    else (if prefix == 0
        then (bit_and (b 0) 0x3f, 1)
        else (if prefix == 1
            then (if ltb (length buffer) 2 then (0, 0) else (join 8 (bit_and (b 0) 0x3f) (b 1), 2))
            else (if prefix == 2
                then (if ltb (length buffer) 4
                    then (0, 0)
                    else (join 24 (bit_and (b 0) 0x3f) (join 16 (b 1) (join 8 (b 2) (b 3))), 4))
                else (if prefix == 3
                    then (if ltb (length buffer) 8 then (0, 0) else (
                      join 56 (bit_and (b 0) 0x3f) (
                          join 48 (b 1) (
                            join 40 (b 2) (
                              join 32 (b 3) (join 24 (b 4) (join 16 (b 5) (join 8 (b 6) (b 7))))))),
                      8,
                    ))
                    else (0, 0)))))

unfoldable pub varint_size : ℕ → ℕ
varint_size value =
    if leb value 63
    then 1
    else (if leb value 16383 then 2 else (if leb value 1073741823 then 4 else 8))
