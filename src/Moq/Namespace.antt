-- ===== src/Moq/Namespace.antt =====
-- Namespace tuples: encode_namespace and decode_namespace of src/moq_protocol.cpp. A string is the
-- list of its bytes.
pub mod RoundTrip
use libpanaudia_core.Prelude.{
  List, [], if◌then◌else◌, length, ltb, suc, zero, ℕ, ◌-◌, ◌/◌, ◌^◌, ◌∷◌,
}
use libpanaudia_core.Moq.Reader.{
  fault, Parsed, ok, ◌>>=◌, Cursor, append_varint, append_string_bytes, read_varint, read_string,
}

encode_parts : List ℕ → List (List ℕ) → List ℕ
encode_parts result [] = result
encode_parts result (part ∷ parts) = encode_parts (append_string_bytes result part) parts

unfoldable pub encode_namespace : List (List ℕ) → List ℕ
unfolding encode_parts
encode_namespace parts = encode_parts (append_varint [] (length parts)) parts

-- The loop, over the rounds left; a failure ends it.
decode_parts : ℕ → Cursor → Parsed (List (List ℕ) × Cursor)
decode_parts zero c = ok ([], c)
decode_parts (suc n) c = do
  (part, c1) ← read_string c
  (parts, c2) ← decode_parts n c1
  ok (part ∷ parts, c2)

-- What a vector of strings, of 32 bytes each, may hold on a 64-bit machine.
abbrev pub max_parts : ℕ
max_parts = (2 ^ 63 - 1) / 32

-- `parts.reserve(count)` throws above that; below it, memory is taken to be there.
unfoldable pub decode_namespace : Cursor → Parsed (List (List ℕ) × Cursor)
unfolding decode_parts
decode_namespace c = do
  (count, c1) ← read_varint c
  if ltb max_parts count then fault else decode_parts count c1
