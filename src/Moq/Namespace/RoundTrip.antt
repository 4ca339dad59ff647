-- ===== src/Moq/Namespace/RoundTrip.antt =====
-- decode_namespace reads back what encode_namespace wrote.
use libpanaudia_core.Prelude.{
  List, [], ap, append-nil, append_assoc, arith, false, length, length-append, ltb, refl, sym, ℕ,
  ◌++◌, ◌+◌, ◌<◌, ◌^◌, ◌∙◌, ◌∷◌, ◌≡◌, ◌≤◌,
}
use libpanaudia_core.Moq.Varint.{encode_varint, varint_size}
use libpanaudia_core.Moq.Varint.RoundTrip.{length-encode_varint, varint_size_bounds}
use libpanaudia_core.Moq.Reader.{ok, cursor, append_string_bytes}
use libpanaudia_core.Moq.Reader.Laws.{
  IsVarint, read_varint-encode, string_bytes, string_size, read_string-string_bytes,
}
use libpanaudia_core.Moq.Namespace.{
  max_parts, encode_parts, encode_namespace, decode_parts, decode_namespace,
}

abbrev pub parts_bytes : List (List ℕ) → List ℕ
parts_bytes [] = []
parts_bytes (p ∷ ps) = string_bytes p ++ parts_bytes ps

abbrev pub parts_size : List (List ℕ) → ℕ
parts_size [] = 0
parts_size (p ∷ ps) = string_size p + parts_size ps

abbrev pub namespace_size : List (List ℕ) → ℕ
namespace_size ps = varint_size (length ps) + parts_size ps

encode_parts-bytes :
    (result : List ℕ) (ps : List (List ℕ)) → encode_parts result ps ≡ result ++ parts_bytes ps
unfolding encode_parts
encode_parts-bytes result [] = sym (append-nil result)
encode_parts-bytes result (p ∷ ps) =
    encode_parts-bytes (append_string_bytes result p) ps ∙ simp append_assoc

pub encode_namespace-bytes :
    (ps : List (List ℕ)) → encode_namespace ps ≡ encode_varint (length ps) ++ parts_bytes ps
unfolding encode_namespace
encode_namespace-bytes ps = encode_parts-bytes (encode_varint (length ps)) ps

decode_parts-bytes :
    (ps : List (List ℕ)) (o : ℕ) (rest : List ℕ)
    → o + parts_size ps < 2 ^ 31
    → decode_parts (length ps) (cursor o (parts_bytes ps ++ rest))
      ≡ ok (ps, cursor (o + parts_size ps) rest)
unfolding decode_parts
decode_parts-bytes [] o rest h = ap (λ k. ok ([], cursor k rest)) (omega arith)
decode_parts-bytes (p ∷ ps) o rest h =
    rw
      (
        append_assoc (string_bytes p) (parts_bytes ps) rest,
        read_string-string_bytes p (parts_bytes ps ++ rest) o (omega arith),
        decode_parts-bytes ps (o + string_size p) rest (omega arith),
      )
      (ap (λ k. ok (p ∷ ps, cursor k rest)) (omega arith))

parts_size-ge : (ps : List (List ℕ)) → length ps ≤ parts_size ps
parts_size-ge [] = omega arith
parts_size-ge (p ∷ ps) = omega (arith, varint_size_bounds (length p), parts_size-ge ps)

-- A namespace of fewer than 2^62 parts of which every byte stands below offset 2^31 of the buffer
-- is read back as it was written, and what follows it is left.
pub decode-encode_namespace :
    (ps : List (List ℕ)) (o : ℕ) (rest : List ℕ)
    → IsVarint (length ps)
    → o + namespace_size ps < 2 ^ 31
    → decode_namespace (cursor o (encode_namespace ps ++ rest))
      ≡ ok (ps, cursor (o + namespace_size ps) rest)
unfolding decode_namespace
decode-encode_namespace ps o rest hc h =
    rw
      (
        encode_namespace-bytes ps,
        append_assoc (encode_varint (length ps)) (parts_bytes ps) rest,
        read_varint-encode (length ps) o (parts_bytes ps ++ rest) hc,
        granted,
        decode_parts-bytes ps (o + varint_size (length ps)) rest (omega arith),
      )
      (ap (λ k. ok (ps, cursor k rest)) (omega arith))
  where
    granted : ltb max_parts (length ps) ≡ false
    granted = ground (arith, parts_size-ge ps)

length-parts_bytes :
    (ps : List (List ℕ)) → parts_size ps < 2 ^ 31 → length (parts_bytes ps) ≡ parts_size ps
length-parts_bytes [] h = refl
length-parts_bytes (p ∷ ps) h = omega (
  arith,
  length-append (string_bytes p) (parts_bytes ps),
  length-append (encode_varint (length p)) p,
  length-encode_varint (length p) (omega arith),
  length-parts_bytes ps (omega arith),
)

pub length-encode_namespace :
    (ps : List (List ℕ))
    → namespace_size ps < 2 ^ 31
    → length (encode_namespace ps) ≡ namespace_size ps
length-encode_namespace ps h = rw (encode_namespace-bytes ps) (
    omega (
      arith,
      length-append (encode_varint (length ps)) (parts_bytes ps),
      length-encode_varint (length ps) (omega (arith, parts_size-ge ps)),
      length-parts_bytes ps (omega arith),
    ))

pub length-IsVarint : (ps : List (List ℕ)) → namespace_size ps < 2 ^ 31 → IsVarint (length ps)
length-IsVarint ps h = omega (arith, parts_size-ge ps)
