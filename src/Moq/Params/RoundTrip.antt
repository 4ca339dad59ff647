-- ===== src/Moq/Params/RoundTrip.antt =====
-- decode_params reads back what encode_params wrote.
use libpanaudia_core.Prelude.{
  All, Bool-cases, List, [], ap, append-nil, append_assoc, arith, false, if◌then◌else◌, inl, inr,
  length, length-append, ltb, map, refl, sym, true, u64, ℕ, ◌++◌, ◌+◌, ◌-◌, ◌<◌, ◌^◌, ◌∙◌, ◌∷◌, ◌≡◌,
  ◌≤◌,
}
use libpanaudia_core.Moq.Varint.{encode_varint, varint_size}
use libpanaudia_core.Moq.Varint.RoundTrip.{length-encode_varint, varint_size_bounds}
use libpanaudia_core.Moq.Reader.{ok, cursor, append_varint}
use libpanaudia_core.Moq.Reader.Laws.{
  IsVarint, read_varint-encode, string_bytes, string_size, read_bytes-append,
}
use libpanaudia_core.Moq.Params.{
  max_params, KvpParam, is_odd, sort_params, encode_value, encode_sorted, encode_params,
  decode_value, decode_pairs, decode_params,
}
use libpanaudia_core.Moq.Params.Sorting.{
  Ascends, length-sort_params, sort_params-Ascends, sort_params-All,
}

-- What a pair carries: the bytes under an odd key, the number under an even one.
abbrev pub carried : KvpParam → KvpParam
carried p =
    if is_odd p.key
    then record { key = p.key; int_value = 0; bytes_value = p.bytes_value }
    else record { key = p.key; int_value = p.int_value; bytes_value = [] }

-- Key and number fit a varint.
abbrev pub Fits : KvpParam → Type 0
Fits p = IsVarint p.key × IsVarint p.int_value

abbrev pub value_bytes : KvpParam → List ℕ
value_bytes p = if is_odd p.key then string_bytes p.bytes_value else encode_varint p.int_value

abbrev pub value_size : KvpParam → ℕ
value_size p = if is_odd p.key then string_size p.bytes_value else varint_size p.int_value

abbrev pub pairs_bytes : ℕ → List KvpParam → List ℕ
pairs_bytes prev [] = []
pairs_bytes prev (p ∷ ps) = encode_varint (p.key - prev) ++ (value_bytes p ++ pairs_bytes p.key ps)

abbrev pub pairs_size : ℕ → List KvpParam → ℕ
pairs_size prev [] = 0
pairs_size prev (p ∷ ps) = varint_size (p.key - prev) + value_size p + pairs_size p.key ps

-- The bytes that encode_params writes.
abbrev pub params_size : List KvpParam → ℕ
params_size ps = varint_size (length ps) + pairs_size 0 (sort_params ps)

encode_value-bytes :
    (result : List ℕ) (p : KvpParam) → encode_value result p ≡ result ++ value_bytes p
unfolding encode_value
encode_value-bytes result p = elim (Bool-cases (is_odd p.key)) [
  | inl e ↦ rw e (append_assoc result (encode_varint (length p.bytes_value)) p.bytes_value)
  | inr e ↦ rw e
]

encode_sorted-bytes :
    (result : List ℕ) (prev : ℕ) (ps : List KvpParam)
    → All Fits ps
    → Ascends prev ps
    → encode_sorted result prev ps ≡ result ++ pairs_bytes prev ps
unfolding encode_sorted
encode_sorted-bytes result prev [] f a = sym (append-nil result)
encode_sorted-bytes result prev (p ∷ ps) f a =
    encode_sorted-bytes (encode_value (append_varint result (u64 (p.key + 2 ^ 64 - prev))) p) p.key
      ps f.1 a.1
    ∙ rw (encode_value-bytes (append_varint result (u64 (p.key + 2 ^ 64 - prev))) p, delta)
        (simp append_assoc)
  where
    delta : u64 (p.key + 2 ^ 64 - prev) ≡ p.key - prev
    delta = omega arith

decode_value-bytes :
    (p : KvpParam) (o : ℕ) (rest : List ℕ)
    → IsVarint p.int_value
    → o + value_size p < 2 ^ 31
    → decode_value p.key (cursor o (value_bytes p ++ rest))
      ≡ ok (carried p, cursor (o + value_size p) rest)
unfolding decode_value
decode_value-bytes p o rest f h = elim (Bool-cases (is_odd p.key)) [
  | inl e ↦ odd e (rw e at h)
  | inr e ↦ rw e (rw (read_varint-encode p.int_value o rest f))
]
  where
    odd :
        is_odd p.key ≡ true
        → o + string_size p.bytes_value < 2 ^ 31
        → decode_value p.key (cursor o (value_bytes p ++ rest))
          ≡ ok (carried p, cursor (o + value_size p) rest)
    odd e hs = rw e (
        rw
          (
            append_assoc (encode_varint (length p.bytes_value)) p.bytes_value rest,
            read_varint-encode (length p.bytes_value) o (p.bytes_value ++ rest) (omega arith),
            read_bytes-append p.bytes_value rest (o + varint_size (length p.bytes_value))
                (omega arith),
          )
          (ap
            (λ k.
              ok
                (record { key = p.key; int_value = 0; bytes_value = p.bytes_value }, cursor k rest))
            (omega arith)))

pub key-carried : (p : KvpParam) → (carried p).key ≡ p.key
key-carried p = ground arith

decode_pairs-bytes :
    (ps : List KvpParam) (prev o : ℕ) (rest : List ℕ)
    → All Fits ps
    → Ascends prev ps
    → o + pairs_size prev ps < 2 ^ 31
    → decode_pairs (length ps) prev (cursor o (pairs_bytes prev ps ++ rest))
      ≡ ok (map carried ps, cursor (o + pairs_size prev ps) rest)
unfolding decode_pairs
decode_pairs-bytes [] prev o rest f a h = ap (λ k. ok ([], cursor k rest)) (omega arith)
decode_pairs-bytes (p ∷ ps) prev o rest f a h =
    rw
      (
        append_assoc (encode_varint (p.key - prev)) (value_bytes p ++ pairs_bytes p.key ps) rest,
        append_assoc (value_bytes p) (pairs_bytes p.key ps) rest,
        read_varint-encode (p.key - prev) o (value_bytes p ++ (pairs_bytes p.key ps ++ rest))
            (omega arith),
        key,
        decode_value-bytes p (o + varint_size (p.key - prev)) (pairs_bytes p.key ps ++ rest) f.0.1
            (omega arith),
        key-carried p,
        decode_pairs-bytes ps p.key (o + varint_size (p.key - prev) + value_size p) rest f.1 a.1
            (omega arith),
      )
      (ap (λ k. ok (map carried (p ∷ ps), cursor k rest)) (omega arith))
  where
    key : u64 (prev + (p.key - prev)) ≡ p.key
    key = omega arith

encode_params-bytes :
    (ps : List KvpParam)
    → All Fits ps
    → encode_params ps ≡ encode_varint (length ps) ++ pairs_bytes 0 (sort_params ps)
unfolding encode_params
encode_params-bytes ps f =
    encode_sorted-bytes _ 0 (sort_params ps) (sort_params-All Fits ps f) (sort_params-Ascends ps)
    ∙ ap (λ k. encode_varint k ++ pairs_bytes 0 (sort_params ps)) (length-sort_params ps)

value_size-ge : (p : KvpParam) → 1 ≤ value_size p
value_size-ge p =
    ground (arith, varint_size_bounds (length p.bytes_value), varint_size_bounds p.int_value)

pairs_size-ge : (prev : ℕ) (ps : List KvpParam) → length ps ≤ pairs_size prev ps
pairs_size-ge prev [] = omega arith
pairs_size-ge prev (p ∷ ps) = omega (arith, value_size-ge p, pairs_size-ge p.key ps)

-- The parameters come back in ascending order of their keys, each with the value that its key's
-- parity lets through, when keys, numbers and their count are below 2^62 and the bytes stand
-- below offset 2^31.
pub decode-encode_params :
    (ps : List KvpParam) (o : ℕ) (rest : List ℕ)
    → All Fits ps
    → IsVarint (length ps)
    → o + params_size ps < 2 ^ 31
    → decode_params (cursor o (encode_params ps ++ rest))
      ≡ ok (map carried (sort_params ps), cursor (o + params_size ps) rest)
unfolding decode_params
decode-encode_params ps o rest f hc h =
    rw
      (
        encode_params-bytes ps f,
        append_assoc (encode_varint (length ps)) (pairs_bytes 0 (sort_params ps)) rest,
        read_varint-encode (length ps) o (pairs_bytes 0 (sort_params ps) ++ rest) hc,
        granted,
      )
      (ap (λ k. decode_pairs k 0 (cursor (o + varint_size (length ps)) tail)) (sym count) ∙ pairs)
  where
    tail : List ℕ
    tail = pairs_bytes 0 (sort_params ps) ++ rest

    count : length (sort_params ps) ≡ length ps
    count = length-sort_params ps

    granted : ltb max_params (length ps) ≡ false
    granted = ground (arith, count, pairs_size-ge 0 (sort_params ps))

    pairs :
        decode_pairs (length (sort_params ps)) 0 (cursor (o + varint_size (length ps)) tail)
        ≡ ok (map carried (sort_params ps), cursor (o + params_size ps) rest)
    pairs =
        decode_pairs-bytes (sort_params ps) 0 (o + varint_size (length ps)) rest
          (sort_params-All Fits ps f) (sort_params-Ascends ps) (omega arith)
        ∙ ap (λ k. ok (map carried (sort_params ps), cursor k rest)) (omega arith)

length-value_bytes :
    (p : KvpParam)
    → IsVarint p.int_value
    → value_size p < 2 ^ 31
    → length (value_bytes p) ≡ value_size p
length-value_bytes p f h = ground (
  arith,
  length-append (encode_varint (length p.bytes_value)) p.bytes_value,
  length-encode_varint (length p.bytes_value),
  length-encode_varint p.int_value (omega arith),
)

length-pairs_bytes :
    (prev : ℕ) (ps : List KvpParam)
    → All Fits ps
    → pairs_size prev ps < 2 ^ 31
    → length (pairs_bytes prev ps) ≡ pairs_size prev ps
length-pairs_bytes prev [] f h = refl
length-pairs_bytes prev (p ∷ ps) f h = omega (
  arith,
  length-append (encode_varint (p.key - prev)) (value_bytes p ++ pairs_bytes p.key ps),
  length-append (value_bytes p) (pairs_bytes p.key ps),
  length-encode_varint (p.key - prev) (omega arith),
  length-value_bytes p f.0.1 (omega arith),
  length-pairs_bytes p.key ps f.1 (omega arith),
)

pub params_IsVarint : (ps : List KvpParam) → params_size ps < 2 ^ 31 → IsVarint (length ps)
params_IsVarint ps h = omega (arith, pairs_size-ge 0 (sort_params ps), length-sort_params ps)

pub length-encode_params :
    (ps : List KvpParam)
    → All Fits ps
    → params_size ps < 2 ^ 31
    → length (encode_params ps) ≡ params_size ps
length-encode_params ps f h = rw (encode_params-bytes ps f) (
    omega (
      arith,
      length-append (encode_varint (length ps)) (pairs_bytes 0 (sort_params ps)),
      length-encode_varint (length ps) (omega (arith, params_IsVarint ps h)),
      length-pairs_bytes 0 (sort_params ps) (sort_params-All Fits ps f) (omega arith),
    ))

-- The parameters at the end of a message.
pub decode_whole :
    (ps : List KvpParam) (o : ℕ)
    → All Fits ps
    → o + params_size ps < 2 ^ 31
    → decode_params (cursor o (encode_params ps))
      ≡ ok (map carried (sort_params ps), cursor (o + params_size ps) [])
decode_whole ps o f h =
    ap (λ b. decode_params (cursor o b)) (sym (append-nil (encode_params ps)))
    ∙ decode-encode_params ps o [] f (params_IsVarint ps (omega arith)) h
