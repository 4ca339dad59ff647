-- ===== src/Moq/Params.antt =====
-- Key-value parameters: KvpParam, encode_params and decode_params of src/moq_protocol.cpp.
-- `std::sort` by key is insertion sort; the source leaves the order of equal keys open.
pub mod Sorting
pub mod RoundTrip
use libpanaudia_core.Prelude.{
  Bool, List, [], bit_and, if◌then◌else◌, leb, length, ltb, suc, u64, zero, ℕ, ◌++◌, ◌+◌, ◌-◌, ◌/◌,
  ◌==◌, ◌^◌, ◌∷◌,
}
use libpanaudia_core.Moq.Reader.{
  fault, Parsed, ok, ◌>>=◌, Cursor, append_varint, read_varint, read_bytes,
}

pub record KvpParam : Type 0 where
  pub key : ℕ
  pub int_value : ℕ
  pub bytes_value : List ℕ

insert_param : KvpParam → List KvpParam → List KvpParam
insert_param p [] = p ∷ []
insert_param p (q ∷ qs) = if leb p.key q.key then p ∷ q ∷ qs else q ∷ insert_param p qs

unfoldable pub sort_params : List KvpParam → List KvpParam
unfolding insert_param
sort_params [] = []
sort_params (p ∷ ps) = insert_param p (sort_params ps)

-- `p.key & 1`
abbrev pub is_odd : ℕ → Bool
is_odd key = bit_and key 1 == 1

-- The pair's value: length-prefixed bytes under an odd key, a bare varint under an even one.
encode_value : List ℕ → KvpParam → List ℕ
encode_value result p =
    if is_odd p.key
    then append_varint result (length p.bytes_value) ++ p.bytes_value
    else append_varint result p.int_value

-- Each key is written as its distance from the one before, in 64 bits.
encode_sorted : List ℕ → ℕ → List KvpParam → List ℕ
unfolding encode_value
encode_sorted result prev [] = result
encode_sorted result prev (p ∷ ps) =
    encode_sorted (encode_value (append_varint result (u64 (p.key + 2 ^ 64 - prev))) p) p.key ps

unfoldable pub encode_params : List KvpParam → List ℕ
unfolding encode_sorted sort_params
encode_params params =
    let sorted = sort_params params in encode_sorted (append_varint [] (length sorted)) 0 sorted

decode_value : ℕ → Cursor → Parsed (KvpParam × Cursor)
decode_value key c =
    if is_odd key
    then (do
      (len, c1) ← read_varint c
      (bytes, c2) ← read_bytes c1 len
      ok (record { key = key; int_value = 0; bytes_value = bytes }, c2))
    else (do
      (v, c1) ← read_varint c
      ok (record { key = key; int_value = v; bytes_value = [] }, c1))

decode_pairs : ℕ → ℕ → Cursor → Parsed (List KvpParam × Cursor)
unfolding decode_value
decode_pairs zero prev c = ok ([], c)
decode_pairs (suc n) prev c = do
  (delta, c1) ← read_varint c
  (p, c2) ← decode_value (u64 (prev + delta)) c1
  (ps, c3) ← decode_pairs n p.key c2
  ok (p ∷ ps, c3)

-- What a vector of these parameters, of 40 bytes each, may hold on a 64-bit machine.
abbrev pub max_params : ℕ
max_params = (2 ^ 63 - 1) / 40

-- `params.reserve(count)` throws above that; below it, memory is taken to be there.
unfoldable pub decode_params : Cursor → Parsed (List KvpParam × Cursor)
unfolding decode_pairs
decode_params c = do
  (count, c1) ← read_varint c
  if ltb max_params count then fault else decode_pairs count 0 c1
