-- ===== src/Cache/Wire.antt =====
-- The cache envelope: src/cache_wire.cpp. `data` and `len` are a list of bytes, and `data + off`
-- the bytes from there on; `size_t` sums of a header and 32-bit lengths do not wrap.
pub mod Bytes
pub mod RoundTrip
use libpanaudia_core.Prelude.{
  Bool, List, Option, [], bit_and, bit_or, drop, get_or, if◌then◌else◌, length, ltb, none, not,
  some, take, u16, u8, ℕ, ◌&&◌, ◌++◌, ◌<<<◌, ◌==◌, ◌>>>◌, ◌∷◌,
}

abbrev pub cache_wire_version : ℕ
cache_wire_version = 0xca

abbrev pub cache_flag_tombstone : ℕ
cache_flag_tombstone = 0x01

abbrev pub cache_wire_min_len : ℕ
cache_wire_min_len = 21

pub record CacheOp : Type 0 where
  pub topic : List ℕ
  pub key : List ℕ
  pub value : List ℕ
  pub op_id : ℕ
  pub node_id : ℕ
  pub tombstone : Bool

-- `(a << k) | b`
abbrev join : ℕ → ℕ → ℕ → ℕ
join k a b = bit_or (a <<< k) b

unfoldable pub read_u16_be : List ℕ → ℕ
read_u16_be p = u16 (join 8 (get_or p 0 0) (get_or p 1 0))

unfoldable pub read_u32_be : List ℕ → ℕ
read_u32_be p =
    join 24 (get_or p 0 0) (join 16 (get_or p 1 0) (join 8 (get_or p 2 0) (get_or p 3 0)))

unfoldable pub read_u64_be : List ℕ → ℕ
read_u64_be p = join 56 (get_or p 0 0) (
    join 48 (get_or p 1 0) (
      join 40 (get_or p 2 0) (
        join 32 (get_or p 3 0) (
          join 24 (get_or p 4 0) (join 16 (get_or p 5 0) (join 8 (get_or p 6 0) (get_or p 7 0)))))))

unfoldable pub write_u16_be : ℕ → List ℕ
write_u16_be v = u8 (v >>> 8) ∷ u8 v ∷ []

unfoldable pub write_u32_be : ℕ → List ℕ
write_u32_be v = u8 (v >>> 24) ∷ u8 (v >>> 16) ∷ u8 (v >>> 8) ∷ u8 v ∷ []

unfoldable pub write_u64_be : ℕ → List ℕ
write_u64_be v =
    u8 (v >>> 56)
    ∷ u8 (v >>> 48)
    ∷ u8 (v >>> 40)
    ∷ u8 (v >>> 32)
    ∷ u8 (v >>> 24)
    ∷ u8 (v >>> 16)
    ∷ u8 (v >>> 8)
    ∷ u8 v
    ∷ []

unfoldable pub is_cache_envelope : List ℕ → Bool
is_cache_envelope raw = ltb 0 (length raw) && (get_or raw 0 0 == cache_wire_version)

-- From the value's length on.
unfoldable pub decode_value : (List ℕ → CacheOp) → List ℕ → Option CacheOp
decode_value op p =
    let value_len = read_u32_be p in
    if ltb (length p) 4
    then none
    else (if ltb (length (drop 4 p)) value_len then none else some (op (take value_len (drop 4 p))))

-- From the key's length on.
unfoldable pub decode_key : (List ℕ → List ℕ → CacheOp) → List ℕ → Option CacheOp
decode_key op p =
    let key_len = read_u16_be p in
    if ltb (length p) 2
    then none
    else (if ltb (length (drop 2 p)) key_len
        then none
        else decode_value (op (take key_len (drop 2 p))) (drop key_len (drop 2 p)))

-- From the topic's length on, the byte at offset 14.
unfoldable pub decode_topic : (List ℕ → List ℕ → List ℕ → CacheOp) → List ℕ → Option CacheOp
decode_topic op p =
    let topic_len = get_or p 0 0 in
    if ltb (length (drop 1 p)) topic_len
    then none
    else decode_key (op (take topic_len (drop 1 p))) (drop topic_len (drop 1 p))

unfoldable pub decode_cache_op : List ℕ → Option CacheOp
decode_cache_op raw =
    let flags = get_or raw 1 0 in
    let op_id = read_u64_be (drop 2 raw) in
    let node_id = read_u32_be (drop 10 raw) in
    if ltb (length raw) cache_wire_min_len
    then none
    else (if not (get_or raw 0 0 == cache_wire_version)
        then none
        else decode_topic
            (λ topic key value. record {
              topic = topic;
              key = key;
              value = value;
              op_id = op_id;
              node_id = node_id;
              tombstone = not (bit_and flags cache_flag_tombstone == 0);
            })
            (drop 14 raw))

-- The length that is written of a field with the limit `limit`.
abbrev pub clipped : ℕ → List ℕ → ℕ
clipped limit field = if ltb limit (length field) then limit else length field

unfoldable pub encode_cache_op : CacheOp → List ℕ
encode_cache_op op =
    let topic_len = clipped 0xff op.topic in
    let key_len = clipped 0xffff op.key in
    let value_len = clipped 0xffffffff op.value in
    cache_wire_version
    ∷ (if op.tombstone then cache_flag_tombstone else 0)
    ∷ (write_u64_be op.op_id
        ++ (write_u32_be op.node_id
            ++ (u8 topic_len
                ∷ (take topic_len op.topic
                    ++ (write_u16_be key_len
                        ++ (take key_len op.key
                            ++ (write_u32_be value_len ++ take value_len op.value)))))))
