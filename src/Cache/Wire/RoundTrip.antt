-- ===== src/Cache/Wire/RoundTrip.antt =====
-- decode_cache_op reads back what encode_cache_op wrote.
use libpanaudia_core.Prelude.{
  Bool, IsU32, IsU64, List, ap, append_assoc, arith, bit_and, drop-append_length, false,
  if◌then◌else◌, length, length-append, length-take, le→not_ltb, not, refl, some, take,
  take-append_length, true, u8, ℕ, ◌++◌, ◌==◌, ◌∙◌, ◌∷◌, ◌≡◌, ◌≤◌,
}
use libpanaudia_core.Cache.Wire.{
  CacheOp, write_u16_be, write_u32_be, clipped, cache_wire_version, cache_flag_tombstone,
  write_u64_be, decode_value, decode_key, decode_topic, decode_cache_op, cache_wire_min_len,
  encode_cache_op,
}
use libpanaudia_core.Cache.Wire.Bytes.{read-write_u16_be, read-write_u32_be, read-write_u64_be}

-- The limits of the layout.
pub record Fits (op : CacheOp) : Type 0 where
  pub topic_fits : length op.topic ≤ 0xff
  pub key_fits : length op.key ≤ 0xffff
  pub value_fits : length op.value ≤ 0xffffffff
  pub op_id_fits : IsU64 op.op_id
  pub node_id_fits : IsU32 op.node_id

-- What encode_cache_op keeps of an operation: every field cut at its limit.
abbrev pub truncated : CacheOp → CacheOp
truncated op = record op {
  topic = take (clipped 0xff op.topic) op.topic;
  key = take (clipped 0xffff op.key) op.key;
  value = take (clipped 0xffffffff op.value) op.value;
}

length-clipped :
    (limit : ℕ) (field : List ℕ)
    → (length (take (clipped limit field) field) ≡ clipped limit field)
      × (clipped limit field ≤ limit)
length-clipped limit field = ground (arith, length-take (clipped limit field) field)

decode_value-write :
    (op : List ℕ → CacheOp) (value rest : List ℕ)
    → length value ≤ 0xffffffff
    → decode_value op (write_u32_be (length value) ++ (value ++ rest)) ≡ some (op value)
unfolding decode_value
decode_value-write op value rest h =
    rw (read-write_u32_be (length value) (value ++ rest) (omega arith)) (
      unfold write_u32_be in
      rw (take-append_length value rest) (ground (arith, length-append value rest)))

decode_key-write :
    (op : List ℕ → List ℕ → CacheOp) (key value rest : List ℕ)
    → length key ≤ 0xffff
    → length value ≤ 0xffffffff
    → decode_key op
        (write_u16_be (length key) ++ (key ++ (write_u32_be (length value) ++ (value ++ rest))))
      ≡ some (op key value)
unfolding decode_key
decode_key-write op key value rest hk hv =
    rw (read-write_u16_be (length key) (key ++ tail) (omega arith)) (
      unfold write_u16_be in
      rw
        (
          take-append_length key tail,
          drop-append_length key tail,
          decode_value-write (op key) value rest hv,
        )
        (ground (arith, length-append key tail)))
  where
    tail : List ℕ
    tail = write_u32_be (length value) ++ (value ++ rest)

decode_topic-write :
    (op : List ℕ → List ℕ → List ℕ → CacheOp) (topic key value rest : List ℕ)
    → length topic ≤ 0xff
    → length key ≤ 0xffff
    → length value ≤ 0xffffffff
    → decode_topic op (
        u8 (length topic)
        ∷ (topic
            ++ (write_u16_be (length key)
                ++ (key ++ (write_u32_be (length value) ++ (value ++ rest))))))
      ≡ some (op topic key value)
unfolding decode_topic
decode_topic-write op topic key value rest ht hk hv = rw (small) (
    rw
      (
        take-append_length topic tail,
        drop-append_length topic tail,
        decode_key-write (op topic) key value rest hk hv,
      )
      (ground (arith, length-append topic tail)))
  where
    tail : List ℕ
    tail = write_u16_be (length key) ++ (key ++ (write_u32_be (length value) ++ (value ++ rest)))

    small : u8 (length topic) ≡ length topic
    small = omega arith

tombstone_flag :
    (t : Bool) → not (bit_and (if t then cache_flag_tombstone else 0) cache_flag_tombstone == 0) ≡ t
tombstone_flag true = refl
tombstone_flag false = refl

-- The bytes of an operation whose fields stand within their limits.
abbrev envelope : CacheOp → List ℕ → List ℕ
envelope op rest =
    u8 (length op.topic)
    ∷ (op.topic
        ++ (write_u16_be (length op.key)
            ++ (op.key ++ (write_u32_be (length op.value) ++ (op.value ++ rest)))))

long_enough :
    (op : CacheOp) (flags : ℕ) (rest : List ℕ)
    → cache_wire_min_len
      ≤ length (
          cache_wire_version
          ∷ flags
          ∷ (write_u64_be op.op_id ++ (write_u32_be op.node_id ++ envelope op rest)))
unfolding write_u64_be write_u32_be write_u16_be
long_enough op flags rest = omega (
  arith,
  length-append op.topic (
      write_u16_be (length op.key)
      ++ (op.key ++ (write_u32_be (length op.value) ++ (op.value ++ rest)))),
  length-append op.key (write_u32_be (length op.value) ++ (op.value ++ rest)),
)

decode_envelope :
    (op : CacheOp) (rest : List ℕ)
    → Fits op
    → decode_cache_op (
        cache_wire_version
        ∷ (if op.tombstone then cache_flag_tombstone else 0)
        ∷ (write_u64_be op.op_id ++ (write_u32_be op.node_id ++ envelope op rest)))
      ≡ some op
unfolding decode_cache_op
decode_envelope op rest f =
    rw
      (
        le→not_ltb _ cache_wire_min_len
            (long_enough op (if op.tombstone then cache_flag_tombstone else 0) rest),
        read-write_u64_be op.op_id (write_u32_be op.node_id ++ envelope op rest) f.op_id_fits,
      )
      (unfold write_u64_be in
        rw (read-write_u32_be op.node_id (envelope op rest) f.node_id_fits) (
          unfold write_u32_be in
          rw (
            decode_topic-write _ op.topic op.key op.value rest f.topic_fits f.key_fits f.value_fits,
            tombstone_flag op.tombstone,
          )))

-- What encode_cache_op wrote of a 64-bit operation id and a 32-bit node id is decoded to the same
-- operation, each of topic, key and value cut at the limit of its length field, whatever bytes
-- follow the envelope. Within the limits (255, 65535 and 2^32 - 1 bytes) nothing is cut.
pub decode-encode_cache_op :
    (op : CacheOp) (rest : List ℕ)
    → IsU64 op.op_id
    → IsU32 op.node_id
    → decode_cache_op (encode_cache_op op ++ rest) ≡ some (truncated op)
unfolding encode_cache_op
decode-encode_cache_op op rest ho hn =
    ap decode_cache_op same ∙ decode_envelope (truncated op) rest fits
  where
    fits : Fits (truncated op)
    fits = record {
      topic_fits = omega (arith, length-clipped 0xff op.topic);
      key_fits = omega (arith, length-clipped 0xffff op.key);
      value_fits = omega (arith, length-clipped 0xffffffff op.value);
      op_id_fits = ho;
      node_id_fits = hn;
    }

    same :
        encode_cache_op op ++ rest
        ≡ cache_wire_version
          ∷ (if op.tombstone then cache_flag_tombstone else 0)
          ∷ (write_u64_be op.op_id ++ (write_u32_be op.node_id ++ envelope (truncated op) rest))
    same =
        rw
          (
            (length-clipped 0xff op.topic).0,
            (length-clipped 0xffff op.key).0,
            (length-clipped 0xffffffff op.value).0,
          )
          (simp append_assoc)
