-- ===== src/Moq/Datagram.antt =====
-- Object datagrams: build_object_datagram, build_object_datagram_header and parse_object_datagram
-- of src/moq_protocol.cpp. A payload that is absent is the empty list.
pub mod RoundTrip
use libpanaudia_core.Prelude.{
  List, [], drop, if◌then◌else◌, leb, length, ltb, suc, u32, zero, ℕ, ◌++◌, ◌+◌, ◌-◌, ◌==◌, ◌^◌,
  ◌||◌, ◌∷◌,
}
use libpanaudia_core.Moq.Varint.{encode_varint}
use libpanaudia_core.Moq.Reader.{
  ok, fail, fault, ◌>>=◌, Parsed, Cursor, cursor, append_varint, read_varint, read_byte,
}

abbrev pub datagram_type_plain : ℕ
datagram_type_plain = 0x00

abbrev pub datagram_type_extensions : ℕ
datagram_type_extensions = 0x01

unfoldable pub build_object_datagram : ℕ → ℕ → ℕ → ℕ → List ℕ → List ℕ
build_object_datagram track_alias group_id object_id priority payload =
    append_varint
      (append_varint (append_varint (append_varint [] datagram_type_plain) track_alias) group_id)
      object_id
    ++ (priority ∷ payload)

-- The bytes put at the front of the caller's buffer; their number is the length returned.
unfoldable pub build_object_datagram_header : ℕ → ℕ → ℕ → ℕ → List ℕ
build_object_datagram_header track_alias group_id object_id priority =
    encode_varint datagram_type_plain
    ++ (encode_varint track_alias
        ++ (encode_varint group_id ++ (encode_varint object_id ++ (priority ∷ []))))

pub record ObjectDatagram : Type 0 where
  pub track_alias : ℕ
  pub group_id : ℕ
  pub object_id : ℕ
  pub priority : ℕ
  pub payload : List ℕ

-- `offset += static_cast<int32_t>(val_len); if (offset > len) return false;`
-- A length whose cast is negative moves the offset back; before the buffer is undefined.
pub seek : List ℕ → Cursor → ℕ → Parsed Cursor
seek raw c val_len =
    if ltb (u32 val_len) (2 ^ 31)
    then (if leb (2 ^ 31) (c.offset + u32 val_len)
        then fault
        else (if ltb (length raw) (c.offset + u32 val_len)
            then fail
            else ok (cursor (c.offset + u32 val_len) (drop (c.offset + u32 val_len) raw))))
    else (if ltb (c.offset + u32 val_len) (2 ^ 32)
        then fault
        else ok
            (cursor (c.offset + u32 val_len - 2 ^ 32) (drop (c.offset + u32 val_len - 2 ^ 32) raw)))

-- The loop over the extensions, over the rounds left.
pub skip_extensions : ℕ → List ℕ → Cursor → Parsed Cursor
unfolding seek
skip_extensions zero raw c = ok c
skip_extensions (suc n) raw c = do
  (key, c1) ← read_varint c
  (val_len, c2) ← read_varint c1
  c3 ← seek raw c2 val_len
  skip_extensions n raw c3

unfoldable pub parse_object_datagram : List ℕ → Parsed ObjectDatagram
parse_object_datagram raw = do
  (type, c1) ← read_varint (cursor 0 raw)
  (track_alias, c2) ← (if (type == 0) || (type == 1) then read_varint c1 else fail)
  (group_id, c3) ← read_varint c2
  (object_id, c4) ← read_varint c3
  (priority, c5) ← read_byte c4
  c6 ←
      (if type == datagram_type_extensions
        then (do (ext_count, c) ← read_varint c5; skip_extensions ext_count raw c)
        else ok c5)
  ok (record {
    track_alias = track_alias;
    group_id = group_id;
    object_id = object_id;
    priority = priority;
    payload = c6.rest;
  })
