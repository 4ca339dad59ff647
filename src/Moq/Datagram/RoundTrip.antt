-- ===== src/Moq/Datagram/RoundTrip.antt =====
-- parse_object_datagram reads back what the builders wrote.
use libpanaudia_core.Prelude.{List, append_assoc, arith, ℕ, ◌++◌, ◌+◌, ◌∷◌, ◌≡◌}
use libpanaudia_core.Moq.Varint.{encode_varint, varint_size}
use libpanaudia_core.Moq.Reader.{ok, cursor, read_varint, read_byte}
use libpanaudia_core.Moq.Reader.Laws.{IsVarint, read_varint-encode}
use libpanaudia_core.Moq.Datagram.{
  build_object_datagram, build_object_datagram_header, parse_object_datagram,
}

-- A datagram is its header and then its payload: the two builders agree.
pub build-header :
    (track_alias group_id object_id priority : ℕ) (payload : List ℕ)
    → build_object_datagram track_alias group_id object_id priority payload
      ≡ build_object_datagram_header track_alias group_id object_id priority ++ payload
unfolding build_object_datagram build_object_datagram_header
build-header track_alias group_id object_id priority payload = simp append_assoc

plain_type :
    (rest : List ℕ) → read_varint (cursor 0 (encode_varint 0 ++ rest)) ≡ ok (0, cursor 1 rest)
unfolding varint_size
plain_type rest = read_varint-encode 0 0 rest (omega arith)

-- A datagram built of ids below 2^62 is parsed back to them, the priority byte and the payload.
pub parse-build_object_datagram :
    (track_alias group_id object_id priority : ℕ) (payload : List ℕ)
    → IsVarint track_alias
    → IsVarint group_id
    → IsVarint object_id
    → parse_object_datagram (build_object_datagram track_alias group_id object_id priority payload)
      ≡ ok (record {
        track_alias = track_alias;
        group_id = group_id;
        object_id = object_id;
        priority = priority;
        payload = payload;
      })
unfolding parse_object_datagram build_object_datagram read_byte
parse-build_object_datagram a g o p payload ha hg ho = simp append_assoc (
    rw (
      plain_type (encode_varint a ++ (encode_varint g ++ (encode_varint o ++ (p ∷ payload)))),
      read_varint-encode a 1 (encode_varint g ++ (encode_varint o ++ (p ∷ payload))) ha,
      read_varint-encode g (1 + varint_size a) (encode_varint o ++ (p ∷ payload)) hg,
      read_varint-encode o (1 + varint_size a + varint_size g) (p ∷ payload) ho,
    ))
