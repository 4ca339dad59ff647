-- ===== src/Moq/Messages/Laws.antt =====
-- What the parsers of src/moq_protocol.cpp read of the messages that its builders write.
use libpanaudia_core.Prelude.{
  List, [], append_assoc, arith, length, length-append, refl, some, ℕ, ◌++◌, ◌+◌, ◌<◌, ◌^◌, ◌∙◌,
  ◌≡◌,
}
use libpanaudia_core.Moq.Varint.{encode_varint, decode_varint, varint_size}
use libpanaudia_core.Moq.Varint.RoundTrip.{length-encode_varint}
use libpanaudia_core.Moq.Reader.{ok, cursor, read_varint}
use libpanaudia_core.Moq.Reader.Laws.{IsVarint, read_varint-encode}
use libpanaudia_core.Moq.Namespace.{encode_namespace}
use libpanaudia_core.Moq.Namespace.RoundTrip.{
  namespace_size, decode-encode_namespace, length-encode_namespace, length-IsVarint,
}
use libpanaudia_core.Moq.Params.{decode_params}
use libpanaudia_core.Moq.Framing.{announce, parse_control_message}
use libpanaudia_core.Moq.Framing.RoundTrip.{parse-build_control_message}
use libpanaudia_core.Moq.Messages.Announce.{
  AnnounceConfig, announce_content, build_announce, parse_announce,
}

abbrev pub announce_size : AnnounceConfig → ℕ
announce_size c = varint_size c.request_id + namespace_size c.track_namespace + 1

no_params : (o : ℕ) → decode_params (cursor o (encode_varint 0)) ≡ ok ([], cursor (o + 1) [])
unfolding decode_params read_varint encode_varint decode_varint
no_params o = refl

-- An ANNOUNCE below 64 KiB, of a request id below 2^62, is framed and parsed back to its request
-- id and its namespace, with no parameters.
pub parse-build_announce :
    (c : AnnounceConfig) (rest : List ℕ)
    → IsVarint c.request_id
    → announce_size c < 2 ^ 16
    → (parse_control_message (build_announce c ++ rest)
        ≡ some (record {
          type = announce;
          content = announce_content c;
          consumed = varint_size announce + 2 + announce_size c;
        }))
      × (parse_announce (announce_content c)
          ≡ ok (record {
            request_id = c.request_id;
            track_namespace = c.track_namespace;
            params = [];
          }))
unfolding build_announce parse_announce
parse-build_announce c rest hr h = (
  parse-build_control_message announce (announce_content c) rest (omega arith) (omega (arith, size))
      ∙ rw size,
  simp append_assoc (
      rw (
        read_varint-encode c.request_id 0 (encode_namespace c.track_namespace ++ encode_varint 0)
            hr,
        decode-encode_namespace c.track_namespace (0 + varint_size c.request_id) (encode_varint 0)
            (length-IsVarint c.track_namespace (omega arith)) (omega arith),
        no_params (0 + varint_size c.request_id + namespace_size c.track_namespace),
      )),
)
  where
    one : length (encode_varint 0) ≡ 1
    one = unfold encode_varint in refl

    size : length (announce_content c) ≡ announce_size c
    size = omega (
      arith,
      one,
      length-append (encode_varint c.request_id ++ encode_namespace c.track_namespace)
          (encode_varint 0),
      length-append (encode_varint c.request_id) (encode_namespace c.track_namespace),
      length-encode_varint c.request_id (omega arith),
      length-encode_namespace c.track_namespace (omega arith),
    )
