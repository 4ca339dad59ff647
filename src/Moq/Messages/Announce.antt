-- ===== src/Moq/Messages/Announce.antt =====
-- ANNOUNCE, ANNOUNCE_OK, SUBSCRIBE_ANNOUNCES and SUBSCRIBE_ANNOUNCES_OK.
use libpanaudia_core.Prelude.{List, [], ℕ, ◌++◌}
use libpanaudia_core.Moq.Reader.{ok, ◌>>=◌, Parsed, cursor, append_varint, read_varint}
use libpanaudia_core.Moq.Namespace.{encode_namespace, decode_namespace}
use libpanaudia_core.Moq.Params.{KvpParam, decode_params}
use libpanaudia_core.Moq.Framing.{
  announce, announce_ok, subscribe_announces_ok, build_control_message,
}

pub record AnnounceConfig : Type 0 where
  pub request_id : ℕ
  pub track_namespace : List (List ℕ)

abbrev pub announce_content : AnnounceConfig → List ℕ
announce_content config =
    append_varint (append_varint [] config.request_id ++ encode_namespace config.track_namespace) 0

unfoldable pub build_announce : AnnounceConfig → List ℕ
build_announce config = build_control_message announce (announce_content config)

pub record AnnounceResult : Type 0 where
  pub request_id : ℕ
  pub track_namespace : List (List ℕ)
  pub params : List KvpParam

unfoldable pub parse_announce : List ℕ → Parsed AnnounceResult
parse_announce content = do
  (request_id, c1) ← read_varint (cursor 0 content)
  (track_namespace, c2) ← decode_namespace c1
  (params, c3) ← decode_params c2
  ok (record { request_id = request_id; track_namespace = track_namespace; params = params })

unfoldable pub build_announce_ok : ℕ → List ℕ
build_announce_ok request_id = build_control_message announce_ok (append_varint [] request_id)

-- AnnounceOkResult has the one field.
unfoldable pub parse_announce_ok : List ℕ → Parsed ℕ
parse_announce_ok content = do (request_id, c1) ← read_varint (cursor 0 content); ok request_id

pub record SubscribeAnnouncesResult : Type 0 where
  pub request_id : ℕ
  pub track_namespace : List (List ℕ)
  pub params : List KvpParam

unfoldable pub parse_subscribe_announces : List ℕ → Parsed SubscribeAnnouncesResult
parse_subscribe_announces content = do
  (request_id, c1) ← read_varint (cursor 0 content)
  (track_namespace, c2) ← decode_namespace c1
  (params, c3) ← decode_params c2
  ok (record { request_id = request_id; track_namespace = track_namespace; params = params })

unfoldable pub build_subscribe_announces_ok : ℕ → List ℕ
build_subscribe_announces_ok request_id =
    build_control_message subscribe_announces_ok (append_varint [] request_id)
