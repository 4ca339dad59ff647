-- ===== src/Moq/Messages/SubscribeOk.antt =====
-- SUBSCRIBE_OK.
pub mod RoundTrip
use libpanaudia_core.Prelude.{
  Bool, List, [], drop, false, if◌then◌else◌, ltb, true, u8, ℕ, ◌++◌, ◌==◌, ◌∷◌,
}
use libpanaudia_core.Moq.Varint.{decode_varint}
use libpanaudia_core.Moq.Reader.{ok, ◌>>=◌, Parsed, cursor, append_varint, read_varint}
use libpanaudia_core.Moq.Params.{KvpParam, encode_params, decode_params}
use libpanaudia_core.Moq.Framing.{subscribe_ok, build_control_message}
use libpanaudia_core.Moq.Messages.Keys.{
  param_key_expires, param_key_largest_object, param_key_group_order,
}
use libpanaudia_core.Moq.Messages.Subscribe.{int_param, bytes_param}

pub record SubscribeOkConfig : Type 0 where
  pub request_id : ℕ
  pub track_alias : ℕ
  pub expires_ms : ℕ
  pub group_order : ℕ
  pub content_exists : Bool
  pub largest_group_id : ℕ
  pub largest_object_id : ℕ

abbrev pub ok_params : SubscribeOkConfig → List KvpParam
ok_params config =
    (if ltb 0 config.expires_ms then int_param param_key_expires config.expires_ms ∷ [] else [])
    ++ ((if config.content_exists
          then bytes_param param_key_largest_object
              (append_varint (append_varint [] config.largest_group_id) config.largest_object_id)
            ∷ []
          else [])
        ++ (if config.group_order == 0
            then []
            else int_param param_key_group_order config.group_order ∷ []))

abbrev pub ok_content : SubscribeOkConfig → List ℕ
ok_content config =
    append_varint (append_varint [] config.request_id) config.track_alias
    ++ encode_params (ok_params config)

unfoldable pub build_subscribe_ok : SubscribeOkConfig → List ℕ
build_subscribe_ok config = build_control_message subscribe_ok (ok_content config)

pub record SubscribeOkResult : Type 0 where
  pub request_id : ℕ
  pub track_alias : ℕ
  pub expires_ms : ℕ
  pub group_order : ℕ
  pub content_exists : Bool
  pub largest_group_id : ℕ
  pub largest_object_id : ℕ
  pub params : List KvpParam

-- The group is assigned whatever was read, the object only behind a group.
pub largest : SubscribeOkResult → List ℕ → SubscribeOkResult
largest r bytes =
    let lo = decode_varint bytes in
    let lo2 = decode_varint (drop lo.1 bytes) in
    if ltb 0 lo.1
    then record r { content_exists = true; largest_group_id = lo.0; largest_object_id = lo2.0 }
    else record r { content_exists = true; largest_group_id = lo.0 }

pub ok_param : SubscribeOkResult → KvpParam → SubscribeOkResult
unfolding largest
ok_param r p =
    if p.key == param_key_expires
    then record r { expires_ms = p.int_value }
    else (if p.key == param_key_group_order
        then record r { group_order = u8 p.int_value }
        else (if p.key == param_key_largest_object then largest r p.bytes_value else r))

pub apply_ok_params : SubscribeOkResult → List KvpParam → SubscribeOkResult
unfolding ok_param
apply_ok_params r [] = r
apply_ok_params r (p ∷ ps) = apply_ok_params (ok_param r p) ps

-- The result that the caller hands in is fresh: its largest group and object are 0.
unfoldable pub parse_subscribe_ok : List ℕ → Parsed SubscribeOkResult
unfolding apply_ok_params
parse_subscribe_ok content = do
  (request_id, c1) ← read_varint (cursor 0 content)
  (track_alias, c2) ← read_varint c1
  (params, c3) ← decode_params c2
  ok (
      apply_ok_params
        (record {
          request_id = request_id;
          track_alias = track_alias;
          expires_ms = 0;
          group_order = 0;
          content_exists = false;
          largest_group_id = 0;
          largest_object_id = 0;
          params = params;
        })
        params)
