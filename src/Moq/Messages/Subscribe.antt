-- ===== src/Moq/Messages/Subscribe.antt =====
-- SUBSCRIBE and SUBSCRIBE_ERROR.
pub mod Fields
pub mod Sent
pub mod RoundTrip
use libpanaudia_core.Prelude.{List, [], if◌then◌else◌, ltb, u8, ℕ, ◌++◌, ◌==◌, ◌∷◌}
use libpanaudia_core.Moq.Varint.{encode_varint, decode_varint}
use libpanaudia_core.Moq.Reader.{
  ok, ◌>>=◌, Parsed, cursor, append_varint, append_string_bytes, read_varint, read_string,
}
use libpanaudia_core.Moq.Namespace.{encode_namespace, decode_namespace}
use libpanaudia_core.Moq.Params.{KvpParam, encode_params, decode_params}
use libpanaudia_core.Moq.Framing.{subscribe, build_control_message}
use libpanaudia_core.Moq.Messages.Keys.{
  param_key_auth_token, param_key_forward, param_key_subscriber_priority,
  param_key_subscription_filter, param_key_group_order, filter_latest_object,
}

pub record SubscribeConfig : Type 0 where
  pub request_id : ℕ
  pub track_namespace : List (List ℕ)
  pub track_name : List ℕ
  pub priority : ℕ
  pub group_order : ℕ
  pub forward : ℕ
  pub filter_type : ℕ
  pub authorization : List ℕ
  pub extra_params : List KvpParam

-- A parameter under an even key, and one under an odd key.
abbrev pub int_param : ℕ → ℕ → KvpParam
int_param k v = record { key = k; int_value = v; bytes_value = [] }

abbrev pub bytes_param : ℕ → List ℕ → KvpParam
bytes_param k b = record { key = k; int_value = 0; bytes_value = b }

abbrev pub auth_params : List ℕ → List KvpParam
auth_params [] = []
auth_params (b ∷ bs) = bytes_param param_key_auth_token (b ∷ bs) ∷ []

abbrev pub subscribe_params : SubscribeConfig → List KvpParam
subscribe_params config =
    int_param param_key_subscriber_priority config.priority
    ∷ int_param param_key_group_order config.group_order
    ∷ int_param param_key_forward config.forward
    ∷ bytes_param param_key_subscription_filter (encode_varint config.filter_type)
    ∷ (auth_params config.authorization ++ config.extra_params)

abbrev pub subscribe_content : SubscribeConfig → List ℕ
subscribe_content config =
    append_string_bytes
      (append_varint [] config.request_id ++ encode_namespace config.track_namespace)
      config.track_name
    ++ encode_params (subscribe_params config)

unfoldable pub build_subscribe : SubscribeConfig → List ℕ
build_subscribe config = build_control_message subscribe (subscribe_content config)

pub record SubscribeResult : Type 0 where
  pub request_id : ℕ
  pub track_namespace : List (List ℕ)
  pub track_name : List ℕ
  pub priority : ℕ
  pub group_order : ℕ
  pub forward : ℕ
  pub filter_type : ℕ
  pub params : List KvpParam

-- The filter type in front of a filter's bytes; unreadable or missing, it changes nothing.
unfoldable pub filter_of : ℕ → List ℕ → ℕ
filter_of now [] = now
filter_of now (b ∷ bs) = let d = decode_varint (b ∷ bs) in if ltb 0 d.1 then d.0 else now

-- One round of the loop over the parameters; the last of equal keys wins.
unfoldable pub subscribe_param : SubscribeResult → KvpParam → SubscribeResult
unfolding filter_of
subscribe_param r p =
    if p.key == param_key_subscriber_priority
    then record r { priority = u8 p.int_value }
    else (if p.key == param_key_group_order
        then record r { group_order = u8 p.int_value }
        else (if p.key == param_key_forward
            then record r { forward = u8 p.int_value }
            else (if p.key == param_key_subscription_filter
                then record r { filter_type = filter_of r.filter_type p.bytes_value }
                else r)))

unfoldable pub apply_subscribe_params : SubscribeResult → List KvpParam → SubscribeResult
unfolding subscribe_param
apply_subscribe_params r [] = r
apply_subscribe_params r (p ∷ ps) = apply_subscribe_params (subscribe_param r p) ps

unfoldable pub parse_subscribe : List ℕ → Parsed SubscribeResult
unfolding apply_subscribe_params
parse_subscribe content = do
  (request_id, c1) ← read_varint (cursor 0 content)
  (track_namespace, c2) ← decode_namespace c1
  (track_name, c3) ← read_string c2
  (params, c4) ← decode_params c3
  ok (
      apply_subscribe_params
        (record {
          request_id = request_id;
          track_namespace = track_namespace;
          track_name = track_name;
          priority = 128;
          group_order = 1;
          forward = 1;
          filter_type = filter_latest_object;
          params = params;
        })
        params)

pub record SubscribeErrorResult : Type 0 where
  pub request_id : ℕ
  pub error_code : ℕ
  pub reason : List ℕ
  pub track_alias : ℕ

-- The retry interval is read and dropped.
unfoldable pub parse_subscribe_error : List ℕ → Parsed SubscribeErrorResult
parse_subscribe_error content = do
  (request_id, c1) ← read_varint (cursor 0 content)
  (error_code, c2) ← read_varint c1
  (retry_interval, c3) ← read_varint c2
  (reason, c4) ← read_string c3
  ok (record { request_id = request_id; error_code = error_code; reason = reason; track_alias = 0 })
