-- ===== src/Moq/Tests.antt =====
-- Runs of the codec on concrete bytes, and the conditions of its theorems met by them.
use libpanaudia_core.Moq.Messages.Subscribe.{
  SubscribeConfig, subscribe_content, build_subscribe, parse_subscribe,
}
use libpanaudia_core.Moq.Messages.Subscribe.Sent as Request
use libpanaudia_core.Moq.Messages.Subscribe.RoundTrip.{understood, parse-build_subscribe}
use libpanaudia_core.Moq.Messages.SubscribeOk.{
  SubscribeOkConfig, ok_content, build_subscribe_ok, parse_subscribe_ok,
}
use libpanaudia_core.Moq.Messages.SubscribeOk.RoundTrip as Grant
use libpanaudia_core.Moq.Messages.SubscribeOk.RoundTrip.{
  received, parse-build_subscribe_ok, IsSendable,
}
use libpanaudia_core.Moq.Messages.Keys.{filter_latest_group}
use libpanaudia_core.Prelude.{
  List, [], arith, length, refl, some, true, ℕ, ◌%◌, ◌++◌, ◌+◌, ◌^◌, ◌∷◌, ◌≡◌,
}
use libpanaudia_core.Moq.Varint.{encode_varint, decode_varint, varint_size}
use libpanaudia_core.Moq.Varint.RoundTrip.{decode-encode}
use libpanaudia_core.Moq.Reader.{ok}
use libpanaudia_core.Moq.Params.{KvpParam, sort_params}
use libpanaudia_core.Moq.Framing.{
  announce, build_control_message, ControlMessage, parse_control_message, content_length,
  parse_content, subscribe, subscribe_ok,
}
use libpanaudia_core.Moq.Framing.RoundTrip.{parse-build_control_message}
use libpanaudia_core.Moq.Messages.Announce.{AnnounceConfig}
use libpanaudia_core.Moq.Datagram.{build_object_datagram, parse_object_datagram}
use libpanaudia_core.Moq.Datagram.RoundTrip.{parse-build_object_datagram}

-- A value of two bytes, before the byte 7.
decode-encode_example :
    decode_varint (encode_varint 300 ++ (7 ∷ [])) ≡ (300 % 2 ^ 62, varint_size 300)
decode-encode_example = decode-encode 300 (7 ∷ []) (omega arith)

abbrev path : List (List ℕ)
path = (97 ∷ 98 ∷ []) ∷ [] ∷ (99 ∷ []) ∷ []

-- An odd key of bytes before an even one of a number, out of order.
abbrev two_params : List KvpParam
two_params =
    record { key = 3; int_value = 0; bytes_value = 9 ∷ 8 ∷ [] }
    ∷ record { key = 2; int_value = 100; bytes_value = [] }
    ∷ []

framing_example :
    parse_control_message (build_control_message announce (1 ∷ 2 ∷ 3 ∷ []) ++ (5 ∷ []))
    ≡ some (record {
      type = announce;
      content = 1 ∷ 2 ∷ 3 ∷ [];
      consumed = varint_size announce + 2 + 3;
    })
framing_example =
    parse-build_control_message announce (1 ∷ 2 ∷ 3 ∷ []) (5 ∷ []) (omega arith) (omega arith)

abbrev framed : List ℕ
framed = 0x06 ∷ 0 ∷ 2 ∷ 10 ∷ 11 ∷ []

abbrev framed_message : ControlMessage
framed_message = record { type = announce; content = 10 ∷ 11 ∷ []; consumed = 5 }

framed_lem : parse_control_message framed ≡ some framed_message
unfolding parse_control_message parse_content content_length decode_varint
framed_lem = refl

abbrev one_announce : AnnounceConfig
one_announce = record { request_id = 2; track_namespace = path }

datagram_example :
    parse_object_datagram (build_object_datagram 1 70 20000 128 (1 ∷ 2 ∷ []))
    ≡ ok (record {
      track_alias = 1;
      group_id = 70;
      object_id = 20000;
      priority = 128;
      payload = 1 ∷ 2 ∷ [];
    })
datagram_example =
    parse-build_object_datagram 1 70 20000 128 (1 ∷ 2 ∷ []) (omega arith) (omega arith)
      (omega arith)

-- A request with a token and a parameter of the host.
abbrev request : SubscribeConfig
request = record {
  request_id = 4;
  track_namespace = path;
  track_name = 1 ∷ [];
  priority = 128;
  group_order = 1;
  forward = 1;
  filter_type = filter_latest_group;
  authorization = 9 ∷ 8 ∷ [];
  extra_params = record { key = 5; int_value = 0; bytes_value = 7 ∷ [] } ∷ [];
}

request-IsSendable : Request.IsSendable request
unfolding sort_params varint_size
request-IsSendable = record {
  id_fits = omega arith;
  priority_fits = omega arith;
  order_fits = omega arith;
  forward_fits = omega arith;
  filter_fits = omega arith;
  extra_fit = ((omega arith, omega arith), tt);
  extra_foreign = ((refl, refl, refl, refl), tt);
  size_fits = unfold encode_varint in omega arith;
}

subscribe_example :
    (parse_control_message (build_subscribe request ++ [])
      ≡ some (record {
        type = subscribe;
        content = subscribe_content request;
        consumed = varint_size subscribe + 2 + length (subscribe_content request);
      }))
    × (parse_subscribe (subscribe_content request) ≡ ok (understood request))
subscribe_example = parse-build_subscribe request [] request-IsSendable

abbrev grant : SubscribeOkConfig
grant = record {
  request_id = 4;
  track_alias = 1;
  expires_ms = 0;
  group_order = 2;
  content_exists = true;
  largest_group_id = 70;
  largest_object_id = 3;
}

grant-IsSendable : Grant.IsSendable grant
grant-IsSendable = record {
  id_fits = omega arith;
  alias_fits = omega arith;
  expires_fits = omega arith;
  order_fits = omega arith;
  group_fits = omega arith;
  object_fits = omega arith;
}

subscribe_ok_example :
    (parse_control_message (build_subscribe_ok grant ++ (1 ∷ []))
      ≡ some (record {
        type = subscribe_ok;
        content = ok_content grant;
        consumed = varint_size subscribe_ok + 2 + length (ok_content grant);
      }))
    × (parse_subscribe_ok (ok_content grant) ≡ ok (received grant))
subscribe_ok_example = parse-build_subscribe_ok grant (1 ∷ []) grant-IsSendable
