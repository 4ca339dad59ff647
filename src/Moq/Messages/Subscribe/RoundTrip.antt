-- ===== src/Moq/Messages/Subscribe/RoundTrip.antt =====
-- parse_subscribe reads back what build_subscribe wrote, with the host's own parameters.
use libpanaudia_core.Prelude.{
  All, List, ap, append_assoc, arith, length, length-append, refl, some, ℕ, ◌++◌, ◌+◌, ◌∙◌, ◌≡◌,
}
use libpanaudia_core.Moq.Varint.{encode_varint, varint_size}
use libpanaudia_core.Moq.Varint.RoundTrip.{length-encode_varint}
use libpanaudia_core.Moq.Reader.{ok}
use libpanaudia_core.Moq.Reader.Laws.{
  read_varint-encode, string_bytes, string_size, read_string-string_bytes,
}
use libpanaudia_core.Moq.Namespace.{encode_namespace}
use libpanaudia_core.Moq.Namespace.RoundTrip.{
  namespace_size, decode-encode_namespace, length-encode_namespace, length-IsVarint,
}
use libpanaudia_core.Moq.Params.{KvpParam, encode_params}
use libpanaudia_core.Moq.Params.RoundTrip.{Fits, length-encode_params, decode_whole}
use libpanaudia_core.Moq.Framing.{subscribe, parse_control_message}
use libpanaudia_core.Moq.Framing.RoundTrip.{parse-build_control_message}
use libpanaudia_core.Moq.Messages.Keys.{filter_latest_object}
use libpanaudia_core.Moq.Messages.Subscribe.{
  SubscribeConfig, auth_params, subscribe_params, SubscribeResult, subscribe_param,
  apply_subscribe_params, subscribe_content, build_subscribe, parse_subscribe,
}
use libpanaudia_core.Moq.Messages.Subscribe.Fields.{apply_keeps}
use libpanaudia_core.Moq.Messages.Subscribe.Sent.{
  IsSendable, All-append, All-auth_params, sent, priority_sent, order_sent, forward_sent,
  filter_sent, subscribe_size,
}

-- The result before the loop over the parameters, and after it.
abbrev unread : SubscribeConfig → SubscribeResult
unread c = record {
  request_id = c.request_id;
  track_namespace = c.track_namespace;
  track_name = c.track_name;
  priority = 128;
  group_order = 1;
  forward = 1;
  filter_type = filter_latest_object;
  params = sent c;
}

abbrev pub understood : SubscribeConfig → SubscribeResult
understood c = record {
  request_id = c.request_id;
  track_namespace = c.track_namespace;
  track_name = c.track_name;
  priority = c.priority;
  group_order = c.group_order;
  forward = c.forward;
  filter_type = c.filter_type;
  params = sent c;
}

-- The fields that no parameter has a part in.
record IsIdentified (r s : SubscribeResult) : Type 0 where
  pub same_id : s.request_id ≡ r.request_id
  pub same_namespace : s.track_namespace ≡ r.track_namespace
  pub same_name : s.track_name ≡ r.track_name
  pub same_params : s.params ≡ r.params

subscribe_param-IsIdentified :
    (r : SubscribeResult) (p : KvpParam) → IsIdentified r (subscribe_param r p)
unfolding subscribe_param
subscribe_param-IsIdentified r p = ground arith

apply-understood :
    (c : SubscribeConfig) → IsSendable c → apply_subscribe_params (unread c) (sent c) ≡ understood c
apply-understood c s =
    let r = apply_subscribe_params (unread c) (sent c) in
    let id =
      apply_keeps (λ (x : SubscribeResult). x.request_id)
        (λ r p. (subscribe_param-IsIdentified r p).same_id) (unread c) (sent c) in
    let ns =
      apply_keeps (λ (x : SubscribeResult). x.track_namespace)
        (λ r p. (subscribe_param-IsIdentified r p).same_namespace) (unread c) (sent c) in
    let name =
      apply_keeps (λ (x : SubscribeResult). x.track_name)
        (λ r p. (subscribe_param-IsIdentified r p).same_name) (unread c) (sent c) in
    let params =
      apply_keeps (λ (x : SubscribeResult). x.params)
        (λ r p. (subscribe_param-IsIdentified r p).same_params) (unread c) (sent c) in
    let p = priority_sent c (unread c) s in
    let o = order_sent c (unread c) s in
    let f = forward_sent c (unread c) s in let t = filter_sent c (unread c) s in cc

Fits-subscribe_params : (c : SubscribeConfig) → IsSendable c → All Fits (subscribe_params c)
Fits-subscribe_params c s = (
  (omega arith, omega (arith, s.priority_fits)),
  (
    (omega arith, omega (arith, s.order_fits)),
    (
      (omega arith, omega (arith, s.forward_fits)),
      (
        (omega arith, omega arith),
        All-append Fits (auth_params c.authorization) c.extra_params
            (All-auth_params Fits c.authorization (λ b. (omega arith, omega arith))) s.extra_fit,
      ),
    ),
  ),
)

subscribe_content-bytes :
    (c : SubscribeConfig)
    → subscribe_content c
      ≡ encode_varint c.request_id
        ++ (encode_namespace c.track_namespace
            ++ (string_bytes c.track_name ++ encode_params (subscribe_params c)))
subscribe_content-bytes c = simp append_assoc refl

length-subscribe_content :
    (c : SubscribeConfig) → IsSendable c → length (subscribe_content c) ≡ subscribe_size c
length-subscribe_content c s =
    let ps = subscribe_params c in
    let tail = string_bytes c.track_name ++ encode_params ps in
    let size = s.size_fits in
    ap length (subscribe_content-bytes c)
    ∙ omega (
      arith,
      length-append (encode_varint c.request_id) (encode_namespace c.track_namespace ++ tail),
      length-append (encode_namespace c.track_namespace) tail,
      length-append (string_bytes c.track_name) (encode_params ps),
      length-append (encode_varint (length c.track_name)) c.track_name,
      length-encode_varint c.request_id (omega (arith, s.id_fits)),
      length-encode_varint (length c.track_name) (omega arith),
      length-encode_namespace c.track_namespace (omega arith),
      length-encode_params ps (Fits-subscribe_params c s) (omega arith),
    )

-- A SUBSCRIBE below 64 KiB, whose request id and filter fit a varint and whose priority, group
-- order and forward flag fit a byte, is framed, with any bytes behind it, and parsed back to the
-- same fields, where the host's parameters fit their encoding and stay off the four keys of these
-- fields; the parameters come back in the order of their keys, the token among them.
pub parse-build_subscribe :
    (c : SubscribeConfig) (rest : List ℕ)
    → IsSendable c
    → (parse_control_message (build_subscribe c ++ rest)
        ≡ some (record {
          type = subscribe;
          content = subscribe_content c;
          consumed = varint_size subscribe + 2 + length (subscribe_content c);
        }))
      × (parse_subscribe (subscribe_content c) ≡ ok (understood c))
unfolding build_subscribe parse_subscribe
parse-build_subscribe c rest s = (
  parse-build_control_message subscribe (subscribe_content c) rest (omega arith)
      (omega (arith, length-subscribe_content c s, s.size_fits)),
  rw
      (
        subscribe_content-bytes c,
        read_varint-encode c.request_id 0 _ s.id_fits,
        decode-encode_namespace c.track_namespace (0 + varint_size c.request_id) _
            (length-IsVarint c.track_namespace (omega (arith, s.size_fits)))
            (omega (arith, s.size_fits)),
        read_string-string_bytes c.track_name (encode_params ps)
            (0 + varint_size c.request_id + namespace_size c.track_namespace)
            (omega (arith, s.size_fits)),
        decode_whole ps
            (0
              + varint_size c.request_id
              + namespace_size c.track_namespace
              + string_size c.track_name)
            (Fits-subscribe_params c s) (omega (arith, s.size_fits)),
      )
      (ap ok (apply-understood c s)),
)
  where
    ps : List KvpParam
    ps = subscribe_params c
