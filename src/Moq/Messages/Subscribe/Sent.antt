-- ===== src/Moq/Messages/Subscribe/Sent.antt =====
-- What the parameters of a SUBSCRIBE, with those of the host, leave in the fields of the result.
use libpanaudia_core.Prelude.{
  All, Bool, List, [], ap, append-nil, ap₂, arith, false, length, map, refl, sym, true, u8, ℕ, ◌%◌,
  ◌++◌, ◌+◌, ◌<◌, ◌==◌, ◌^◌, ◌||◌, ◌∙◌, ◌∷◌, ◌≡◌,
}
use libpanaudia_core.Moq.Varint.{encode_varint, varint_size, decode_varint}
use libpanaudia_core.Moq.Varint.RoundTrip.{length-encode_varint, varint_size_bounds, decode-encode}
use libpanaudia_core.Moq.Reader.Laws.{IsVarint, string_size}
use libpanaudia_core.Moq.Namespace.RoundTrip.{namespace_size}
use libpanaudia_core.Moq.Params.{KvpParam, sort_params}
use libpanaudia_core.Moq.Params.Sorting.{sort_params-All, has_key, has_key-sort_params}
use libpanaudia_core.Moq.Params.RoundTrip.{carried, Fits, params_size, key-carried}
use libpanaudia_core.Moq.Messages.Keys.{
  param_key_auth_token, param_key_forward, param_key_subscriber_priority,
  param_key_subscription_filter, param_key_group_order,
}
use libpanaudia_core.Moq.Messages.Subscribe.{
  SubscribeConfig, int_param, bytes_param, auth_params, subscribe_params, SubscribeResult,
  filter_of, subscribe_param, apply_subscribe_params,
}
use libpanaudia_core.Moq.Messages.Subscribe.Fields.{IsSetBy, apply_sets}

-- A parameter of the host under none of the four keys that the session uses itself.
abbrev pub IsForeign : KvpParam → Type 0
IsForeign p =
    ((p.key == param_key_subscriber_priority) ≡ false)
    × ((p.key == param_key_group_order) ≡ false)
    × ((p.key == param_key_forward) ≡ false)
    × ((p.key == param_key_subscription_filter) ≡ false)

abbrev pub subscribe_size : SubscribeConfig → ℕ
subscribe_size c =
    varint_size c.request_id
    + namespace_size c.track_namespace
    + string_size c.track_name
    + params_size (subscribe_params c)

pub record IsSendable (c : SubscribeConfig) : Type 0 where
  pub id_fits : IsVarint c.request_id
  pub priority_fits : c.priority < 256
  pub order_fits : c.group_order < 256
  pub forward_fits : c.forward < 256
  pub filter_fits : IsVarint c.filter_type
  pub extra_fit : All Fits c.extra_params
  pub extra_foreign : All IsForeign c.extra_params
  pub size_fits : subscribe_size c < 2 ^ 16

pub All-append :
    (P : KvpParam → Type 0) (xs ys : List KvpParam) → All P xs → All P ys → All P (xs ++ ys)
All-append P [] ys h k = k
All-append P (x ∷ xs) ys h k = (h.0, All-append P xs ys h.1 k)

All-map-carried :
    (P : KvpParam → Type 0) (xs : List KvpParam)
    → All (λ p. P (carried p)) xs
    → All P (map carried xs)
All-map-carried P [] h = tt
All-map-carried P (x ∷ xs) h = (h.0, All-map-carried P xs h.1)

pub All-auth_params :
    (P : KvpParam → Type 0) (jwt : List ℕ)
    → ((b : List ℕ) → P (bytes_param param_key_auth_token b))
    → All P (auth_params jwt)
All-auth_params P [] h = tt
All-auth_params P (b ∷ bs) h = (h (b ∷ bs), tt)

All-imp :
    (P Q : KvpParam → Type 0) (xs : List KvpParam)
    → ((p : KvpParam) → P p → Q p)
    → All P xs
    → All Q xs
All-imp P Q [] f h = tt
All-imp P Q (x ∷ xs) f h = (f x h.0, All-imp P Q xs f h.1)

has_key-map-carried : (k : ℕ) (ps : List KvpParam) → has_key k (map carried ps) ≡ has_key k ps
unfolding has_key
has_key-map-carried k [] = refl
has_key-map-carried k (p ∷ ps) =
    ap₂ (λ (x : ℕ) (b : Bool). (x == k) || b) (key-carried p) (has_key-map-carried k ps)

-- Whatever only depends on parameters of one key holds of all, if it holds of those of the session.
All-sent :
    (S : KvpParam → Type 0) (c : SubscribeConfig)
    → S (int_param param_key_subscriber_priority c.priority)
    → S (int_param param_key_group_order c.group_order)
    → S (int_param param_key_forward c.forward)
    → S (bytes_param param_key_subscription_filter (encode_varint c.filter_type))
    → ((b : List ℕ) → S (bytes_param param_key_auth_token b))
    → All (λ p. S (carried p)) c.extra_params
    → All S (map carried (sort_params (subscribe_params c)))
All-sent S c a b d e f g = All-map-carried S (sort_params (subscribe_params c)) (
    sort_params-All (λ p. S (carried p)) (subscribe_params c)
      (
        a,
        (
          b,
          (
            d,
            (
              e,
              All-append (λ p. S (carried p)) (auth_params c.authorization) c.extra_params
                  (All-auth_params (λ p. S (carried p)) c.authorization f) g,
            ),
          ),
        ),
      ))

-- A parameter under the key carries the byte `v`, and one under the filter's the type `v`.
abbrev SetsByte : ℕ → ℕ → KvpParam → Type 0
SetsByte k v p = (p.key == k) ≡ true → u8 p.int_value ≡ v

abbrev SetsFilter : ℕ → KvpParam → Type 0
SetsFilter v p =
    (p.key == param_key_subscription_filter) ≡ true → (now : ℕ) → filter_of now p.bytes_value ≡ v

priority_set :
    (v : ℕ)
    → IsSetBy
        (λ (r : SubscribeResult). r.priority)
        param_key_subscriber_priority
        v
        (SetsByte param_key_subscriber_priority v)
unfolding subscribe_param
priority_set v = record { hit = λ r p t g. ground (arith, g t); miss = λ r p t. ground arith }

order_set :
    (v : ℕ)
    → IsSetBy
        (λ (r : SubscribeResult). r.group_order)
        param_key_group_order
        v
        (SetsByte param_key_group_order v)
unfolding subscribe_param
order_set v = record { hit = λ r p t g. ground (arith, g t); miss = λ r p t. ground arith }

forward_set :
    (v : ℕ)
    → IsSetBy
        (λ (r : SubscribeResult). r.forward)
        param_key_forward
        v
        (SetsByte param_key_forward v)
unfolding subscribe_param
forward_set v = record { hit = λ r p t g. ground (arith, g t); miss = λ r p t. ground arith }

filter_set :
    (v : ℕ)
    → IsSetBy
        (λ (r : SubscribeResult). r.filter_type)
        param_key_subscription_filter
        v
        (SetsFilter v)
unfolding subscribe_param
filter_set v = record {
  hit = λ r p t g. ground (arith, g t r.filter_type);
  miss = λ r p t. ground arith;
}

filter_of-encode : (v now : ℕ) → IsVarint v → filter_of now (encode_varint v) ≡ v
unfolding filter_of
filter_of-encode v now h =
    read (encode_varint v) (length-encode_varint v (omega arith))
      (ap decode_varint (sym (append-nil (encode_varint v))) ∙ decode-encode v [] (omega arith))
  where
    read :
        (bs : List ℕ)
        → length bs ≡ varint_size v
        → decode_varint bs ≡ (v % 2 ^ 62, varint_size v)
        → filter_of now bs ≡ v
    read [] l d = omega (arith, varint_size_bounds v)
    read (b ∷ bs) l d = rw d (ground (arith, varint_size_bounds v))

abbrev pub sent : SubscribeConfig → List KvpParam
sent c = map carried (sort_params (subscribe_params c))

-- A foreign parameter keeps its key.
foreign_key : (k : ℕ) (p : KvpParam) → (p.key == k) ≡ false → ((carried p).key == k) ≡ true → ⊥
foreign_key k p e t = ground (arith, key-carried p)

sent_key :
    (k : ℕ) (c : SubscribeConfig)
    → has_key k (subscribe_params c) ≡ true
    → has_key k (sent c) ≡ true
sent_key k c h =
    has_key-map-carried k (sort_params (subscribe_params c))
    ∙ has_key-sort_params k (subscribe_params c)
    ∙ h

pub priority_sent :
    (c : SubscribeConfig) (r : SubscribeResult)
    → IsSendable c
    → (apply_subscribe_params r (sent c)).priority ≡ c.priority
unfolding has_key
priority_sent c r s =
    apply_sets (priority_set c.priority) r (sent c)
      (All-sent (SetsByte param_key_subscriber_priority c.priority) c
        (λ _. omega (arith, s.priority_fits)) (λ t. ground arith) (λ t. ground arith)
        (λ t. ground arith) (λ b t. ground arith)
        (All-imp IsForeign _ c.extra_params (λ p f t. absurd (foreign_key _ p f.0 t))
          s.extra_foreign))
      (sent_key param_key_subscriber_priority c refl)

pub order_sent :
    (c : SubscribeConfig) (r : SubscribeResult)
    → IsSendable c
    → (apply_subscribe_params r (sent c)).group_order ≡ c.group_order
unfolding has_key
order_sent c r s =
    apply_sets (order_set c.group_order) r (sent c)
      (All-sent (SetsByte param_key_group_order c.group_order) c (λ t. ground arith)
        (λ _. omega (arith, s.order_fits)) (λ t. ground arith) (λ t. ground arith)
        (λ b t. ground arith)
        (All-imp IsForeign _ c.extra_params (λ p f t. absurd (foreign_key _ p f.1 t))
          s.extra_foreign))
      (sent_key param_key_group_order c refl)

pub forward_sent :
    (c : SubscribeConfig) (r : SubscribeResult)
    → IsSendable c
    → (apply_subscribe_params r (sent c)).forward ≡ c.forward
unfolding has_key
forward_sent c r s =
    apply_sets (forward_set c.forward) r (sent c)
      (All-sent (SetsByte param_key_forward c.forward) c (λ t. ground arith) (λ t. ground arith)
        (λ _. omega (arith, s.forward_fits)) (λ t. ground arith) (λ b t. ground arith)
        (All-imp IsForeign _ c.extra_params (λ p f t. absurd (foreign_key _ p f.2 t))
          s.extra_foreign))
      (sent_key param_key_forward c refl)

pub filter_sent :
    (c : SubscribeConfig) (r : SubscribeResult)
    → IsSendable c
    → (apply_subscribe_params r (sent c)).filter_type ≡ c.filter_type
unfolding has_key
filter_sent c r s =
    apply_sets (filter_set c.filter_type) r (sent c)
      (All-sent (SetsFilter c.filter_type) c (λ t. ground arith) (λ t. ground arith)
        (λ t. ground arith) (λ _ now. filter_of-encode c.filter_type now s.filter_fits)
        (λ b t. ground arith)
        (All-imp IsForeign _ c.extra_params (λ p f t. absurd (foreign_key _ p f.3 t))
          s.extra_foreign))
      (sent_key param_key_subscription_filter c refl)
