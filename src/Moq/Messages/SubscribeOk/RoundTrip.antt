-- ===== src/Moq/Messages/SubscribeOk/RoundTrip.antt =====
-- parse_subscribe_ok reads back what build_subscribe_ok wrote.
use libpanaudia_core.Prelude.{
  All, Bool, List, [], ap, append-nil, append_assoc, ap₂, arith, false, if◌then◌else◌, length,
  length-append, ltb, map, refl, some, sym, true, ℕ, ◌++◌, ◌+◌, ◌-◌, ◌<◌, ◌==◌, ◌^◌, ◌∙◌, ◌∷◌, ◌≡◌,
  ◌≤◌,
}
use libpanaudia_core.Moq.Varint.{encode_varint, decode_varint, varint_size}
use libpanaudia_core.Moq.Varint.RoundTrip.{decode-encode, varint_size_bounds, length-encode_varint}
use libpanaudia_core.Moq.Reader.{append_varint, ok}
use libpanaudia_core.Moq.Reader.Laws.{IsVarint, drop-encode, read_varint-encode}
use libpanaudia_core.Moq.Params.{KvpParam, sort_params, encode_params}
use libpanaudia_core.Moq.Params.RoundTrip.{
  carried, Fits, params_size, value_size, pairs_size, length-encode_params, decode_whole,
}
use libpanaudia_core.Moq.Framing.{subscribe_ok, parse_control_message}
use libpanaudia_core.Moq.Framing.RoundTrip.{parse-build_control_message}
use libpanaudia_core.Moq.Messages.Keys.{
  param_key_expires, param_key_largest_object, param_key_group_order,
}
use libpanaudia_core.Moq.Messages.Subscribe.{int_param, bytes_param}
use libpanaudia_core.Moq.Messages.SubscribeOk.{
  SubscribeOkConfig, SubscribeOkResult, largest, ok_param, apply_ok_params, ok_params, ok_content,
  build_subscribe_ok, parse_subscribe_ok,
}

-- The parameters of the answer, with the three tests as arguments.
abbrev chosen : Bool → Bool → Bool → SubscribeOkConfig → List KvpParam
chosen e x g c =
    (if e then int_param param_key_expires c.expires_ms ∷ [] else [])
    ++ ((if x
          then bytes_param param_key_largest_object
              (append_varint (append_varint [] c.largest_group_id) c.largest_object_id)
            ∷ []
          else [])
        ++ (if g then [] else int_param param_key_group_order c.group_order ∷ []))

-- What fits the fields on the wire.
pub record IsSendable (c : SubscribeOkConfig) : Type 0 where
  pub id_fits : IsVarint c.request_id
  pub alias_fits : IsVarint c.track_alias
  pub expires_fits : IsVarint c.expires_ms
  pub order_fits : c.group_order < 256
  pub group_fits : IsVarint c.largest_group_id
  pub object_fits : IsVarint c.largest_object_id

abbrev applied : Bool → Bool → Bool → SubscribeOkConfig → SubscribeOkResult → SubscribeOkResult
applied e x g c r = record r {
  expires_ms = if e then c.expires_ms else r.expires_ms;
  group_order = if g then r.group_order else c.group_order;
  content_exists = if x then true else r.content_exists;
  largest_group_id = if x then c.largest_group_id else r.largest_group_id;
  largest_object_id = if x then c.largest_object_id else r.largest_object_id;
}

-- The group and the object of the largest location, one behind the other.
largest-encode :
    (g o : ℕ) (r : SubscribeOkResult)
    → IsVarint g
    → IsVarint o
    → largest r (append_varint (append_varint [] g) o)
      ≡ record r { content_exists = true; largest_group_id = g; largest_object_id = o }
unfolding largest
largest-encode g o r hg ho =
    let first = decode-encode g (encode_varint o) (omega arith) in
    let second =
      ap decode_varint (sym (append-nil (encode_varint o))) ∙ decode-encode o [] (omega arith) in
    let skipped = drop-encode g (encode_varint o) hg in
    rw (first, skipped, second) (ground (arith, varint_size_bounds g))

applied_order :
    (g : Bool) (c : SubscribeOkConfig) (r : SubscribeOkResult)
    → IsSendable c
    → apply_ok_params r (map carried (sort_params (chosen false false g c)))
      ≡ applied false false g c r
unfolding apply_ok_params ok_param sort_params
applied_order true c r s = refl
applied_order false c r s =
    ap (λ (k : ℕ). record r { group_order = k }) (omega (arith, s.order_fits))

applied_largest :
    (x g : Bool) (c : SubscribeOkConfig) (r : SubscribeOkResult)
    → IsSendable c
    → apply_ok_params r (map carried (sort_params (chosen false x g c))) ≡ applied false x g c r
unfolding apply_ok_params ok_param sort_params
applied_largest false g c r s = applied_order g c r s
applied_largest true true c r s =
    largest-encode c.largest_group_id c.largest_object_id r s.group_fits s.object_fits
applied_largest true false c r s =
    ap₂ (λ (x : SubscribeOkResult) (k : ℕ). record x { group_order = k })
      (largest-encode c.largest_group_id c.largest_object_id r s.group_fits s.object_fits)
      (omega (arith, s.order_fits))

applied_all :
    (e x g : Bool) (c : SubscribeOkConfig) (r : SubscribeOkResult)
    → IsSendable c
    → apply_ok_params r (map carried (sort_params (chosen e x g c))) ≡ applied e x g c r
unfolding apply_ok_params ok_param sort_params
applied_all false x g c r s = applied_largest x g c r s
applied_all true false true c r s = refl
applied_all true false false c r s =
    applied_largest false false c (record r { expires_ms = c.expires_ms }) s
applied_all true true true c r s =
    applied_largest true true c (record r { expires_ms = c.expires_ms }) s
applied_all true true false c r s =
    applied_largest true false c (record r { expires_ms = c.expires_ms }) s

-- The parameters stand in the order of their keys.
sort-chosen : (e x g : Bool) (c : SubscribeOkConfig) → sort_params (chosen e x g c) ≡ chosen e x g c
unfolding sort_params
sort-chosen true true true c = refl
sort-chosen true true false c = refl
sort-chosen true false true c = refl
sort-chosen true false false c = refl
sort-chosen false true true c = refl
sort-chosen false true false c = refl
sort-chosen false false true c = refl
sort-chosen false false false c = refl

-- What the pairs take at most, whatever their keys.
loose : List KvpParam → ℕ
loose [] = 0
loose (p ∷ ps) = 8 + value_size p + loose ps

pairs_size-loose : (prev : ℕ) (ps : List KvpParam) → pairs_size prev ps ≤ loose ps
unfolding loose
pairs_size-loose prev [] = omega arith
pairs_size-loose prev (p ∷ ps) =
    omega (arith, pairs_size-loose p.key ps, varint_size_bounds (p.key - prev))

loose_order : (g : Bool) (c : SubscribeOkConfig) → loose (chosen false false g c) ≤ 16
unfolding loose
loose_order true c = omega arith
loose_order false c = omega (arith, varint_size_bounds c.group_order)

loose_largest :
    (x g : Bool) (c : SubscribeOkConfig) → IsSendable c → loose (chosen false x g c) ≤ 48
unfolding loose
loose_largest false g c s = omega (arith, loose_order g c)
loose_largest true g c s =
    let location = encode_varint c.largest_group_id ++ encode_varint c.largest_object_id in
    omega (
      arith,
      loose_order g c,
      length-append (encode_varint c.largest_group_id) (encode_varint c.largest_object_id),
      length-encode_varint c.largest_group_id (omega (arith, s.group_fits)),
      length-encode_varint c.largest_object_id (omega (arith, s.object_fits)),
      varint_size_bounds c.largest_group_id,
      varint_size_bounds c.largest_object_id,
      varint_size_bounds (length location),
    )

loose_all : (e x g : Bool) (c : SubscribeOkConfig) → IsSendable c → loose (chosen e x g c) ≤ 64
unfolding loose
loose_all false x g c s = omega (arith, loose_largest x g c s)
loose_all true x g c s = omega (arith, loose_largest x g c s, varint_size_bounds c.expires_ms)

params_size-chosen :
    (e x g : Bool) (c : SubscribeOkConfig) → IsSendable c → params_size (chosen e x g c) ≤ 72
params_size-chosen e x g c s = rw (sort-chosen e x g c) (
    omega (
      arith,
      pairs_size-loose 0 (chosen e x g c),
      loose_all e x g c s,
      varint_size_bounds (length (chosen e x g c)),
    ))

Fits-order : (g : Bool) (c : SubscribeOkConfig) → IsSendable c → All Fits (chosen false false g c)
Fits-order true c s = tt
Fits-order false c s = ((omega arith, omega (arith, s.order_fits)), tt)

Fits-largest : (x g : Bool) (c : SubscribeOkConfig) → IsSendable c → All Fits (chosen false x g c)
Fits-largest false g c s = Fits-order g c s
Fits-largest true g c s = ((omega arith, omega arith), Fits-order g c s)

Fits-chosen : (e x g : Bool) (c : SubscribeOkConfig) → IsSendable c → All Fits (chosen e x g c)
Fits-chosen false x g c s = Fits-largest x g c s
Fits-chosen true x g c s = ((omega arith, s.expires_fits), Fits-largest x g c s)

-- What the receiver learns: a field that is not sent has its default.
abbrev pub received : SubscribeOkConfig → SubscribeOkResult
received c = record {
  request_id = c.request_id;
  track_alias = c.track_alias;
  expires_ms = c.expires_ms;
  group_order = c.group_order;
  content_exists = c.content_exists;
  largest_group_id = if c.content_exists then c.largest_group_id else 0;
  largest_object_id = if c.content_exists then c.largest_object_id else 0;
  params = map carried (sort_params (ok_params c));
}

ok_size : (c : SubscribeOkConfig) → IsSendable c → length (ok_content c) < 2 ^ 16
ok_size c s =
    let ps = ok_params c in
    let fits = Fits-chosen (ltb 0 c.expires_ms) c.content_exists (c.group_order == 0) c s in
    let size = params_size-chosen (ltb 0 c.expires_ms) c.content_exists (c.group_order == 0) c s in
    omega (
      arith,
      size,
      length-encode_params ps fits (omega arith),
      length-append (encode_varint c.request_id ++ encode_varint c.track_alias) (encode_params ps),
      length-append (encode_varint c.request_id) (encode_varint c.track_alias),
      length-encode_varint c.request_id (omega (arith, s.id_fits)),
      length-encode_varint c.track_alias (omega (arith, s.alias_fits)),
      varint_size_bounds c.request_id,
      varint_size_bounds c.track_alias,
    )

-- The result before the loop over the parameters.
abbrev fresh : SubscribeOkConfig → SubscribeOkResult
fresh c = record {
  request_id = c.request_id;
  track_alias = c.track_alias;
  expires_ms = 0;
  group_order = 0;
  content_exists = false;
  largest_group_id = 0;
  largest_object_id = 0;
  params = map carried (sort_params (ok_params c));
}

-- A parameter is left out only where its field has the default.
applied-received :
    (c : SubscribeOkConfig)
    → applied (ltb 0 c.expires_ms) c.content_exists (c.group_order == 0) c (fresh c) ≡ received c
applied-received c =
    ap₂
      (λ (e o : ℕ). record (received c) {
        expires_ms = e;
        group_order = o;
        content_exists = if c.content_exists then true else false;
      })
      expires order
    ∙ ap (λ (x : Bool). record (received c) { content_exists = x }) (exists c.content_exists)
  where
    expires : (if ltb 0 c.expires_ms then c.expires_ms else 0) ≡ c.expires_ms
    expires = ground arith

    order : (if c.group_order == 0 then 0 else c.group_order) ≡ c.group_order
    order = ground arith

    exists : (b : Bool) → (if b then true else false) ≡ b
    exists true = refl
    exists false = refl

-- A SUBSCRIBE_OK whose ids, time and location fit a varint and whose group order fits a byte is
-- framed, with any bytes behind it, and parsed back to the same fields; a largest location that is
-- not announced counts as 0.
pub parse-build_subscribe_ok :
    (c : SubscribeOkConfig) (rest : List ℕ)
    → IsSendable c
    → (parse_control_message (build_subscribe_ok c ++ rest)
        ≡ some (record {
          type = subscribe_ok;
          content = ok_content c;
          consumed = varint_size subscribe_ok + 2 + length (ok_content c);
        }))
      × (parse_subscribe_ok (ok_content c) ≡ ok (received c))
unfolding build_subscribe_ok parse_subscribe_ok
parse-build_subscribe_ok c rest s = (
  parse-build_control_message subscribe_ok (ok_content c) rest (omega arith) (ok_size c s),
  simp append_assoc (
      rw
        (
          read_varint-encode c.request_id 0 (encode_varint c.track_alias ++ encode_params ps)
              s.id_fits,
          read_varint-encode c.track_alias (0 + varint_size c.request_id) (encode_params ps)
              s.alias_fits,
          decode_whole ps (0 + varint_size c.request_id + varint_size c.track_alias) fits (
              omega
                (arith, size, varint_size_bounds c.request_id, varint_size_bounds c.track_alias)),
        )
        (ap ok (
          applied_all (ltb 0 c.expires_ms) c.content_exists (c.group_order == 0) c (fresh c) s
          ∙ applied-received c))),
)
  where
    ps : List KvpParam
    ps = ok_params c

    fits : All Fits ps
    fits = Fits-chosen (ltb 0 c.expires_ms) c.content_exists (c.group_order == 0) c s

    size : params_size ps ≤ 72
    size = params_size-chosen (ltb 0 c.expires_ms) c.content_exists (c.group_order == 0) c s
