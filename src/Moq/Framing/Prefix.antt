-- ===== src/Moq/Framing/Prefix.antt =====
-- A message that is there in full is read the same, whatever bytes arrive after it.
use libpanaudia_core.Prelude.{
  List, [], arith, drop, drop-append_left, get_or-append, length, length-append, length-drop,
  length-take, some, take, take-append_left, ℕ, ◌++◌, ◌+◌, ◌∷◌, ◌≡◌, ◌≢◌, ◌≤◌,
}
use libpanaudia_core.Moq.Varint.{decode_varint}
use libpanaudia_core.Moq.Framing.{
  ControlMessage, parse_control_message, parse_content, content_length,
}

pub decode_varint-append :
    (xs ys : List ℕ)
    → (decode_varint xs).1 ≢ 0
    → (decode_varint (xs ++ ys) ≡ decode_varint xs) × ((decode_varint xs).1 ≤ length xs)
unfolding decode_varint
decode_varint-append [] ys h = ground arith
decode_varint-append (a ∷ []) ys h = ground arith
decode_varint-append (a ∷ b ∷ []) ys h = ground arith
decode_varint-append (a ∷ b ∷ c ∷ []) ys h = ground arith
decode_varint-append (a ∷ b ∷ c ∷ d ∷ []) ys h = ground arith
decode_varint-append (a ∷ b ∷ c ∷ d ∷ e ∷ []) ys h = ground arith
decode_varint-append (a ∷ b ∷ c ∷ d ∷ e ∷ f ∷ []) ys h = ground arith
decode_varint-append (a ∷ b ∷ c ∷ d ∷ e ∷ f ∷ g ∷ []) ys h = ground arith
decode_varint-append (a ∷ b ∷ c ∷ d ∷ e ∷ f ∷ g ∷ i ∷ xs) ys h = ground arith

content_length-append :
    (xs ys : List ℕ) (br : ℕ)
    → br + 2 ≤ length xs
    → content_length (xs ++ ys) br ≡ content_length xs br
unfolding content_length
content_length-append xs ys br h =
    ground (arith, get_or-append xs ys br 0, get_or-append xs ys (br + 1) 0)

block-append :
    (xs ys : List ℕ) (o n : ℕ) → o + n ≤ length xs → take n (drop o (xs ++ ys)) ≡ take n (drop o xs)
block-append xs ys o n h =
    rw (drop-append_left o xs ys (omega arith))
      (take-append_left n (drop o xs) ys (omega (arith, length-drop o xs)))

parse_content-append :
    (xs ys : List ℕ) (t br : ℕ) {m : ControlMessage}
    → parse_content xs t br ≡ some m
    → parse_content (xs ++ ys) t br ≡ some m
unfolding parse_content
parse_content-append xs ys t br h = ground (
  arith,
  length-append xs ys,
  content_length-append xs ys br,
  block-append xs ys (br + 2) (content_length xs br),
)

pub parse_content_consumed :
    (xs : List ℕ) (t br : ℕ) {m : ControlMessage}
    → parse_content xs t br ≡ some m
    → (m.consumed ≡ br + 2 + length m.content) × (m.consumed ≤ length xs)
unfolding parse_content
parse_content_consumed xs t br h =
    ground (arith, length-take (content_length xs br) (drop (br + 2) xs), length-drop (br + 2) xs)

-- A framed message reads the same whatever bytes follow it.
pub parse_control_message-append :
    (xs ys : List ℕ) {m : ControlMessage}
    → parse_control_message xs ≡ some m
    → parse_control_message (xs ++ ys) ≡ some m
unfolding parse_control_message
parse_control_message-append xs ys {m} h = ground (
  arith,
  length-append xs ys,
  decode_varint-append xs ys,
  parse_content-append xs ys (decode_varint xs).0 (decode_varint xs).1 {m = m},
)

-- A framed message that is read takes 3 bytes at least, and no more than there are.
pub parse_control_message_consumed :
    (xs : List ℕ) {m : ControlMessage}
    → parse_control_message xs ≡ some m
    → (3 ≤ m.consumed) × (m.consumed ≤ length xs)
unfolding parse_control_message
parse_control_message_consumed xs {m} h =
    ground (arith, parse_content_consumed xs (decode_varint xs).0 (decode_varint xs).1 {m = m})
