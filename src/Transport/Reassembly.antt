-- ===== src/Transport/Reassembly.antt =====
-- The control stream's reassembly: neither the fuel nor the chunks it arrives in matter.
use libpanaudia_core.Prelude.{
  List, Option-cases, [], ap, append-nil, append_assoc, arith, drop, drop-append_left, drop_all,
  inl, inr, length, length-drop, none, refl, some, suc, take_all, zero, ℕ, ◌++◌, ◌<◌, ◌^◌, ◌∙◌, ◌≡◌,
  ◌≤◌,
}
use libpanaudia_core.Moq.Framing.{ControlMessage, parse_control_message}
use libpanaudia_core.Moq.Framing.Prefix.{
  parse_control_message_consumed, parse_control_message-append,
}
use libpanaudia_core.Transport.{
  message_events, parse_round, bytes_consumed, parse_loop, Event, parse_buffer, buffer_len,
}

too_short : (buffer : List ℕ) → length buffer < 3 → parse_control_message buffer ≡ none
unfolding parse_control_message
too_short buffer h = ground arith

parse_loop-zero : (buffer : List ℕ) → parse_loop zero buffer ≡ ([], buffer)
unfolding parse_loop
parse_loop-zero buffer = refl

parse_loop-stop :
    (n : ℕ) (buffer : List ℕ)
    → parse_control_message buffer ≡ none
    → parse_loop n buffer ≡ ([], buffer)
unfolding parse_loop parse_round
parse_loop-stop zero buffer h = refl
parse_loop-stop (suc n) buffer h = ground arith

parse_loop-next :
    (n : ℕ) (buffer : List ℕ) {m : ControlMessage}
    → parse_control_message buffer ≡ some m
    → let rest = parse_loop n (drop m.consumed buffer) in
      parse_loop (suc n) buffer ≡ (message_events m ++ rest.0, rest.1)
unfolding parse_loop parse_round bytes_consumed
parse_loop-next n buffer h = ground (arith, parse_control_message_consumed buffer h)

-- Enough fuel is as good as more.
parse_loop-fuel :
    (n m : ℕ) (buffer : List ℕ)
    → length buffer ≤ n
    → length buffer ≤ m
    → parse_loop n buffer ≡ parse_loop m buffer
parse_loop-fuel zero m buffer h k =
    rw (parse_loop-zero buffer, parse_loop-stop m buffer (too_short buffer (omega arith))) refl
parse_loop-fuel (suc n) zero buffer h k =
    rw (parse_loop-zero buffer, parse_loop-stop (suc n) buffer (too_short buffer (omega arith)))
      refl
parse_loop-fuel (suc n) (suc m) buffer h k = elim (Option-cases (parse_control_message buffer)) [
  | inl e ↦ rw (parse_loop-stop (suc n) buffer e, parse_loop-stop (suc m) buffer e) refl
  | inr (c, e) ↦
      let rest = drop c.consumed buffer in
      let fits = parse_control_message_consumed buffer e in
      let shorter = length-drop c.consumed buffer in
      rw
        (
          parse_loop-next n buffer e,
          parse_loop-next m buffer e,
          parse_loop-fuel n m rest (omega (arith, fits, shorter)) (omega (arith, fits, shorter)),
        )
        refl
]

-- The whole buffer's callbacks, and what is left of it.
abbrev pub reassemble : List ℕ → List Event × List ℕ
reassemble buffer = parse_loop (length buffer) buffer

pub reassemble-next :
    (buffer : List ℕ) {m : ControlMessage}
    → parse_control_message buffer ≡ some m
    → let rest = reassemble (drop m.consumed buffer) in
      reassemble buffer ≡ (message_events m ++ rest.0, rest.1)
reassemble-next buffer {m} e =
    let n = length buffer in
    let rest = drop m.consumed buffer in
    let fits = length-drop m.consumed buffer in
    parse_loop-fuel n (suc n) buffer (omega arith) (omega arith)
    ∙ parse_loop-next n buffer e
    ∙ ap (λ r. (message_events m ++ r.0, r.1))
        (parse_loop-fuel n (length rest) rest (omega (arith, fits)) (omega arith))

parse_loop-append :
    (n : ℕ) (xs ys : List ℕ)
    → length xs ≤ n
    → let first = parse_loop n xs in
      let second = reassemble (first.1 ++ ys) in
      reassemble (xs ++ ys) ≡ (first.0 ++ second.0, second.1)
parse_loop-append zero xs ys h = rw (parse_loop-zero xs) refl
parse_loop-append (suc n) xs ys h = elim (Option-cases (parse_control_message xs)) [
  | inl e ↦ rw (parse_loop-stop (suc n) xs e) refl
  | inr (c, e) ↦
      let fits = parse_control_message_consumed xs e in
      let rest = drop c.consumed xs in
      let shorter = length-drop c.consumed xs in
      rw
        (
          parse_loop-next n xs e,
          reassemble-next (xs ++ ys) (parse_control_message-append xs ys e),
          drop-append_left c.consumed xs ys (fits.1),
          parse_loop-append n rest ys (omega (arith, fits, shorter)),
          append_assoc,
        )
        refl
]

-- Let `first` be the parse of the bytes `xs`: the callbacks it makes and the bytes it leaves. The
-- parse of `xs ++ ys` makes the callbacks of `first`, then those of the parse of what `first`
-- left with `ys` behind it, and leaves what this leaves.
pub reassemble-append :
    (xs ys : List ℕ)
    → let first = reassemble xs in
      let second = reassemble (first.1 ++ ys) in
      reassemble (xs ++ ys) ≡ (first.0 ++ second.0, second.1)
reassemble-append xs ys = parse_loop-append (length xs) xs ys (omega arith)

parse_loop_remainder :
    (n : ℕ) (buffer : List ℕ)
    → length buffer ≤ n
    → parse_control_message (parse_loop n buffer).1 ≡ none
parse_loop_remainder zero buffer h = rw (parse_loop-zero buffer) (too_short buffer (omega arith))
parse_loop_remainder (suc n) buffer h = elim (Option-cases (parse_control_message buffer)) [
  | inl e ↦ rw (parse_loop-stop (suc n) buffer e) e
  | inr (c, e) ↦
      let fits = parse_control_message_consumed buffer e in
      let shorter = length-drop c.consumed buffer in
      rw (parse_loop-next n buffer e)
        (parse_loop_remainder n (drop c.consumed buffer) (omega (arith, fits, shorter)))
]

-- Below 2^31 bytes, the size as an `int32_t` is the size.
pub parse_buffer-small :
    (buffer : List ℕ) → length buffer < 2 ^ 31 → parse_buffer buffer ≡ reassemble buffer
unfolding parse_buffer buffer_len
parse_buffer-small buffer h =
    let whole : buffer_len (length buffer) ≡ length buffer = ground arith in
    rw
      (
        whole,
        take_all (length buffer) buffer (omega arith),
        drop_all (length buffer) buffer (omega arith),
        append-nil,
      )
      refl

pub parse_loop_shorter : (n : ℕ) (buffer : List ℕ) → length (parse_loop n buffer).1 ≤ length buffer
unfolding parse_loop
parse_loop_shorter zero buffer = omega arith
parse_loop_shorter (suc n) buffer = elim (Option-cases (parse_control_message buffer)) [
  | inl e ↦ rw (parse_loop-stop (suc n) buffer e) (omega arith)
  | inr (c, e) ↦
      rw (parse_loop-next n buffer e) (
        omega (arith, parse_loop_shorter n (drop c.consumed buffer), length-drop c.consumed buffer))
]

-- If the reassembly buffer has fewer than 2^31 bytes, its loop stops at an incomplete message only:
-- the bytes it leaves hold no whole message.
pub reassemble_remainder :
    (buffer : List ℕ)
    → length buffer < 2 ^ 31
    → parse_control_message (parse_buffer buffer).1 ≡ none
reassemble_remainder buffer h =
    rw (parse_buffer-small buffer h) (parse_loop_remainder (length buffer) buffer (omega arith))
