-- ===== src/Transport/Stream.antt =====
-- A control stream that is made of framed messages.
use libpanaudia_core.Prelude.{
  All, List, [], ap, append_assoc, arith, bit_and, drop, drop-append_length, if◌then◌else◌, length,
  length-append, refl, u16, u8, ℕ, ◌++◌, ◌+◌, ◌<◌, ◌==◌, ◌>>>◌, ◌^◌, ◌∙◌, ◌∷◌, ◌≡◌, ◌≤◌,
}
use libpanaudia_core.Moq.Varint.{varint_size, encode_varint}
use libpanaudia_core.Moq.Varint.RoundTrip.{length-encode_varint}
use libpanaudia_core.Moq.Reader.{Parsed, ok, fail, fault, Cursor, cursor, read_varint}
use libpanaudia_core.Moq.Reader.Laws.{IsVarint}
use libpanaudia_core.Moq.Framing.{server_setup, MessageType, build_control_message, ControlMessage}
use libpanaudia_core.Moq.Framing.RoundTrip.{parse-build_control_message}
use libpanaudia_core.Transport.{Event, message_events, parse_buffer}
use libpanaudia_core.Transport.Reassembly.{reassemble, reassemble-next, parse_buffer-small}

-- The number of parameters that the content of a message announces.
abbrev pub announced : Parsed (ℕ × Cursor) → ℕ
announced (ok r) = r.0
announced fail = 0
announced fault = 0

-- A message that the framing carries: its type fits a varint, its content the length field, and a
-- SERVER_SETUP announces no more parameters than the memory is there for.
abbrev pub Fits : MessageType × List ℕ → Type 0
Fits m =
    IsVarint m.0
    × length m.1 < 2 ^ 16
    × (if m.0 == server_setup then announced (read_varint (cursor 0 m.1)) else 0) ≤ 2 ^ 16

unfoldable pub framed : List (MessageType × List ℕ) → List ℕ
framed [] = []
framed (m ∷ ms) = build_control_message m.0 m.1 ++ framed ms

-- The callbacks that the messages stand for.
pub delivered : List (MessageType × List ℕ) → List Event
delivered [] = []
delivered (m ∷ ms) =
    message_events (record { type = m.0; content = m.1; consumed = 0 }) ++ delivered ms

length-build_control_message :
    (type : MessageType) (content : List ℕ)
    → IsVarint type
    → length (build_control_message type content) ≡ varint_size type + 2 + length content
unfolding build_control_message
length-build_control_message type content h =
    let len = u16 (length content) in
    let bytes = u8 (len >>> 8) ∷ bit_and len 0xff ∷ content in
    length-append (encode_varint type) bytes
    ∙ ap (λ k. k + length bytes) (length-encode_varint type (omega arith))
    ∙ omega arith

message_events_consumed :
    (m : ControlMessage) (n : ℕ) → message_events m ≡ message_events (record m { consumed = n })
unfolding message_events
message_events_consumed m n = refl

framed-reassemble :
    (ms : List (MessageType × List ℕ)) (rest : List ℕ)
    → All Fits ms
    → reassemble (framed ms ++ rest) ≡ (delivered ms ++ (reassemble rest).0, (reassemble rest).1)
unfolding framed delivered
framed-reassemble [] rest h = refl
framed-reassemble (m ∷ ms) rest h =
    let built = build_control_message m.0 m.1 in
    let behind = framed ms ++ rest in
    let size = varint_size m.0 + 2 + length m.1 in
    let cut : drop size (built ++ behind) ≡ behind =
      rw (← length-build_control_message m.0 m.1 h.0.0) (drop-append_length built behind) in
    let found = parse-build_control_message m.0 m.1 behind h.0.0 (h.0.1) in
    rw
      (
        append_assoc built (framed ms) rest,
        reassemble-next (built ++ behind) found,
        cut,
        framed-reassemble ms rest h.1,
        append_assoc,
        ← message_events_consumed (record { type = m.0; content = m.1; consumed = 0 }) size,
      )
      refl

-- A reassembly buffer of framed messages makes the callbacks of each of them, in order, and then
-- those of the bytes behind them, which it leaves as they would be left alone, if every type is
-- below 2^62, every content below 64 KiB, the whole below 2^31 bytes, and a SERVER_SETUP announces
-- at most 2^16 parameters, for which its decoder reserves room.
pub reassemble-framed :
    (ms : List (MessageType × List ℕ)) (rest : List ℕ)
    → All Fits ms
    → length (framed ms ++ rest) < 2 ^ 31
    → let behind = parse_buffer rest in
      parse_buffer (framed ms ++ rest) ≡ (delivered ms ++ behind.0, behind.1)
reassemble-framed ms rest h k =
    rw
      (
        parse_buffer-small (framed ms ++ rest) k,
        parse_buffer-small rest (omega (arith, length-append (framed ms) rest)),
      )
      (framed-reassemble ms rest h)
