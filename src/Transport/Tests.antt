-- ===== src/Transport/Tests.antt =====
-- Runs of the control stream on an ANNOUNCE that is cut in two.
use libpanaudia_core.Prelude.{List, [], arith, none, refl, true, ℕ, ◌++◌, ◌∷◌, ◌≡◌}
use libpanaudia_core.Moq.Framing.{
  announce, content_length, parse_content, parse_control_message, MessageType,
  build_control_message,
}
use libpanaudia_core.Moq.Varint.{decode_varint, encode_varint}
use libpanaudia_core.Transport.{
  concat, transport_ready, control_message, Transport, new_transport, parse_loop, parse_buffer,
  drain_and_parse,
}
use libpanaudia_core.Transport.Reassembly.{reassemble, reassemble_remainder}
use libpanaudia_core.Transport.Stream.{framed, delivered, reassemble-framed}
use libpanaudia_core.Transport.Chunks.{process_each, receive_all, drain_in_chunks}

abbrev front : List ℕ
front = 0x06 ∷ 0 ∷ 2 ∷ 10 ∷ []

abbrev back : List ℕ
back = 11 ∷ 0x06 ∷ []

abbrev joined : Transport
joined = record new_transport { current_state = transport_ready }

reassemble_whole :
    reassemble (front ++ back) ≡ (control_message announce (10 ∷ 11 ∷ []) ∷ [], 0x06 ∷ [])
unfolding parse_loop parse_control_message parse_content content_length decode_varint
reassemble_whole = refl

reassemble_remainder_example : parse_control_message (parse_buffer (front ++ back)).1 ≡ none
reassemble_remainder_example = reassemble_remainder (front ++ back) (omega arith)

drain_in_chunks_example :
    process_each true true (front ∷ back ∷ []) joined
    ≡ drain_and_parse true true (receive_all (front ∷ back ∷ []) joined)
unfolding concat
drain_in_chunks_example =
    drain_in_chunks true true (front ∷ back ∷ []) joined refl refl refl (omega arith)

-- An ANNOUNCE and a message of unknown type, with a byte of a third behind them.
abbrev two_messages : List (MessageType × List ℕ)
two_messages = (announce, 10 ∷ 11 ∷ []) ∷ (70, 12 ∷ []) ∷ []

reassemble-framed_example :
    let behind = parse_buffer (0x06 ∷ []) in
    parse_buffer (framed two_messages ++ (0x06 ∷ []))
    ≡ (delivered two_messages ++ behind.0, behind.1)
unfolding framed build_control_message encode_varint
reassemble-framed_example =
    reassemble-framed two_messages (0x06 ∷ [])
      ((omega arith, omega arith, omega arith), ((omega arith, omega arith, omega arith), tt))
      (omega arith)
