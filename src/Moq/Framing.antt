-- ===== src/Moq/Framing.antt =====
-- Control message framing: MessageType, build_control_message and parse_control_message of
-- src/moq_protocol.cpp. An enumeration over uint64_t holds any 64-bit number, as its casts do.
pub mod RoundTrip
pub mod Prefix
use libpanaudia_core.Prelude.{
  List, Option, [], bit_and, bit_or, drop, get_or, if◌then◌else◌, length, ltb, none, some, take,
  u16, u8, ℕ, ◌++◌, ◌+◌, ◌<<<◌, ◌==◌, ◌>>>◌, ◌∷◌,
}
use libpanaudia_core.Moq.Varint.{decode_varint}
use libpanaudia_core.Moq.Reader.{append_varint}

abbrev pub MessageType : Type 0
MessageType = ℕ

abbrev pub subscribe : MessageType
subscribe = 0x03

abbrev pub subscribe_ok : MessageType
subscribe_ok = 0x04

abbrev pub subscribe_error : MessageType
subscribe_error = 0x05

abbrev pub announce : MessageType
announce = 0x06

abbrev pub announce_ok : MessageType
announce_ok = 0x07

abbrev pub subscribe_announces : MessageType
subscribe_announces = 0x11

abbrev pub subscribe_announces_ok : MessageType
subscribe_announces_ok = 0x12

abbrev pub client_setup : MessageType
client_setup = 0x20

abbrev pub server_setup : MessageType
server_setup = 0x21

-- The length of the content is cast to uint16_t; the content itself is written whole.
unfoldable pub build_control_message : MessageType → List ℕ → List ℕ
build_control_message type content =
    let len = u16 (length content) in
    append_varint [] type ++ (u8 (len >>> 8) ∷ bit_and len 0xff ∷ content)

pub record ControlMessage : Type 0 where
  pub type : MessageType
  pub content : List ℕ
  pub consumed : ℕ

-- The two length bytes behind a type of `br` bytes.
unfoldable pub content_length : List ℕ → ℕ → ℕ
content_length buffer br = u16 (bit_or (get_or buffer br 0 <<< 8) (get_or buffer (br + 1) 0))

-- What follows the type.
unfoldable pub parse_content : List ℕ → ℕ → ℕ → Option ControlMessage
parse_content buffer raw_type br =
    let header_size = br + 2 in
    let clen = content_length buffer br in
    let total = header_size + clen in
    if ltb (length buffer) header_size
    then none
    else (if ltb (length buffer) total
        then none
        else some (record {
          type = raw_type;
          content = take clen (drop header_size buffer);
          consumed = total;
        }))

-- `none` is the result `false`: the message is not there in full.
unfoldable pub parse_control_message : List ℕ → Option ControlMessage
parse_control_message buffer =
    let type = decode_varint buffer in
    if ltb (length buffer) 3
    then none
    else (if type.1 == 0 then none else parse_content buffer type.0 type.1)
