-- ===== src/Lib.antt =====
-- libpanaudia-core: its protocol codecs, its state cache, its audio buffers and its session.
--
-- The library streams audio and state over MOQ on QUIC. The host talks to a core
-- (src/panaudia_core.cpp), which forwards to a session (src/session_manager.cpp), which owns a
-- transport (src/moq_transport.cpp). The transport puts the bytes of the control stream together
-- and cuts them into messages with the codec (src/moq_protocol.cpp). Audio that the host writes
-- waits in a ring (src/ring_buffer.cpp) until the session thread sends it; audio that arrives waits
-- in a jitter buffer (src/jitter_buffer.cpp) until the host's audio thread reads it. State tracks
-- carry envelopes (src/cache_wire.cpp) that a host merges into a map (src/cache_map.cpp) by way of
-- a topic merger (src/topic_merger.cpp).
--
-- Which file models which part:
--   Moq: src/moq_protocol.cpp. Varint (encode_varint, decode_varint), Reader (read_varint,
--     read_string and the bytes they move over), Namespace, Params, Framing
--     (build_control_message, parse_control_message), Messages (one file per message, both
--     directions that the source has), Datagram (the object datagrams).
--   Cache: Wire is src/cache_wire.cpp, Map is src/cache_map.cpp, Topic is src/topic_merger.cpp.
--   Audio: Ring is src/ring_buffer.cpp, Jitter is src/jitter_buffer.cpp; Circular has the copies
--     that both make; Codec is src/opus_codec.cpp, the Opus wrappers and the framing of PCM.
--   Transport: the state, the events and the reassembly of src/moq_transport.cpp; its child Network
--     has the events of the connection and the sending, and its child Handles the handles of
--     msquic, which init_quic, start_connection and start_moq_session open and cleanup_quic closes,
--     and its child Memory the blocks that a send allocates and the callbacks free.
--   Session: src/session_manager.cpp. Track and State are its data, Url is parse_url, Link the
--     states that the transport reports and the delays, Control the orchestration and the control
--     messages, Lifecycle connect, disconnect and the attempts to reconnect, Configure the tracks
--     and their buffers, Media the audio and data both ways, Thread a round of the session thread,
--     Steps what may happen to a session, in any order, Status get_connection_state,
--     get_buffer_status and get_stats. The other children hold proofs, and Examples test data.
--   Core: src/panaudia_core.cpp, the calls of the host, with a track's handle as its index.
--   Prelude: tests, lists, bits and the fixed widths that the parts share.
--
-- Functions keep the names they have in the source. A byte is a number below 256, a string or a
-- buffer a list of bytes; integers of 8 to 64 bits are numbers with their wrap written out, and an
-- int32_t is its bit pattern, with slt, smin and sdiv of Prelude/Words as the signed operations. A
-- parser works on what is left of the buffer and the offset that the source keeps; `fault` is a
-- read outside the buffer, which in C++ is undefined, or an exception out of the parser. A buffer
-- that the caller passes in is a function of the place, where the code may leave it unwritten. A
-- lock is held for a whole call, so a call is a step on the state. A sample is a value of any type,
-- and a callback is a log of its calls. The Opus library and the bytes of a float are a record that
-- the media take (Platform). What goes wrong beyond an error code is kept in the state (Fault,
-- `terminated`) or is a result (Run).
--
-- Bounds. The parse loop of the transport has one round for each byte of its buffer at most, and a
-- message takes at least 3 bytes, so it never runs out; the size of the buffer is cast to 32 bits,
-- as in the source. The loops over parameters, extensions and namespaces run as often as their
-- counts say. The sending loops of the session have a round for each frame in the ring; with a
-- frame of at least one sample that is enough.
--
-- Not modelled: msquic and the Opus library, of which the results of the calls are arguments (init,
-- start, opens, starts, Answers, Platform); the settings and addresses passed to msquic; the JSON
-- library, of which the calls are a record (Json); the arithmetic of floats, a record too
-- (FloatArith); logging; what two threads do to a buffer within one call, so that the rounds of the
-- session thread, msquic's datagrams and the host's calls take turns; a division by a track's zero
-- channels; an allocation that memory does not allow; a status callback that is not set; the
-- handles of streams that the server opens; a configure by the host in the middle of a connection,
-- which the steps of a session leave out (configure itself is a function of any session).
pub mod Prelude
pub mod Moq
pub mod Cache
pub mod Audio
pub mod Transport
pub mod Session
pub mod Core
