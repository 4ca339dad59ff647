-- ===== src/Session/Sending.antt =====
-- The sending loops: each round takes a frame out of the ring and sends it, so that they end, and
-- they stay inside the buffers that configure makes.
pub mod Rounds
pub mod Polling
pub mod Configured
use libpanaudia_core.Prelude.{
  Bool, IsU64, List, Option, [], arith, false, if◌then◌else◌, length, length-append, none, some,
  u32, ℕ, ◌*◌, ◌++◌, ◌+◌, ◌/◌, ◌<◌, ◌∷◌, ◌≡◌, ◌≤◌,
}
use libpanaudia_core.Moq.Varint.{encode_varint}
use libpanaudia_core.Moq.Varint.RoundTrip.{length-encode_varint, varint_size_bounds}
use libpanaudia_core.Moq.Datagram.{datagram_type_plain, build_object_datagram_header}
use libpanaudia_core.Audio.Ring.{RingBuffer, read_available}
use libpanaudia_core.Audio.Ring.{RingBuffer, read_available}
use libpanaudia_core.Audio.Ring.Valid.{IsValid}
use libpanaudia_core.Audio.Codec.{OpusEncoderWrapper}
use libpanaudia_core.Session.Track.{Platform, TrackHandle, is_opus}
use libpanaudia_core.Session.Media.{Run, done, overrun, endless, next}

-- The run has ended, with a result that has the property.
pub Ends : {T : Type 0} → (T → Type 0) → Run T → Type 0
Ends P (done t) = P t
Ends P overrun = ⊥
Ends P endless = ⊥

pub map-Ends :
    {T : Type 0} (P Q : T → Type 0) (r : Run T) → Ends P r → ((t : T) → P t → Q t) → Ends Q r
unfolding Ends
map-Ends P Q (done t) h k = k t h
map-Ends P Q overrun h k = h
map-Ends P Q endless h k = h

pub next-Ends :
    {T U : Type 0} (P : T → Type 0) (Q : U → Type 0) (r : Run T) (f : T → Run U)
    → Ends P r
    → ((t : T) → P t → Ends Q (f t))
    → Ends Q (next r f)
unfolding Ends next
next-Ends P Q (done t) f h k = k t h
next-Ends P Q overrun f h k = h
next-Ends P Q endless f h k = h

abbrev pub size_of : Option (List ℕ) → ℕ
size_of none = 0
size_of (some bytes) = length bytes

-- A float has four bytes, and opus_encode_float writes no more than max_data_bytes.
pub record KeepsSizes {A H : Type 0} (p : Platform A H) : Type 0 where
  pub float_size : (a : A) → length (p.mem.bytes a) ≡ 4
  pub encode_fits :
      (h : H) (pcm : List A) (frames room : ℕ) → size_of (p.opus.encode h pcm frames room).0 ≤ room
  pub encode_multistream_fits :
      (h : H) (pcm : List A) (frames room : ℕ)
      → size_of (p.opus.encode_multistream h pcm frames room).0 ≤ room

-- The frames of one object: those of the encoder, or of the configuration.
pub encoder_frames : {H : Type 0} → Option (OpusEncoderWrapper H) → Option ℕ
encoder_frames none = none
encoder_frames (some e) = some e.frame_size_samples

unfoldable pub object_frames : {A H : Type 0} → TrackHandle A H → Option ℕ
unfolding encoder_frames
object_frames t =
    if is_opus t.config.codec
    then encoder_frames t.encoder
    else some (u32 (t.config.pcm_frame_size_ms * t.config.sample_rate) / 1000)

-- The buffers of a track have room for a frame, in floats, in bytes and behind a header.
pub record HasRoom (opus : Bool) (floats read_buffer output_buffer datagram_buffer : ℕ)
    : Type 0 where
  pub read_room : floats ≤ read_buffer
  pub pcm_room : opus ≡ false → floats * 4 ≤ output_buffer
  pub datagram_room : 34 + output_buffer ≤ datagram_buffer

-- The ids in the header have 64 bits.
pub record HasIds (track_alias group_id object_id : ℕ) : Type 0 where
  pub alias_size : IsU64 track_alias
  pub group_size : IsU64 group_id
  pub object_size : IsU64 object_id

-- A track in the middle of its loop, with its ring: the buffers have room for a frame.
pub record IsSending {A H : Type 0} (opus : Bool) (n : ℕ) (r : RingBuffer A) (t : TrackHandle A H)
    : Type 0 where
  pub codec : is_opus t.config.codec ≡ opus
  pub frames : object_frames t ≡ some n
  pub ring : t.ring_buffer ≡ some r
  pub valid : IsValid r
  pub some_channels : 0 < r.channels
  pub same_channels : r.channels ≡ t.config.channels
  pub some_frames : 0 < n
  pub room :
      HasRoom opus (n * r.channels) t.pcm_read_buffer t.encode_output_buffer t.datagram_buffer
  pub ids : HasIds t.moq_track_alias t.next_group_id t.next_object_id

-- The header needs no more than 26 of its 34 bytes.
pub header_size :
    (track_alias group_id object_id priority : ℕ)
    → IsU64 track_alias
    → IsU64 group_id
    → IsU64 object_id
    → length (build_object_datagram_header track_alias group_id object_id priority) ≤ 34
unfolding build_object_datagram_header
header_size a g o pr ha hg ho = omega (
  arith,
  length-append (encode_varint datagram_type_plain)
      (encode_varint a ++ (encode_varint g ++ (encode_varint o ++ (pr ∷ [])))),
  length-append (encode_varint a) (encode_varint g ++ (encode_varint o ++ (pr ∷ []))),
  length-append (encode_varint g) (encode_varint o ++ (pr ∷ [])),
  length-append (encode_varint o) (pr ∷ []),
  length-encode_varint 0 (omega arith),
  length-encode_varint a ha,
  length-encode_varint g hg,
  length-encode_varint o ho,
  varint_size_bounds 0,
  varint_size_bounds a,
  varint_size_bounds g,
  varint_size_bounds o,
)

-- The loop ends with less than a frame in the ring.
pub IsSent : {A H : Type 0} → Bool → ℕ → TrackHandle A H → Type 0
IsSent {A} opus n t = (r : RingBuffer A) × IsSending opus n r t × (read_available r < n)
