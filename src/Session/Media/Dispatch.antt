-- ===== src/Session/Media/Dispatch.antt =====
-- The dispatch of datagrams to the tracks: on_datagram of the transport's callbacks,
-- dispatch_audio_datagram and dispatch_data_datagram.
use libpanaudia_core.Prelude.{
  Bool, List, Option, [], if◌then◌else◌, length, ltb, none, some, ℕ, ◌++◌, ◌/◌, ◌∷◌,
}
use libpanaudia_core.Moq.Datagram.{ObjectDatagram}
use libpanaudia_core.Audio.Jitter.{write as jitter_write, JitterBuffer}
use libpanaudia_core.Audio.Codec.{OpusDecoderWrapper, pcm_unframe, decode_frame}
use libpanaudia_core.Session.Track.{Platform, TrackHandle, is_audio, is_opus}
use libpanaudia_core.Session.State.{outside_buffer, MoqState}
use libpanaudia_core.Session.Control.{lookup, set_track, add_fault}
use libpanaudia_core.Session.Media.{Run, done, overrun, endless, nth}

module _ {A H : Type 0} (p : Platform A H) where
  -- What a decoder or the framing made of a payload goes to the jitter buffer.
  unfoldable pub play_floats : JitterBuffer A → List A → TrackHandle A H → TrackHandle A H
  play_floats j [] t = t
  play_floats j (a ∷ as_) t = record t {
    jitter_buffer = some (jitter_write j (a ∷ as_) (length (a ∷ as_)));
  }

  unfoldable pub decoded_floats : Option (List A) → List A
  decoded_floats none = []
  decoded_floats (some floats) = floats

  unfoldable pub dispatch_opus :
      JitterBuffer A → List ℕ → TrackHandle A H → Option (OpusDecoderWrapper H) → TrackHandle A H
  unfolding play_floats decoded_floats
  dispatch_opus j payload t none = t
  dispatch_opus j payload t (some d) =
      let r = decode_frame p.opus d (some payload) (t.decode_buffer / t.config.channels) in
      play_floats j (decoded_floats r.0) (record t { decoder = some r.1 })

  -- The bytes are copied before anything looks at the room for them.
  unfoldable pub dispatch_pcm : JitterBuffer A → List ℕ → TrackHandle A H → Run (TrackHandle A H)
  unfolding play_floats
  dispatch_pcm j payload t =
      let floats = (pcm_unframe p.mem payload t.config.channels).1 in
      if ltb t.decode_buffer (length floats) then overrun else done (play_floats j floats t)

  unfoldable pub dispatch_to :
      List ℕ → TrackHandle A H → Option (JitterBuffer A) → Run (TrackHandle A H)
  unfolding dispatch_opus dispatch_pcm is_opus
  dispatch_to payload t none = done t
  dispatch_to payload t (some j) =
      if is_opus t.config.codec
      then done (dispatch_opus j payload t t.decoder)
      else dispatch_pcm j payload t

  unfoldable pub dispatch_audio_datagram : List ℕ → TrackHandle A H → Run (TrackHandle A H)
  unfolding dispatch_to
  dispatch_audio_datagram [] t = done t
  dispatch_audio_datagram (b ∷ bs) t = dispatch_to (b ∷ bs) t t.jitter_buffer

  unfoldable pub dispatched : ℕ → Run (TrackHandle A H) → MoqState A H → MoqState A H
  unfolding add_fault set_track
  dispatched i (done t) m = record m { tracks = set_track i (λ _. t) m.tracks }
  dispatched i overrun m = add_fault outside_buffer m
  dispatched i endless m = m

  unfoldable pub dispatch_data_datagram : Bool → ℕ → List ℕ → MoqState A H → MoqState A H
  dispatch_data_datagram has_callback i [] m = m
  dispatch_data_datagram has_callback i (b ∷ bs) m =
      if has_callback then record m { received = m.received ++ ((i, b ∷ bs) ∷ []) } else m

  unfoldable pub dispatch :
      Bool → ℕ → List ℕ → Option (TrackHandle A H) → MoqState A H → MoqState A H
  unfolding dispatched dispatch_audio_datagram dispatch_data_datagram is_audio
  dispatch has_callback i payload none m = m
  dispatch has_callback i payload (some t) m =
      if is_audio t.config.type
      then dispatched i (dispatch_audio_datagram payload t) m
      else dispatch_data_datagram has_callback i payload m

  -- on_datagram of the transport's callbacks; an alias that is not known is dropped.
  unfoldable pub route : Bool → List ℕ → Option ℕ → MoqState A H → MoqState A H
  unfolding dispatch nth
  route has_callback payload none m = m
  route has_callback payload (some i) m = dispatch has_callback i payload (nth i m.tracks) m

  unfoldable pub on_datagram : Bool → ObjectDatagram → MoqState A H → MoqState A H
  unfolding route lookup
  on_datagram has_callback d m =
      route has_callback d.payload (lookup d.track_alias m.inbound_alias_map) m
