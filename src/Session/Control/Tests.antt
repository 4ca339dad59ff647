-- ===== src/Session/Control/Tests.antt =====
-- A session that subscribes to a track of another.
use libpanaudia_core.Prelude.{List, [], arith, bytes_eq, refl, some, ℕ, ◌∷◌, ◌≡◌}
use libpanaudia_core.Moq.Framing.{subscribe, subscribe_ok}
use libpanaudia_core.Moq.Params.{sort_params}
use libpanaudia_core.Moq.Varint.{encode_varint, varint_size}
use libpanaudia_core.Moq.Messages.Subscribe.{subscribe_content, build_subscribe}
use libpanaudia_core.Moq.Messages.Subscribe.Sent.{IsSendable}
use libpanaudia_core.Moq.Messages.SubscribeOk.{ok_content, build_subscribe_ok}
use libpanaudia_core.Transport.{new_transport}
use libpanaudia_core.Session.Track.{
  data_track, outbound, inbound, opus_codec, TrackConfig, TrackHandle, is_outbound, is_audio,
}
use libpanaudia_core.Session.State.{MoqState}
use libpanaudia_core.Session.Examples.{platform, defaults}
use libpanaudia_core.Session.Configure.{bare_track, new_track, configure}
use libpanaudia_core.Session.Steps.{new_session}
use libpanaudia_core.Session.Control.{
  lookup, namespace_eq, transmit, subscribe_config, subscribe_track,
}
use libpanaudia_core.Session.Control.Messages.{find_outbound, handle_control_message}
use libpanaudia_core.Session.Control.Agreement.{alias_at, accepted, subscription_agrees}

abbrev chat : TrackConfig
chat = record {
  name = b'c' ∷ [];
  moq_namespace = (b'r' ∷ []) ∷ [];
  moq_track_name = [];
  direction = inbound;
  type = data_track;
  channels = 1;
  sample_rate = 48000;
  codec = opus_codec;
  opus_bitrate = 64000;
  opus_frame_size_ms = 5;
  pcm_frame_size_ms = 5;
}

abbrev listener : MoqState ℕ ℕ
listener = (configure platform (record defaults { tracks = chat ∷ [] }) (new_session defaults)).moq

abbrev speaker : MoqState ℕ ℕ
speaker =
    (configure platform (record defaults { tracks = record chat { direction = outbound } ∷ [] })
      (new_session defaults)).moq

-- The host resumes from operation 7.
abbrev resume : ℕ → List (ℕ × List ℕ)
resume i = (5, 7 ∷ []) ∷ []

abbrev heard_track : TrackHandle ℕ ℕ
heard_track = bare_track platform chat

request-IsSendable : IsSendable (subscribe_config resume (1 ∷ []) 0 heard_track listener)
unfolding sort_params varint_size subscribe_config configure new_session bare_track
request-IsSendable = record {
  id_fits = omega arith;
  priority_fits = omega arith;
  order_fits = omega arith;
  forward_fits = omega arith;
  filter_fits = omega arith;
  extra_fit = ((omega arith, omega arith), tt);
  extra_foreign = ((refl, refl, refl, refl), tt);
  size_fits = unfold encode_varint in omega arith;
}

agreement_example :
    let request = subscribe_config resume (1 ∷ []) 0 heard_track listener in
    let alias = speaker.next_track_alias in
    let grant = accepted listener.next_request_id alias in
    let asked = subscribe_track resume (1 ∷ []) 0 heard_track (listener, new_transport) in
    let publisher =
      handle_control_message subscribe (subscribe_content request) (speaker, new_transport) in
    let subscriber = handle_control_message subscribe_ok (ok_content grant) asked in
    (asked.1 ≡ transmit (build_subscribe request) new_transport)
    × (publisher.1 ≡ transmit (build_subscribe_ok grant) new_transport)
    × (alias_at 0 publisher.0.tracks ≡ some alias)
    × (lookup alias publisher.0.outbound_alias_map ≡ some 0)
    × (alias_at 0 subscriber.0.tracks ≡ some alias)
    × (lookup alias subscriber.0.inbound_alias_map ≡ some 0)
unfolding configure new_session new_track bare_track find_outbound namespace_eq bytes_eq is_outbound
    is_audio
agreement_example =
    subscription_agrees resume (1 ∷ []) 0 0 heard_track listener speaker new_transport new_transport
      request-IsSendable refl (omega arith) (omega arith) (omega arith)
