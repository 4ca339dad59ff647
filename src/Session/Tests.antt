-- ===== src/Session/Tests.antt =====
-- Runs of the session: its connection on the default configuration, and its media on small tracks.
-- Samples are numbers below 256, one to the byte, and the codec passes them on as they are.
use libpanaudia_core.Prelude.{
  List, [], arith, bytes_eq, false, inr, length, length-take, min, none, refl, some, true, u64, ℕ,
  ◌*◌, ◌++◌, ◌+◌, ◌^◌, ◌∷◌, ◌≡◌,
}
use libpanaudia_core.Transport.{transport_failed, new_transport, transport_ready, Transport}
use libpanaudia_core.Session.Track.{
  audio_track, outbound, pcm_codec, TrackConfig, TrackHandle, is_opus, is_outbound, is_audio,
  inbound,
}
use libpanaudia_core.Session.State.{disconnected, reconnecting, Session, MoqState, failed}
use libpanaudia_core.Session.Url.{parsed, parse_url, parse_authority}
use libpanaudia_core.Session.Link.{calculate_reconnect_delay_ms, handle_transport_state_change}
use libpanaudia_core.Session.Control.{
  set_alias, start_orchestration, lookup, set_track, set_request_id, take_request_id,
  announce_track, subscribe_tracks, announce_tracks, subscribe_track,
}
use libpanaudia_core.Session.Lifecycle.{
  is_active, try_transport, attempt_reconnect, connect_session, count_attempt,
}
use libpanaudia_core.Session.Configure.{configure, bare_track, outbound_track}
use libpanaudia_core.Session.Media.{endless, send_frames, poll_outbound_tracks, write_audio, nth}
use libpanaudia_core.Session.Steps.{
  attempt, host_connect, host_configure, transport_event, after, initial, new_session, configured,
  Reachable,
}
use libpanaudia_core.Session.Delay.{calculate_reconnect_delay_ms-min}
use libpanaudia_core.Session.Reconnect.{IsBounded, Reachable-IsBounded}
use libpanaudia_core.Session.Told.{IsTold, Reachable-IsTold}
use libpanaudia_core.Session.Url.Forms.{lacks, parse_url-authority}
use libpanaudia_core.Session.Control.Orchestration.{start_orchestration-routes}
use libpanaudia_core.Session.Control.Sequence.{
  inbound_tracks, outbound_tracks, subscribes, announces, token, start_orchestration-requests,
}
use libpanaudia_core.Transport.Network.{can_send}
use libpanaudia_core.Session.Sending.{KeepsSizes, IsSending}
use libpanaudia_core.Session.Sending.Polling.{
  IsReady, IsDrained, Every, poll_outbound_tracks-drains,
}
use libpanaudia_core.Session.Sending.Configured.{
  IsUsable, outbound_track-IsSending, send_frames-endless, set_alias-IsSending,
  write_audio-IsSending,
}
use libpanaudia_core.Audio.Ring.{write as ring_write, RingBuffer, new_ring}
use libpanaudia_core.Session.Examples.{platform, url, defaults}
use libpanaudia_core.Session.Failures.{failed_open, connect_stuck, give_up-terminates}

abbrev fresh : Session ℕ ℕ
fresh = configured platform defaults

-- The session after its third and after its last attempt.
abbrev third : Session ℕ ℕ
third = record fresh { reconnecting_ = true; state = reconnecting; reconnect_attempt = 3 }

abbrev last : Session ℕ ℕ
last = record fresh { reconnecting_ = true; state = reconnecting; reconnect_attempt = 10 }

parse_url_test : parse_url url ≡ parsed (b'h' ∷ []) 7
unfolding parse_url bytes_eq
parse_url_test = refl

delay_example : calculate_reconnect_delay_ms third ≡ min (100 * 2 ^ 3) 10000
unfolding configured configure new_session
delay_example = calculate_reconnect_delay_ms-min third (omega arith) (omega arith)

-- The host configures the session again and connects, the transport is lost, and the thread makes
-- one attempt.
abbrev lost : Session ℕ ℕ
lost = attempt_reconnect 7 true true (
    handle_transport_state_change 5 transport_failed "Peer shutdown"
      (connect_session 0 true true (configure platform defaults fresh)))

lost-Reachable : Reachable platform defaults lost
unfolding configured configure new_session
lost-Reachable =
    after
      (after (after (after initial (host_configure defaults refl refl)) (host_connect 0 true true))
        (transport_event 5 transport_failed "Peer shutdown"))
      (attempt 7 true true)

IsBounded_example : IsBounded lost
IsBounded_example = Reachable-IsBounded lost-Reachable

IsTold_example : IsTold lost
IsTold_example = Reachable-IsTold lost-Reachable

failed_open_example : (try_transport 0 false true last).state ≡ disconnected
unfolding configured configure new_session
failed_open_example = failed_open 0 true last refl refl (omega arith)

connect_stuck_example :
    let t = connect_session 0 false true fresh in
    (t.state ≡ reconnecting)
    × (t.reconnecting_ ≡ true)
    × (t.session_running ≡ false)
    × (t.transport ≡ none)
    × (connect_session 9 true true t ≡ t)
unfolding is_active configured configure new_session
connect_stuck_example =
    connect_stuck 0 true fresh (b'h' ∷ []) 7 refl parse_url_test (omega arith) refl 9 true true

-- The session whose thread has made its last attempt.
abbrev exhausted : Session ℕ ℕ
exhausted = record last { session_running = true; transport = some new_transport }

give_up_example :
    let t = attempt_reconnect 5 true true exhausted in
    (t.state ≡ failed)
    × (t.session_running ≡ true)
    × ((connect_session 9 true true t).terminated ≡ true)
unfolding configured configure new_session count_attempt
give_up_example = give_up-terminates 5 true true exhausted (b'h' ∷ []) 7 refl refl parse_url_test 9

-- Two frames of stereo to the object, and three of them in the ring.
abbrev stereo : TrackConfig
stereo = record {
  name = [];
  moq_namespace = (1 ∷ []) ∷ [];
  moq_track_name = 2 ∷ [];
  direction = outbound;
  type = audio_track;
  channels = 2;
  sample_rate = 1000;
  codec = pcm_codec;
  opus_bitrate = 64000;
  opus_frame_size_ms = 20;
  pcm_frame_size_ms = 2;
}

stereo-IsUsable : IsUsable stereo
unfolding is_opus
stereo-IsUsable = record {
  some_channels = omega arith;
  some_frames = omega arith;
  some_capacity = omega arith;
  ring_size = omega arith;
  frame_size = omega arith;
  known_size = λ e. ground arith;
}

stereo-IsSending : IsSending false 2 (new_ring 0 200 2) (outbound_track platform stereo)
unfolding is_opus
stereo-IsSending = outbound_track-IsSending platform stereo stereo-IsUsable

abbrev samples : List ℕ
samples = 1 ∷ 2 ∷ 3 ∷ 4 ∷ 5 ∷ 6 ∷ []

abbrev filled : RingBuffer ℕ
filled = (ring_write (new_ring 0 200 2) samples 3).1

-- It has got an alias from a SUBSCRIBE, and samples from the host.
abbrev named : TrackHandle ℕ ℕ
named = set_alias 1 (outbound_track platform stereo)

named-IsSending : IsSending false 2 (new_ring 0 200 2) named
named-IsSending =
    set_alias-IsSending platform 1 false 2 (new_ring 0 200 2) (outbound_track platform stereo)
      (omega arith) stereo-IsSending

abbrev track : TrackHandle ℕ ℕ
track = write_audio samples 3 named

track-IsSending : IsSending false 2 filled track
unfolding set_alias outbound_track bare_track is_audio is_outbound new_ring
track-IsSending =
    write_audio-IsSending platform samples 3 false 2 (new_ring 0 200 2) named refl refl
      (omega arith) named-IsSending

track-IsReady : IsReady track
unfolding IsReady
track-IsReady = inr (false, 2, filled, track-IsSending)

platform-KeepsSizes : KeepsSizes platform
platform-KeepsSizes = record {
  float_size = λ a. refl;
  encode_fits = λ h pcm frames room. omega (arith, length-take room pcm);
  encode_multistream_fits = λ h pcm frames room. omega (arith, length-take room pcm);
}

abbrev sending : MoqState ℕ ℕ
sending = record (fresh.moq) { tracks = track ∷ [] }

poll_example :
    let after = (poll_outbound_tracks platform (sending, new_transport)).0 in
    (after.faults ≡ sending.faults) × Every IsDrained after.tracks
unfolding Every
poll_example =
    poll_outbound_tracks-drains platform platform-KeepsSizes sending new_transport
      (track-IsReady, tt)

endless_example : send_frames platform 9 false 0 (track, new_transport) ≡ endless
unfolding outbound_track bare_track set_alias write_audio is_audio is_outbound
endless_example =
    send_frames-endless platform 9 filled track new_transport track-IsSending.ring (omega arith)
      (omega arith) (omega arith) (omega arith)

outbound_track_example : IsSending false 2 (new_ring 0 200 2) (outbound_track platform stereo)
unfolding is_opus
outbound_track_example = outbound_track-IsSending platform stereo stereo-IsUsable

parse_url_example :
    parse_url ((b'm' ∷ []) ++ (b':' ∷ b'/' ∷ b'/' ∷ ((b'h' ∷ []) ++ (b'/' ∷ b'x' ∷ []))))
    ≡ parse_authority (b'h' ∷ [])
unfolding lacks
parse_url_example =
    parse_url-authority (b'm' ∷ []) (b'h' ∷ []) (b'x' ∷ []) (ground arith) (ground arith)

abbrev ready : Transport
ready = record new_transport { control_stream = true; current_state = transport_ready }

no_params : ℕ → List (ℕ × List ℕ)
no_params i = []

-- An inbound and an outbound track: the second request has the id 2.
abbrev both : MoqState ℕ ℕ
both = record (fresh.moq) {
  tracks =
      bare_track platform (record stereo { direction = inbound }) ∷ bare_track platform stereo ∷ [];
}

orchestration_example :
    let ins = inbound_tracks 0 both.tracks in
    let s = start_orchestration no_params (7 ∷ []) (both, ready) in
    (s.1.sent_control
      ≡ []
        ++ (subscribes no_params (token (7 ∷ []) both) both.next_request_id ins
            ++ announces
                (u64 (both.next_request_id + 2 * length ins))
                (outbound_tracks both.tracks)))
    × (s.0.next_request_id ≡ u64 (both.next_request_id + 2 * length both.tracks))
unfolding configured configure new_session can_send
orchestration_example =
    start_orchestration-requests no_params (7 ∷ []) both ready refl refl (omega arith)

routes_example :
    lookup
      (set_request_id 2 (bare_track platform stereo)).moq_request_id
      (start_orchestration no_params [] (both, ready)).0.request_id_map
    ≡ some 1
unfolding start_orchestration subscribe_tracks subscribe_track announce_tracks announce_track
    take_request_id set_track set_request_id configured configure new_session bare_track nth
    is_outbound
routes_example =
    start_orchestration-routes no_params [] both ready 1
      (set_request_id 2 (bare_track platform stereo)) refl refl (omega arith) (omega arith) refl
