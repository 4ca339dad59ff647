-- ===== src/Transport/Handles/Tests.antt =====
-- A run in which the server is reached and closed, and one whose credential is refused.
use libpanaudia_core.Transport.Network.{send_control, send_datagram}
use libpanaudia_core.Prelude.{[], false, not, refl, some, true, ◌&&◌, ◌∷◌, ◌≡◌}
use libpanaudia_core.Transport.Handles.{
  ms_quic_open2, registration_open, configuration_open, configuration_load_credential,
  connection_open, connection_start, stream_open, stream_start, stream_close, connection_shutdown,
  connection_close, configuration_close, registration_close, ms_quic_close, Answers, Quic, new_quic,
  perform, update, open_library, open_registration, open_configuration, load_credential, init_quic,
  open_connection, start_connection, start, begin_connect, connect, disconnect, drain,
}
use libpanaudia_core.Transport.Handles.Contract.{no_handles, held, replay}
use libpanaudia_core.Transport.Handles.Reach.{
  host_connects, host_disconnects, handshake, processing, Reachable, initial, later,
  Reachable-released,
}
use libpanaudia_core.Transport.Handles.Refine.{inits, starts, connect_refines}
use libpanaudia_core.Transport.Network.{handshake_complete, on_connection_event}
use libpanaudia_core.Transport
use libpanaudia_core.Transport.{Transport, drain_and_parse, parse_loop}

abbrev willing : Answers
willing = record {
  library_opens = true;
  registration_opens = true;
  configuration_opens = true;
  credential_loads = true;
  connection_opens = true;
  connection_starts = true;
}

abbrev refused : Answers
refused = record willing { credential_loads = false }

abbrev dialled : Quic
dialled = (connect willing new_quic).1

abbrev greeted : Quic
greeted = record dialled {
  announced = true;
  transport = on_connection_event handshake_complete dialled.transport;
}

abbrev running : Quic
running = drain true true greeted

greeted-Reachable : Reachable greeted
unfolding connect init_quic open_library open_registration open_configuration load_credential
    perform start start_connection open_connection update begin_connect
greeted-Reachable = later (later initial (host_connects willing)) (handshake refl refl)

running-Reachable : Reachable running
running-Reachable = later greeted-Reachable (processing true true)

-- The control stream is the last to be opened and the first to be closed.
running_calls : (disconnect running).calls ≡ (
    ms_quic_open2 true
    ∷ registration_open true
    ∷ configuration_open true
    ∷ configuration_load_credential true
    ∷ connection_open true
    ∷ connection_start true
    ∷ stream_open true
    ∷ stream_start true
    ∷ stream_close
    ∷ connection_shutdown
    ∷ connection_close
    ∷ configuration_close
    ∷ registration_close
    ∷ ms_quic_close
    ∷ [])
unfolding disconnect drain drain_and_parse parse_loop on_connection_event connect
running_calls = refl

-- After the refused credential everything is closed at once.
refused_calls : (connect refused new_quic).1.calls ≡ (
    ms_quic_open2 true
    ∷ registration_open true
    ∷ configuration_open true
    ∷ configuration_load_credential false
    ∷ configuration_close
    ∷ registration_close
    ∷ ms_quic_close
    ∷ [])
unfolding connect
refused_calls = refl

released_example :
    (replay no_handles running.calls ≡ some (held running))
    × (((send_control (1 ∷ []) running.transport).0 && not (held running).stream) ≡ false)
    × (((send_datagram (1 ∷ []) running.transport).0 && not (held running).connection) ≡ false)
    × (replay no_handles (disconnect running).calls ≡ some no_handles)
    × (held (disconnect running) ≡ no_handles)
released_example = Reachable-released running-Reachable (1 ∷ [])

connect_refines_example :
    let r = connect refused (disconnect running) in
    ((r.0, r.1.transport)
      ≡ Transport.connect (inits refused) (starts refused) (disconnect running).transport)
    × ((disconnect (disconnect running)).transport
        ≡ Transport.disconnect (disconnect running).transport)
connect_refines_example = connect_refines refused (later running-Reachable host_disconnects)
