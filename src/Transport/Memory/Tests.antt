-- ===== src/Transport/Memory/Tests.antt =====
-- A message and a datagram that are sent, and a message that msquic refuses; the first two end.
use libpanaudia_core.Prelude.{[], false, length, refl, true, ◌*◌, ◌+◌, ◌≡◌}
use libpanaudia_core.Transport.Memory.{
  SendContext, send_final, Sends, no_sends, free_context, send_on_control_stream,
  send_datagram_impl, datagram_state_changed, forget_context, forget_datagram,
}
use libpanaudia_core.Transport.Memory.Reach.{
  message_sent, datagram_sent, send_completed, datagram_ended, Reachable, initial, later,
  Reachable-freed,
}

abbrev queued : Sends
queued = (send_on_control_stream true true true true true no_sends).1

abbrev refused : Sends
refused = (send_on_control_stream true true true true false queued).1

abbrev both : Sends
both = (send_datagram_impl true true true refused).1

abbrev message : SendContext
message = record { data_buf = 0; quic_buf = 1; ctx = 2 }

abbrev ended : Sends
ended = forget_datagram [] (datagram_state_changed send_final 6 both)

abbrev quiet : Sends
quiet = forget_context [] (free_context message ended)

quiet_test : quiet.live ≡ []
unfolding send_on_control_stream send_datagram_impl free_context datagram_state_changed
    forget_context forget_datagram
quiet_test = refl

ended-Reachable : Reachable ended
unfolding send_on_control_stream send_datagram_impl free_context
ended-Reachable =
    later
      (later
        (later (later initial (message_sent true true true true true))
          (message_sent true true true true false))
        (datagram_sent true true true))
      (datagram_ended 6 [] [] refl)

quiet-Reachable : Reachable quiet
unfolding send_on_control_stream send_datagram_impl free_context datagram_state_changed
    forget_datagram
quiet-Reachable = later ended-Reachable (send_completed message [] [] refl)

freed_example :
    (quiet.corrupted ≡ false)
    × (length quiet.live ≡ 3 * length quiet.in_flight + length quiet.datagrams)
freed_example = Reachable-freed quiet-Reachable
