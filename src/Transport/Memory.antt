-- ===== src/Transport/Memory.antt =====
-- The memory of what is being sent: the blocks that send_on_control_stream and send_datagram_impl
-- of src/moq_transport.cpp allocate, and that they or the callbacks of msquic free. A block is its
-- number; whether malloc and msquic succeed are arguments.
mod Tests
pub mod Blocks
pub mod Owned
pub mod Reach
use libpanaudia_core.Prelude.{
  Bool, List, Option, [], false, if◌then◌else◌, none, not, some, true, ℕ, ◌++◌, ◌+◌, ◌==◌, ◌||◌,
  ◌∷◌,
}

-- The bytes, the QUIC_BUFFER and the context itself.
pub record SendContext : Type 0 where
  pub data_buf : ℕ
  pub quic_buf : ℕ
  pub ctx : ℕ

-- The three states that do not end a datagram, and those that do.
pub data DatagramSendState : Type 0 where
  send_unknown send_sent send_lost_suspect send_final : DatagramSendState

-- What is allocated, and what msquic has accepted and not yet told the end of. `corrupted` says
-- that something was freed that was not allocated.
pub record Sends : Type 0 where
  pub fresh : ℕ
  pub live : List ℕ
  pub corrupted : Bool
  pub in_flight : List SendContext
  pub datagrams : List ℕ

abbrev pub no_sends : Sends
no_sends = record { fresh = 0; live = []; corrupted = false; in_flight = []; datagrams = [] }

unfoldable pub malloc : Bool → Sends → Option ℕ × Sends
malloc false s = (none, s)
malloc true s = (some s.fresh, record s { fresh = s.fresh + 1; live = s.fresh ∷ s.live })

unfoldable pub is_live : ℕ → List ℕ → Bool
is_live b [] = false
is_live b (c ∷ cs) = (b == c) || is_live b cs

unfoldable pub remove : ℕ → List ℕ → List ℕ
remove b [] = []
remove b (c ∷ cs) = let rest = remove b cs in if b == c then cs else c ∷ rest

unfoldable pub free : ℕ → Sends → Sends
unfolding is_live remove
free b s =
    if is_live b s.live then record s { live = remove b s.live } else record s { corrupted = true }

-- SEND_COMPLETE, and the end of a send that msquic refuses.
unfoldable pub free_context : SendContext → Sends → Sends
unfolding free
free_context c s = free c.ctx (free c.quic_buf (free c.data_buf s))

-- From the third malloc on.
unfoldable pub with_context : Bool → ℕ → ℕ → Option ℕ × Sends → Bool × Sends
unfolding free free_context
with_context accepted bytes buf (none, s) = (false, free buf (free bytes s))
with_context accepted bytes buf (some ctx, s) =
    let c : SendContext = record { data_buf = bytes; quic_buf = buf; ctx = ctx } in
    if accepted
    then (true, record s { in_flight = s.in_flight ++ (c ∷ []) })
    else (false, free_context c s)

-- From the second.
unfoldable pub with_buffer : Bool → Bool → ℕ → Option ℕ × Sends → Bool × Sends
unfolding free malloc with_context
with_buffer third accepted bytes (none, s) = (false, free bytes s)
with_buffer third accepted bytes (some buf, s) = with_context accepted bytes buf (malloc third s)

unfoldable pub with_data : Bool → Bool → Bool → Option ℕ × Sends → Bool × Sends
unfolding malloc with_buffer
with_data second third accepted (none, s) = (false, s)
with_data second third accepted (some bytes, s) = with_buffer third accepted bytes (malloc second s)

-- `open_stream` says that there is a control stream; the three mallocs; msquic's answer.
unfoldable pub send_on_control_stream : Bool → Bool → Bool → Bool → Bool → Sends → Bool × Sends
unfolding malloc with_data
send_on_control_stream open_stream first second third accepted s =
    let sent = with_data second third accepted (malloc first s) in
    if not open_stream then (false, s) else sent

unfoldable pub with_block : Bool → Option ℕ × Sends → Bool × Sends
unfolding free
with_block accepted (none, s) = (false, s)
with_block accepted (some block, s) =
    if accepted
    then (true, record s { datagrams = s.datagrams ++ (block ∷ []) })
    else (false, free block s)

-- `open_connection` says that there is a connection and that the datagram is not empty.
unfoldable pub send_datagram_impl : Bool → Bool → Bool → Sends → Bool × Sends
unfolding malloc with_block
send_datagram_impl open_connection first accepted s =
    let sent = with_block accepted (malloc first s) in
    if not open_connection then (false, s) else sent

unfoldable pub is_final : DatagramSendState → Bool
is_final send_unknown = false
is_final send_sent = false
is_final send_lost_suspect = false
is_final send_final = true

-- DATAGRAM_SEND_STATE_CHANGED, on the block that msquic hands back.
unfoldable pub datagram_state_changed : DatagramSendState → ℕ → Sends → Sends
unfolding is_final free
datagram_state_changed state block s = if is_final state then free block s else s

-- What msquic does with a context, or a block, once it has told its end.
unfoldable pub forget_context : List SendContext → Sends → Sends
forget_context cs s = record s { in_flight = cs }

unfoldable pub forget_datagram : List ℕ → Sends → Sends
forget_datagram bs s = record s { datagrams = bs }
