-- ===== src/Transport/Handles/Contract.antt =====
-- What msquic asks of the order of the calls: a handle is opened under its parent, into a slot
-- that is free, used while it is open, and closed once, when nothing is open below it.
use libpanaudia_core.Prelude.{
  Bool, List, Option, [], arith, false, if◌then◌else◌, none, not, refl, some, true, ◌&&◌, ◌++◌, ◌∷◌,
  ◌≡◌,
}
use mathlib.Core.Option.{some-injective}
use libpanaudia_core.Transport.Handles.{
  Call, ms_quic_open2, registration_open, configuration_open, configuration_load_credential,
  connection_open, connection_start, stream_open, stream_start, stream_close, connection_shutdown,
  connection_close, configuration_close, registration_close, ms_quic_close, Quic,
}

pub record Handles : Type 0 where
  pub library : Bool
  pub registration : Bool
  pub configuration : Bool
  pub connection : Bool
  pub stream : Bool

abbrev pub no_handles : Handles
no_handles = record {
  library = false;
  registration = false;
  configuration = false;
  connection = false;
  stream = false;
}

unfoldable pub held : Quic → Handles
held q = record {
  library = q.msquic;
  registration = q.registration;
  configuration = q.configuration;
  connection = q.transport.connection;
  stream = q.transport.control_stream;
}

unfoldable pub permits : Handles → Call → Bool
permits h (ms_quic_open2 b) = not h.library
permits h (registration_open b) = h.library && not h.registration
permits h (configuration_open b) = h.registration && not h.configuration
permits h (configuration_load_credential b) = h.configuration
permits h (connection_open b) = h.registration && not h.connection
permits h (connection_start b) = h.connection && h.configuration
permits h (stream_open b) = h.connection && not h.stream
permits h (stream_start b) = h.stream
permits h stream_close = h.stream
permits h connection_shutdown = h.connection
permits h connection_close = h.connection && not h.stream
permits h configuration_close = h.configuration && not h.connection
permits h registration_close = h.registration && (not h.configuration && not h.connection)
permits h ms_quic_close = h.library && not h.registration

unfoldable pub after : Handles → Call → Handles
after h (ms_quic_open2 b) = record h { library = b }
after h (registration_open b) = record h { registration = b }
after h (configuration_open b) = record h { configuration = b }
after h (configuration_load_credential b) = h
after h (connection_open b) = record h { connection = b }
after h (connection_start b) = h
after h (stream_open b) = record h { stream = b }
after h (stream_start b) = h
after h stream_close = record h { stream = false }
after h connection_shutdown = h
after h connection_close = record h { connection = false }
after h configuration_close = record h { configuration = false }
after h registration_close = record h { registration = false }
after h ms_quic_close = record h { library = false }

-- The handles that a log of calls leaves open, where it keeps to the order.
unfoldable pub replay : Handles → List Call → Option Handles
unfolding permits after
replay h [] = some h
replay h (c ∷ cs) = let rest = replay (after h c) cs in if permits h c then rest else none

pub replay_snoc :
    (h k : Handles) (cs : List Call) (c : Call)
    → replay h cs ≡ some k
    → permits k c ≡ true
    → replay h (cs ++ (c ∷ [])) ≡ some (after k c)
unfolding replay
replay_snoc h k [] c r p = let same = some-injective _ _ r in rw (same, p) refl
replay_snoc h k (d ∷ cs) c r p = let ih = replay_snoc (after h d) k cs c in ground arith
