-- ===== src/Session/Control.antt =====
-- The requests of a session, start_orchestration, on the MOQ state and the transport. What is
-- logged is left out. The host's subscribe parameters are an argument, by track.
pub mod Requests
pub mod Sequence
pub mod Routing
pub mod Orchestration
pub mod Messages
pub mod Agreement
mod Tests
use libpanaudia_core.Moq.Params.{KvpParam}
use libpanaudia_core.Prelude.{
  Bool, List, Option, [], bytes_eq, false, if◌then◌else◌, map, none, not, some, suc, true, u64,
  zero, ℕ, ◌&&◌, ◌++◌, ◌+◌, ◌==◌, ◌||◌, ◌∷◌,
}
use libpanaudia_core.Moq.Messages.Keys.{filter_latest_group}
use libpanaudia_core.Moq.Messages.Subscribe.{SubscribeConfig, bytes_param, build_subscribe}
use libpanaudia_core.Moq.Messages.Announce.{build_announce}
use libpanaudia_core.Transport.{Transport}
use libpanaudia_core.Transport.Network.{send_control}
use libpanaudia_core.Session.Track.{TrackHandle, is_outbound}
use libpanaudia_core.Session.State.{Fault, MoqState}

-- `m[key]` of an unordered_map: the value, and an assignment to it.
unfoldable pub lookup : ℕ → List (ℕ × ℕ) → Option ℕ
lookup key [] = none
lookup key ((k, v) ∷ m) = if k == key then some v else lookup key m

unfoldable pub assign : ℕ → ℕ → List (ℕ × ℕ) → List (ℕ × ℕ)
assign key v [] = (key, v) ∷ []
assign key v ((k, w) ∷ m) = if k == key then (key, v) ∷ m else (k, w) ∷ assign key v m

unfoldable pub set_track :
    {A H : Type 0}
    → ℕ
    → (TrackHandle A H → TrackHandle A H)
    → List (TrackHandle A H)
    → List (TrackHandle A H)
set_track i f [] = []
set_track zero f (t ∷ ts) = f t ∷ ts
set_track (suc i) f (t ∷ ts) = t ∷ set_track i f ts

unfoldable pub namespace_eq : List (List ℕ) → List (List ℕ) → Bool
namespace_eq [] [] = true
namespace_eq [] (b ∷ bs) = false
namespace_eq (a ∷ as_) [] = false
namespace_eq (a ∷ as_) (b ∷ bs) = bytes_eq a b && namespace_eq as_ bs

pub is_empty : List ℕ → Bool
is_empty [] = true
is_empty (b ∷ bs) = false

-- An opaque parameter of the host.
pub host_param : ℕ × List ℕ → KvpParam
host_param (key, value) = bytes_param key value

unfoldable pub transmit : List ℕ → Transport → Transport
transmit framed t = (send_control framed t).1

module _ {A H : Type 0} where
  unfoldable pub add_fault : Fault → MoqState A H → MoqState A H
  add_fault f m = record m { faults = m.faults ++ (f ∷ []) }

  unfoldable pub set_request_id : ℕ → TrackHandle A H → TrackHandle A H
  set_request_id id t = record t { moq_request_id = id }

  unfoldable pub set_alias : ℕ → TrackHandle A H → TrackHandle A H
  set_alias alias t = record t { moq_track_alias = alias }

  -- A request for the track: its id, and the next in the sequence of even numbers.
  unfoldable pub take_request_id : ℕ → MoqState A H → MoqState A H
  unfolding set_track set_request_id assign
  take_request_id i m = record m {
    tracks = set_track i (set_request_id m.next_request_id) m.tracks;
    request_id_map = assign m.next_request_id i m.request_id_map;
    next_request_id = u64 (m.next_request_id + 2);
  }

  -- The token goes with the first SUBSCRIBE alone.
  unfoldable pub attaches_jwt : List ℕ → MoqState A H → Bool
  unfolding is_empty
  attaches_jwt jwt m = not m.first_subscribe_sent && not (is_empty jwt)

  unfoldable pub subscribe_config :
      (ℕ → List (ℕ × List ℕ)) → List ℕ → ℕ → TrackHandle A H → MoqState A H → SubscribeConfig
  unfolding attaches_jwt host_param
  subscribe_config host jwt i t m = record {
    request_id = m.next_request_id;
    track_namespace = t.config.moq_namespace;
    track_name = t.config.moq_track_name;
    priority = 128;
    group_order = 1;
    forward = 1;
    filter_type = filter_latest_group;
    authorization = if attaches_jwt jwt m then jwt else [];
    extra_params = map host_param (host i);
  }

  unfoldable pub subscribe_track :
      (ℕ → List (ℕ × List ℕ))
      → List ℕ
      → ℕ
      → TrackHandle A H
      → MoqState A H × Transport
      → MoqState A H × Transport
  unfolding subscribe_config take_request_id transmit attaches_jwt
  subscribe_track host jwt i t (m, tr) = (
    take_request_id i
        (record m { first_subscribe_sent = m.first_subscribe_sent || attaches_jwt jwt m }),
    transmit (build_subscribe (subscribe_config host jwt i t m)) tr,
  )

  unfoldable pub announce_track :
      ℕ → TrackHandle A H → MoqState A H × Transport → MoqState A H × Transport
  unfolding take_request_id transmit
  announce_track i t (m, tr) = (
    take_request_id i m,
    transmit
        (build_announce
          (record { request_id = m.next_request_id; track_namespace = t.config.moq_namespace }))
        tr,
  )

  -- The two loops over the tracks, from index `i` on.
  unfoldable pub subscribe_tracks :
      (ℕ → List (ℕ × List ℕ))
      → List ℕ
      → ℕ
      → List (TrackHandle A H)
      → MoqState A H × Transport
      → MoqState A H × Transport
  unfolding subscribe_track is_outbound
  subscribe_tracks host jwt i [] s = s
  subscribe_tracks host jwt i (t ∷ ts) s =
      subscribe_tracks host jwt (i + 1) ts
        (if is_outbound t.config.direction then s else subscribe_track host jwt i t s)

  unfoldable pub announce_tracks :
      ℕ → List (TrackHandle A H) → MoqState A H × Transport → MoqState A H × Transport
  unfolding announce_track is_outbound
  announce_tracks i [] s = s
  announce_tracks i (t ∷ ts) s =
      announce_tracks (i + 1) ts
        (if is_outbound t.config.direction then announce_track i t s else s)

  unfoldable pub start_orchestration :
      (ℕ → List (ℕ × List ℕ)) → List ℕ → MoqState A H × Transport → MoqState A H × Transport
  unfolding subscribe_tracks announce_tracks
  start_orchestration host jwt (m, tr) =
      let subscribed =
        subscribe_tracks host jwt 0 m.tracks (record m { orchestration_started = true }, tr) in
      announce_tracks 0 m.tracks subscribed
