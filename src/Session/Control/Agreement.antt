-- ===== src/Session/Control/Agreement.antt =====
-- The two ends of a subscription: what the SUBSCRIBE of one session makes another do, and what the
-- SUBSCRIBE_OK that this one sends makes the first do.
use libpanaudia_core.Prelude.{
  List, Option, [], ap, arith, false, length, none, refl, some, suc, zero, ℕ, ◌<◌, ◌∙◌, ◌∷◌, ◌≡◌,
}
use libpanaudia_core.Moq.Reader.Laws.{IsVarint}
use libpanaudia_core.Moq.Framing.{subscribe, subscribe_ok}
use libpanaudia_core.Moq.Messages.Subscribe.{subscribe_content, SubscribeConfig, build_subscribe}
use libpanaudia_core.Moq.Messages.Subscribe.Sent.{IsSendable}
use libpanaudia_core.Moq.Messages.Subscribe.RoundTrip.{parse-build_subscribe}
use libpanaudia_core.Moq.Messages.SubscribeOk.{SubscribeOkConfig, ok_content, build_subscribe_ok}
use libpanaudia_core.Moq.Messages.SubscribeOk.RoundTrip.{
  IsSendable as IsSendableOk, parse-build_subscribe_ok,
}
use libpanaudia_core.Transport.{Transport}
use libpanaudia_core.Session.Track.{TrackHandle}
use libpanaudia_core.Session.State.{MoqState}
use libpanaudia_core.Session.Control.{
  set_track, set_request_id, set_alias, lookup, transmit, take_request_id, subscribe_config,
  subscribe_track,
}
use libpanaudia_core.Session.Control.Routing.{lookup-assign}
use libpanaudia_core.Session.Control.Messages.{
  subscribed_as, on_subscribe_ok, find_outbound, accept_subscribe, on_subscribe,
  handle_control_message,
}

-- The answer to a request under the alias.
abbrev pub accepted : ℕ → ℕ → SubscribeOkConfig
accepted request_id alias = record {
  request_id = request_id;
  track_alias = alias;
  expires_ms = 0;
  group_order = 0;
  content_exists = false;
  largest_group_id = 0;
  largest_object_id = 0;
}

module _ {A H : Type 0} where
  -- The alias that a track holds.
  unfoldable pub alias_at : ℕ → List (TrackHandle A H) → Option ℕ
  alias_at i [] = none
  alias_at zero (t ∷ ts) = some t.moq_track_alias
  alias_at (suc i) (t ∷ ts) = alias_at i ts

  alias_at_set :
      (i alias : ℕ) (ts : List (TrackHandle A H))
      → i < length ts
      → alias_at i (set_track i (set_alias alias) ts) ≡ some alias
  unfolding alias_at set_track set_alias
  alias_at_set i alias [] h = ground arith
  alias_at_set zero alias (t ∷ ts) h = refl
  alias_at_set (suc i) alias (t ∷ ts) h = alias_at_set i alias ts (omega arith)

  length-set_track :
      (i : ℕ) (f : TrackHandle A H → TrackHandle A H) (ts : List (TrackHandle A H))
      → length (set_track i f ts) ≡ length ts
  unfolding set_track
  length-set_track i f [] = refl
  length-set_track zero f (t ∷ ts) = refl
  length-set_track (suc i) f (t ∷ ts) = ap suc (length-set_track i f ts)

  -- A session that publishes the namespace of a SUBSCRIBE.
  answered :
      (c : SubscribeConfig) (j : ℕ) (m : MoqState A H) (tr : Transport)
      → IsSendable c
      → find_outbound c.track_namespace 0 m.tracks ≡ some j
      → handle_control_message subscribe (subscribe_content c) (m, tr)
        ≡ accept_subscribe c.request_id (some j) (m, tr)
  unfolding handle_control_message on_subscribe
  answered c j m tr s f = rw ((parse-build_subscribe c [] s).1, f) refl

  -- A session that hears a SUBSCRIBE_OK.
  heard :
      (c : SubscribeOkConfig) (m : MoqState A H) (tr : Transport)
      → IsSendableOk c
      → handle_control_message subscribe_ok (ok_content c) (m, tr)
        ≡ (subscribed_as c.track_alias (lookup c.request_id m.request_id_map) m, tr)
  unfolding handle_control_message on_subscribe_ok
  heard c m tr s = rw ((parse-build_subscribe_ok c [] s).1) refl

  -- When a session sends the SUBSCRIBE of its track `i`, within the limits of the encoding, and a
  -- session that has an outbound track of the namespace, the first of them `j`, receives it, this
  -- one answers with a SUBSCRIBE_OK that names its next alias, stores that alias in track `j`, which
  -- it sends under, and maps it to track `j`; the first session, when it receives that answer,
  -- stores the alias in track `i` and maps it to track `i`, if the alias fits a varint and the
  -- tracks are there.
  pub subscription_agrees :
      (host : ℕ → List (ℕ × List ℕ)) (jwt : List ℕ) (i j : ℕ) (t : TrackHandle A H)
      (m n : MoqState A H) (tr us : Transport)
      → IsSendable (subscribe_config host jwt i t m)
      → find_outbound t.config.moq_namespace 0 n.tracks ≡ some j
      → IsVarint n.next_track_alias
      → i < length m.tracks
      → j < length n.tracks
      → let request = subscribe_config host jwt i t m in
        let alias = n.next_track_alias in
        let grant = accepted m.next_request_id alias in
        let asked = subscribe_track host jwt i t (m, tr) in
        let publisher = handle_control_message subscribe (subscribe_content request) (n, us) in
        let subscriber = handle_control_message subscribe_ok (ok_content grant) asked in
        (asked.1 ≡ transmit (build_subscribe request) tr)
        × (publisher.1 ≡ transmit (build_subscribe_ok grant) us)
        × (alias_at j publisher.0.tracks ≡ some alias)
        × (lookup alias publisher.0.outbound_alias_map ≡ some j)
        × (alias_at i subscriber.0.tracks ≡ some alias)
        × (lookup alias subscriber.0.inbound_alias_map ≡ some i)
  unfolding subscribe_config subscribe_track take_request_id accept_subscribe subscribed_as
  subscription_agrees host jwt i j t m n tr us s f a li lj =
      let request = subscribe_config host jwt i t m in
      let asked = subscribe_track host jwt i t (m, tr) in
      let grant = accepted m.next_request_id n.next_track_alias in
      let sendable : IsSendableOk grant = record {
        id_fits = s.id_fits;
        alias_fits = a;
        expires_fits = omega arith;
        order_fits = omega arith;
        group_fits = omega arith;
        object_fits = omega arith;
      } in
      let there = answered request j n us s f in
      let here = heard grant asked.0 asked.1 sendable in
      let known = lookup-assign m.next_request_id i m.request_id_map in
      (
        refl,
        ap (λ (x : MoqState A H × Transport). x.1) there,
        ap (λ (x : MoqState A H × Transport). alias_at j x.0.tracks) there
            ∙ alias_at_set j n.next_track_alias n.tracks lj,
        ap (λ (x : MoqState A H × Transport). lookup n.next_track_alias x.0.outbound_alias_map)
              there
            ∙ lookup-assign n.next_track_alias j n.outbound_alias_map,
        ap (λ (x : MoqState A H × Transport). alias_at i x.0.tracks) here
            ∙ ap (λ (o : Option ℕ). alias_at i (subscribed_as n.next_track_alias o asked.0).tracks)
                known
            ∙ alias_at_set i n.next_track_alias asked.0.tracks
                (omega (arith, length-set_track i (set_request_id m.next_request_id) m.tracks, li)),
        ap (λ (x : MoqState A H × Transport). lookup n.next_track_alias x.0.inbound_alias_map) here
            ∙ ap
                (λ (o : Option ℕ).
                  lookup n.next_track_alias
                    (subscribed_as n.next_track_alias o asked.0).inbound_alias_map)
                known
            ∙ lookup-assign n.next_track_alias i m.inbound_alias_map,
      )
