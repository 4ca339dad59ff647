-- ===== src/Session/Control/Messages.antt =====
-- The control messages that a session receives: handle_control_message. What it logs is left out.
use libpanaudia_core.Prelude.{
  List, Option, [], false, if◌then◌else◌, none, some, u64, ℕ, ◌&&◌, ◌+◌, ◌==◌, ◌∷◌,
}
use libpanaudia_core.Moq.Reader.{Parsed, ok, fail, fault}
use libpanaudia_core.Moq.Framing.{
  MessageType, subscribe, subscribe_ok, subscribe_error, announce, announce_ok, subscribe_announces,
}
use libpanaudia_core.Moq.Messages.Subscribe.{
  SubscribeResult, parse_subscribe, SubscribeErrorResult, parse_subscribe_error,
}
use libpanaudia_core.Moq.Messages.SubscribeOk.{
  build_subscribe_ok, SubscribeOkResult, parse_subscribe_ok,
}
use libpanaudia_core.Moq.Messages.Announce.{
  AnnounceResult, parse_announce, build_announce_ok, parse_announce_ok, SubscribeAnnouncesResult,
  parse_subscribe_announces, build_subscribe_announces_ok,
}
use libpanaudia_core.Transport.{Transport}
use libpanaudia_core.Session.Track.{TrackHandle, is_outbound}
use libpanaudia_core.Session.State.{outside_message, MoqState}
use libpanaudia_core.Session.Control.{
  lookup, assign, set_track, namespace_eq, transmit, add_fault, set_alias,
}

unfoldable pub announce_id : Parsed AnnounceResult → Parsed ℕ
announce_id (ok r) = ok r.request_id
announce_id fail = fail
announce_id fault = fault

unfoldable pub announces_id : Parsed SubscribeAnnouncesResult → Parsed ℕ
announces_id (ok r) = ok r.request_id
announces_id fail = fail
announces_id fault = fault

module _ {A H : Type 0} where
  unfoldable pub subscribed_as : ℕ → Option ℕ → MoqState A H → MoqState A H
  unfolding set_track set_alias assign
  subscribed_as alias none m = m
  subscribed_as alias (some i) m = record m {
    tracks = set_track i (set_alias alias) m.tracks;
    inbound_alias_map = assign alias i m.inbound_alias_map;
  }

  unfoldable pub on_subscribe_ok : Parsed SubscribeOkResult → MoqState A H → MoqState A H
  unfolding subscribed_as lookup add_fault
  on_subscribe_ok (ok r) m = subscribed_as r.track_alias (lookup r.request_id m.request_id_map) m
  on_subscribe_ok fail m = m
  on_subscribe_ok fault m = add_fault outside_message m

  -- Its fields are only logged.
  unfoldable pub on_subscribe_error : Parsed SubscribeErrorResult → MoqState A H → MoqState A H
  unfolding add_fault
  on_subscribe_error (ok r) m = m
  on_subscribe_error fail m = m
  on_subscribe_error fault m = add_fault outside_message m

  -- The first outbound track of the namespace, from index `i` on.
  unfoldable pub find_outbound : List (List ℕ) → ℕ → List (TrackHandle A H) → Option ℕ
  unfolding is_outbound namespace_eq
  find_outbound namespace i [] = none
  find_outbound namespace i (t ∷ ts) =
      let rest = find_outbound namespace (i + 1) ts in
      if is_outbound t.config.direction && namespace_eq t.config.moq_namespace namespace
      then some i
      else rest

  unfoldable pub accept_subscribe :
      ℕ → Option ℕ → MoqState A H × Transport → MoqState A H × Transport
  unfolding set_track set_alias assign transmit
  accept_subscribe request_id none s = s
  accept_subscribe request_id (some i) (m, tr) =
      let alias = m.next_track_alias in
      (
        record m {
          next_track_alias = u64 (alias + 1);
          tracks = set_track i (set_alias alias) m.tracks;
          outbound_alias_map = assign alias i m.outbound_alias_map;
        },
        transmit
            (build_subscribe_ok (record {
              request_id = request_id;
              track_alias = alias;
              expires_ms = 0;
              group_order = 0;
              content_exists = false;
              largest_group_id = 0;
              largest_object_id = 0;
            }))
            tr,
      )

  unfoldable pub on_subscribe :
      Parsed SubscribeResult → MoqState A H × Transport → MoqState A H × Transport
  unfolding accept_subscribe find_outbound add_fault
  on_subscribe (ok r) (m, tr) =
      accept_subscribe r.request_id (find_outbound r.track_namespace 0 m.tracks) (m, tr)
  on_subscribe fail s = s
  on_subscribe fault (m, tr) = (add_fault outside_message m, tr)

  -- The messages that are answered with their request id, and ANNOUNCE_OK, which is logged.
  unfoldable pub answer :
      (ℕ → List ℕ) → Parsed ℕ → MoqState A H × Transport → MoqState A H × Transport
  unfolding transmit add_fault
  answer build (ok request_id) (m, tr) = (m, transmit (build request_id) tr)
  answer build fail s = s
  answer build fault (m, tr) = (add_fault outside_message m, tr)

  unfoldable pub on_announce_ok : Parsed ℕ → MoqState A H → MoqState A H
  unfolding add_fault
  on_announce_ok (ok request_id) m = m
  on_announce_ok fail m = m
  on_announce_ok fault m = add_fault outside_message m

  unfoldable pub handle_control_message :
      MessageType → List ℕ → MoqState A H × Transport → MoqState A H × Transport
  unfolding on_subscribe_ok on_subscribe_error on_subscribe answer on_announce_ok announce_id
      announces_id
  handle_control_message type content (m, tr) =
      if type == subscribe_ok
      then (on_subscribe_ok (parse_subscribe_ok content) m, tr)
      else (if type == subscribe_error
          then (on_subscribe_error (parse_subscribe_error content) m, tr)
          else (if type == subscribe
              then on_subscribe (parse_subscribe content) (m, tr)
              else (if type == announce
                  then answer build_announce_ok (announce_id (parse_announce content)) (m, tr)
                  else (if type == announce_ok
                      then (on_announce_ok (parse_announce_ok content) m, tr)
                      else (if type == subscribe_announces
                          then answer build_subscribe_announces_ok
                              (announces_id (parse_subscribe_announces content)) (m, tr)
                          else (m, tr))))))
