-- ===== src/Waiting/PeerRequests.antt =====
-- peer_manager.rs: what requests lead to, for any property of the messages sent.
use gwyh.Base.{
  ◌≡◌, refl, ℕ, ◌<◌, ◌==◌, List, [], ◌∷◌, ℕ_discrete, ltb, is_some, arith, Bool-cases, Option-cases,
  inl, inr, length, if◌then◌else◌,
}
use gwyh.Base.Dict.{Dict, lookup, contains_key}
use gwyh.Base.Set
use gwyh.External.{Uuid, Entropy}
use gwyh.Peer.{Peer}
use gwyh.Message.{PeerRequest, PeerStatus, PeerState, up, down}
use gwyh.Actor.{
  Effect, PeerKeys, Io, Delivery, to_packet_handler, send_message, keys_updated,
  subscribers_updated, broadcast_peer_status, cast, call, task, draw, notify_one,
}
use gwyh.PeerManager.State.{
  PeerManager, reset_heartbeat_watchdog, stop_heartbeat_watchdog, start_heartbeats, send_request,
  send_each, start_reassign_timer,
}
use gwyh.PeerManager.Subscriptions.{
  keys_of, update_keys, update_subscribers, merge_peer, add_unknown, end_subscription,
  subscription_started, add_peer, remove_peer, update_peers, send_peerlist, start_subscription,
}
use gwyh.PeerManager.Handle.{notify, forward_status, apply_status, handle_request}
use gwyh.Waiting.{Fits, AllOut, IsPlain, emit-AllOut}

abbrev pub Keeps : (Effect → Type 0) → PeerManager → PeerManager → Type 0
Keeps P m m' = AllOut P m.io → AllOut P m'.io

module _ (P : Effect → Type 0) (top : ℕ) (fits : (e : Effect) → Fits 1 top e → IsPlain e → P e)
    (enough : 1 < top) where
  reset-Keeps : (id : Uuid) (m : PeerManager) → Keeps P m (reset_heartbeat_watchdog id m)
  unfolding reset_heartbeat_watchdog stop_heartbeat_watchdog
  reset-Keeps id m v = elim (Bool-cases (Set.contains ℕ_discrete id m.subscribed_to)) [
    | inl e ↦ elim (Option-cases (lookup ℕ_discrete id m.known)) [
      | inl absent ↦ rw (e, absent, reset_heartbeat_watchdog) v
      | inr (p, found) ↦ rw (e, found, reset_heartbeat_watchdog) v
    ]
    | inr e ↦ rw (e, reset_heartbeat_watchdog) v
  ]

  pub heartbeats-Keeps : (m : PeerManager) → Keeps P m (start_heartbeats m)
  unfolding start_heartbeats
  heartbeats-Keeps m v = elim (Bool-cases (is_some m.heartbeat)) [
    | inl e ↦ rw (e, start_heartbeats) v
    | inr e ↦ rw (e, start_heartbeats) v
  ]

  subscribers-Keeps : (m : PeerManager) → Keeps P m (update_subscribers m)
  unfolding update_subscribers
  subscribers-Keeps m v =
      emit-AllOut P _ m.io (fits (to_packet_handler cast (subscribers_updated _)) (tt, enough) tt) v

  keys-Keeps :
      ((k : Dict Uuid PeerKeys) → P (to_packet_handler call (keys_updated k)))
      → (m : PeerManager) → Keeps P m (update_keys m)
  unfolding update_keys
  keys-Keeps updates m v = emit-AllOut P _ m.io (updates (keys_of m.known)) v

  notify-Keeps : (m : PeerManager) → Keeps P m (notify m)
  unfolding notify
  notify-Keeps m v = elim (Option-cases m.notify_ready) [
    | inl e ↦ rw (e, notify) v
    | inr (n, e) ↦
        rw (e, notify)
          (emit-AllOut P (notify_one n) m.io (fits (notify_one n) (tt, omega arith) tt) v)
  ]

  forward-Keeps :
      (from_id : Uuid) (status : PeerStatus) (m : PeerManager)
      → Keeps P m (forward_status from_id status m)
  unfolding forward_status
  forward-Keeps from_id status m v = elim (Bool-cases (from_id == m.nodeinfo.id)) [
    | inl e ↦
        rw (e, forward_status)
          (emit-AllOut P _ m.io
            (fits (to_packet_handler cast (broadcast_peer_status _)) (tt, enough) tt) v)
    | inr e ↦ rw (e, forward_status) v
  ]

module _ (ent : Entropy) (P : Effect → Type 0) (top : ℕ)
    (fits : (e : Effect) → Fits 1 top e → IsPlain e → P e) (enough : 1 < top) where
  pub request-Keeps :
      (d : Delivery) (to : Uuid) (body : PeerRequest) (io : Io)
      → AllOut P io
      → AllOut P (send_request ent d to body io)
  unfolding send_request draw
  request-Keeps cast to body io v =
      emit-AllOut P _ io (fits (to_packet_handler cast (send_message _ _)) (tt, enough) tt) v
  request-Keeps call to body io v =
      emit-AllOut P _ io (fits (to_packet_handler call (send_message _ _)) (omega arith, enough) tt)
        v
  request-Keeps (task n) to body io v =
      emit-AllOut P _ io (fits (to_packet_handler (task n) (send_message _ _)) (tt, enough) tt) v

  pub each-Keeps :
      (d : Delivery) (body : PeerRequest) (ids : List Uuid) (io : Io)
      → AllOut P io
      → AllOut P (send_each ent d body ids io)
  unfolding send_each
  each-Keeps d body [] io v = v
  each-Keeps d body (id ∷ ids) io v = each-Keeps d body ids _ (request-Keeps d id body io v)

  timer-Keeps : (m : PeerManager) → Keeps P m (start_reassign_timer ent m)
  unfolding start_reassign_timer draw
  timer-Keeps m v = elim (Bool-cases (ltb (length m.subscribed_to) m.nodeinfo.peer_subscriptions)) [
    | inl e ↦ rw (e, start_reassign_timer) v
    | inr e ↦ rw (e, start_reassign_timer) v
  ]

  status-Keeps :
      ((k : Dict Uuid PeerKeys) → P (to_packet_handler call (keys_updated k)))
      → (state : PeerState) (status : PeerStatus) (m : PeerManager)
      → Keeps P m (apply_status ent state status m)
  unfolding apply_status add_peer remove_peer stop_heartbeat_watchdog update_keys
  status-Keeps updates up status m v =
      let merged : PeerManager = record m { known = merge_peer status.peer m.known } in
      timer-Keeps (update_keys merged) (keys-Keeps P top fits enough updates merged v)
  status-Keeps updates down status m v = timer-Keeps _ (
      emit-AllOut P _ (update_subscribers m).io (updates _)
        (subscribers-Keeps P top fits enough m v))

  peers-Keeps : (peers : List Peer) (m : PeerManager) → Keeps P m (update_peers ent peers m)
  unfolding update_peers
  peers-Keeps peers m v = elim (Bool-cases (ltb 0 (add_unknown peers m.known).0)) [
    | inl e ↦
        rw (e, update_peers) (timer-Keeps (record m { known = (add_unknown peers m.known).1 }) v)
    | inr e ↦ rw (e, update_peers) v
  ]

  start-Keeps : (id : Uuid) (m : PeerManager) → Keeps P m (start_subscription ent id m)
  unfolding start_subscription
  start-Keeps id m v =
      let entered : PeerManager = record m {
        subscribers =
            if contains_key ℕ_discrete id m.known
            then Set.insert ℕ_discrete id m.subscribers
            else Set.remove ℕ_discrete id m.subscribers;
      } in
      let started = start_heartbeats (update_subscribers entered) in
      request-Keeps cast id PeerRequest.subscription_started started.io (
        heartbeats-Keeps P top fits enough (update_subscribers entered)
          (subscribers-Keeps P top fits enough entered v))

  pub handle_request-Keeps :
      (from_id : Uuid) (body : PeerRequest)
      (updates : (status : PeerStatus)
        → body ≡ PeerRequest.peer_status status
        → (k : Dict Uuid PeerKeys) → P (to_packet_handler call (keys_updated k)))
      (m : PeerManager)
      → Keeps P m (handle_request ent from_id body m)
  unfolding handle_request subscription_started end_subscription send_peerlist
  handle_request-Keeps from_id (PeerRequest.peer_status status) updates m v =
      forward-Keeps P top fits enough from_id status (apply_status ent status.state status m)
        (status-Keeps (updates status refl) status.state status m v)
  handle_request-Keeps from_id PeerRequest.start_subscription updates m v = start-Keeps from_id m v
  handle_request-Keeps from_id PeerRequest.subscription_started updates m v =
      let entered : PeerManager = record m {
        subscribed_to = Set.insert ℕ_discrete from_id m.subscribed_to;
      } in
      notify-Keeps P top fits enough (reset_heartbeat_watchdog from_id entered)
        (reset-Keeps P top fits enough from_id entered v)
  handle_request-Keeps from_id PeerRequest.end_subscription updates m v =
      subscribers-Keeps P top fits enough
        (record m { subscribers = Set.remove ℕ_discrete from_id m.subscribers }) v
  handle_request-Keeps from_id PeerRequest.heartbeat updates m v =
      reset-Keeps P top fits enough from_id m v
  handle_request-Keeps from_id (PeerRequest.peers list) updates m v = peers-Keeps list m v
  handle_request-Keeps from_id PeerRequest.peer_list updates m v =
      request-Keeps cast from_id _ m.io v
