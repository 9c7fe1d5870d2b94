-- ===== src/PeerManager/Timers.antt =====
-- peer_manager.rs: what the timers of the peer manager send.
use gwyh.Base.{
  ◌==◌, Option, none, some, List, [], ◌∷◌, ℕ_discrete, ltb, is_some, length, OnSome, All,
  Bool-cases, Option-cases, inl, inr, ite,
}
use gwyh.Base.Dict.{Dict, lookup, lookup-insert, lookup-remove}
use gwyh.Base.Set
use gwyh.External.{Uuid, Entropy}
use gwyh.NodeInfo.{NodeInfo}
use gwyh.Peer.{Peer}
use gwyh.Message.{PeerRequest, PeerStatus, PeerState, up, down}
use gwyh.Actor.{Effect, Delayed, Interval, PeerManagerRequest, cast, to_peer_manager}
use gwyh.PeerManager.State.{
  PeerManager, new, watchdog_for, reset_heartbeat_watchdog, stop_heartbeat_watchdog,
  start_heartbeats, start_reassign_timer,
}
use gwyh.PeerManager.Choose.{Chooser, choose_peers}
use gwyh.PeerManager.Subscriptions.{
  update_keys, update_subscribers, merge_peer, add_unknown, end_subscription, subscription_started,
  add_peer, remove_peer, update_peers, send_peerlist, send_heartbeat, start_subscription,
  start_added, end_removed, trigger_reassignment, shutdown,
}
use gwyh.PeerManager.Handle.{
  notify, forward_status, apply_status, handle_request, reassign_peers, handle_message,
}

-- A heartbeat, a reassignment, or the report that a peer is down.
abbrev pub IsAlarm : Effect → Type 0
IsAlarm (to_peer_manager cast PeerManagerRequest.send_heartbeat) = Unit
IsAlarm (to_peer_manager cast PeerManagerRequest.reassign) = Unit
IsAlarm (to_peer_manager cast (PeerManagerRequest.request _ (PeerRequest.peer_status _))) = Unit
IsAlarm _ = ⊥

abbrev Fires : Option Delayed → Type 0
Fires t = OnSome (λ d. All IsAlarm d.fires) t

abbrev TimedBy : Option Interval → Option Delayed → Dict Uuid Delayed → Type 0
TimedBy heartbeat reassign watchdogs =
    OnSome (λ t. All IsAlarm t.ticks) heartbeat
    × Fires reassign
    × ((id : Uuid) → Fires (lookup ℕ_discrete id watchdogs))

-- The timers of the peer manager send alarms to itself only.
abbrev pub IsTimed : PeerManager → Type 0
IsTimed m = TimedBy m.heartbeat m.reassign_timer m.heartbeat_watchdogs

abbrev Keeps : PeerManager → PeerManager → Type 0
Keeps m m' = IsTimed m → IsTimed m'

pub new-IsTimed : (nodeinfo : NodeInfo) → IsTimed (new nodeinfo)
unfolding new lookup
new-IsTimed nodeinfo = (tt, tt, λ id. tt)

Fires-ite : {X : Type 0} (d : Dec X) (t u : Option Delayed) → Fires t → Fires u → Fires (ite d t u)
Fires-ite (yes x) t u h k = h
Fires-ite (no n) t u h k = k

stop-Keeps : (id : Uuid) (m : PeerManager) → Keeps m (stop_heartbeat_watchdog id m)
unfolding stop_heartbeat_watchdog
stop-Keeps id m v = (
  v.0,
  v.1,
  λ j.
      rw (lookup-remove ℕ_discrete id j m.heartbeat_watchdogs)
        (Fires-ite (ℕ_discrete id j) none (lookup ℕ_discrete j m.heartbeat_watchdogs) tt (v.2 j)),
)

reset-Keeps : (id : Uuid) (m : PeerManager) → Keeps m (reset_heartbeat_watchdog id m)
unfolding reset_heartbeat_watchdog
reset-Keeps id m v = elim (Bool-cases (Set.contains ℕ_discrete id m.subscribed_to)) [
  | inl e ↦ elim (Option-cases (lookup ℕ_discrete id m.known)) [
    | inl absent ↦ rw (e, absent, reset_heartbeat_watchdog) (stop-Keeps id m v)
    | inr (p, found) ↦
        rw (e, found, reset_heartbeat_watchdog)
          (
            v.0,
            v.1,
            λ j.
                rw (lookup-insert ℕ_discrete id j (watchdog_for m.nodeinfo p) m.heartbeat_watchdogs)
                  (Fires-ite (ℕ_discrete id j) (some (watchdog_for m.nodeinfo p))
                    (lookup ℕ_discrete j m.heartbeat_watchdogs) (tt, tt) (v.2 j)),
          )
  ]
  | inr e ↦ rw (e, reset_heartbeat_watchdog) (stop-Keeps id m v)
]

heartbeats-Keeps : (m : PeerManager) → Keeps m (start_heartbeats m)
unfolding start_heartbeats
heartbeats-Keeps m v = elim (Bool-cases (is_some m.heartbeat)) [
  | inl e ↦ rw (e, start_heartbeats) v
  | inr e ↦ rw (e, start_heartbeats) ((tt, tt), v.1, v.2)
]

notify-Keeps : (m : PeerManager) → Keeps m (notify m)
unfolding notify
notify-Keeps m v = elim (Option-cases m.notify_ready) [
  | inl e ↦ rw (e, notify) v
  | inr (n, e) ↦ rw (e, notify) v
]

forward-Keeps :
    (from_id : Uuid) (status : PeerStatus) (m : PeerManager)
    → Keeps m (forward_status from_id status m)
unfolding forward_status
forward-Keeps from_id status m v = elim (Bool-cases (from_id == m.nodeinfo.id)) [
  | inl e ↦ rw (e, forward_status) v
  | inr e ↦ rw (e, forward_status) v
]

module _ (ent : Entropy) where
  timer-Keeps : (m : PeerManager) → Keeps m (start_reassign_timer ent m)
  unfolding start_reassign_timer
  timer-Keeps m v = elim (Bool-cases (ltb (length m.subscribed_to) m.nodeinfo.peer_subscriptions)) [
    | inl e ↦ rw (e, start_reassign_timer) (v.0, (tt, tt), v.2)
    | inr e ↦ rw (e, start_reassign_timer) v
  ]

  status-Keeps :
      (state : PeerState) (status : PeerStatus) (m : PeerManager)
      → Keeps m (apply_status ent state status m)
  unfolding apply_status add_peer remove_peer update_keys update_subscribers
  status-Keeps up status m v =
      timer-Keeps (update_keys (record m { known = merge_peer status.peer m.known })) v
  status-Keeps down status m v = timer-Keeps _ (stop-Keeps status.peer.id (update_subscribers m) v)

  peers-Keeps : (peers : List Peer) (m : PeerManager) → Keeps m (update_peers ent peers m)
  unfolding update_peers
  peers-Keeps peers m v = elim (Bool-cases (ltb 0 (add_unknown peers m.known).0)) [
    | inl e ↦
        rw (e, update_peers) (timer-Keeps (record m { known = (add_unknown peers m.known).1 }) v)
    | inr e ↦ rw (e, update_peers) v
  ]

  start-Keeps : (id : Uuid) (m : PeerManager) → Keeps m (start_subscription ent id m)
  unfolding start_subscription update_subscribers
  start-Keeps id m v = heartbeats-Keeps _ v

  handle_request-Keeps :
      (from_id : Uuid) (body : PeerRequest) (m : PeerManager)
      → Keeps m (handle_request ent from_id body m)
  unfolding handle_request subscription_started end_subscription send_peerlist update_subscribers
  handle_request-Keeps from_id (PeerRequest.peer_status status) m v =
      forward-Keeps from_id status (apply_status ent status.state status m)
        (status-Keeps status.state status m v)
  handle_request-Keeps from_id PeerRequest.start_subscription m v = start-Keeps from_id m v
  handle_request-Keeps from_id PeerRequest.subscription_started m v =
      let entered : PeerManager = record m {
        subscribed_to = Set.insert ℕ_discrete from_id m.subscribed_to;
      } in
      notify-Keeps (reset_heartbeat_watchdog from_id entered) (reset-Keeps from_id entered v)
  handle_request-Keeps from_id PeerRequest.end_subscription m v = v
  handle_request-Keeps from_id PeerRequest.heartbeat m v = reset-Keeps from_id m v
  handle_request-Keeps from_id (PeerRequest.peers list) m v = peers-Keeps list m v
  handle_request-Keeps from_id PeerRequest.peer_list m v = v

  removed-Keeps : (ids : List Uuid) (m : PeerManager) → Keeps m (end_removed ent ids m)
  unfolding end_removed
  removed-Keeps [] m v = v
  removed-Keeps (id ∷ ids) m v = removed-Keeps ids _ (stop-Keeps id m v)

  pub handle_message-IsTimed :
      (ch : Chooser) (message : PeerManagerRequest) (m : PeerManager)
      → IsTimed m
      → OnSome (λ r. IsTimed r.0) (handle_message ent ch message m)
  unfolding handle_message reassign_peers trigger_reassignment shutdown send_heartbeat
  handle_message-IsTimed ch PeerManagerRequest.get_subscriber_count m v = v
  handle_message-IsTimed ch PeerManagerRequest.reassign m v =
      elim (Option-cases (choose_peers ch m.nodeinfo m.known)) [
        | inl e ↦ rw (e, handle_message, reassign_peers) tt
        | inr (chosen, e) ↦
            rw (e, handle_message, reassign_peers)
              (let added = Set.difference ℕ_discrete chosen m.subscribed_to in
                removed-Keeps (Set.difference ℕ_discrete m.subscribed_to chosen)
                  (record m { io = start_added ent m.known added m.io }) v)
      ]
  handle_message-IsTimed ch (PeerManagerRequest.set_notify n) m v = v
  handle_message-IsTimed ch (PeerManagerRequest.request from_id body) m v =
      handle_request-Keeps from_id body m v
  handle_message-IsTimed ch PeerManagerRequest.start_heartbeats m v = heartbeats-Keeps m v
  handle_message-IsTimed ch PeerManagerRequest.send_heartbeat m v = v
  handle_message-IsTimed ch PeerManagerRequest.shutdown m v = v
