-- ===== src/PeerManager/Preserve.antt =====
-- peer_manager.rs: every operation keeps the invariant, and so does every message.
use gwyh.Base.{
  ◌≡◌, refl, subst, ◌==◌, OnSome, ◌↔◌, Option, none, List, [], ◌∷◌, ℕ_discrete, ltb, is_some, arith,
  Bool-cases, Option-cases, inl, inr, length,
}
use gwyh.Base.Dict.{Dict, lookup, contains_key}
use gwyh.Base.Set
use gwyh.External.{Uuid, Entropy}
use gwyh.Peer.{Peer}
use gwyh.Message.{PeerRequest, PeerStatus, PeerState, up, down}
use gwyh.Actor.{Delayed, Interval, PeerManagerRequest}
use gwyh.PeerManager.State.{
  PeerManager, watchdog_for, start_reassign_timer, stop_heartbeat_watchdog,
  reset_heartbeat_watchdog, start_heartbeats,
}
use gwyh.PeerManager.Subscriptions.{
  update_keys, update_subscribers, merge_peer, replaces, add_unknown, end_subscription,
  subscription_started, add_peer, remove_peer, update_peers, send_peerlist, send_heartbeat,
  start_subscription, start_added, end_removed, trigger_reassignment, shutdown,
}
use gwyh.PeerManager.Choose.{Chooser, choose_peers}
use gwyh.PeerManager.Handle.{
  notify, forward_status, apply_status, handle_request, reassign_peers, handle_message,
}
use gwyh.PeerManager.Invariant.{
  Holds, Inv, Holds-insert, Holds-remove, Holds-unsubscribe, Holds-subscribe, Holds-stop,
  Holds-watch, Holds-beat,
}

stop-Inv : (id : Uuid) (m : PeerManager) → Inv m → Inv (stop_heartbeat_watchdog id m)
unfolding stop_heartbeat_watchdog
stop-Inv id m v = Holds-stop v id

reset-Inv : (id : Uuid) (m : PeerManager) → Inv m → Inv (reset_heartbeat_watchdog id m)
unfolding reset_heartbeat_watchdog
reset-Inv id m v = elim (Bool-cases (Set.contains ℕ_discrete id m.subscribed_to)) [
  | inl e ↦ elim (Option-cases (lookup ℕ_discrete id m.known)) [
    | inl absent ↦ rw (e, absent, reset_heartbeat_watchdog) (Holds-stop v id)
    | inr (p, found) ↦
        rw (e, found, reset_heartbeat_watchdog)
          (Holds-watch v id (watchdog_for m.nodeinfo p) p found)
  ]
  | inr e ↦ rw (e, reset_heartbeat_watchdog) (Holds-stop v id)
]

heartbeats-Inv : (m : PeerManager) → Inv m → Inv (start_heartbeats m)
unfolding start_heartbeats
heartbeats-Inv m v = elim (Bool-cases (is_some m.heartbeat)) [
  | inl e ↦ rw (e, start_heartbeats) v
  | inr e ↦ rw (e, start_heartbeats) (Holds-beat v _)
]

timer-Inv : (ent : Entropy) (m : PeerManager) → Inv m → Inv (start_reassign_timer ent m)
unfolding start_reassign_timer
timer-Inv ent m v = elim (Bool-cases (ltb (length m.subscribed_to) m.nodeinfo.peer_subscriptions)) [
  | inl e ↦ rw e v
  | inr e ↦ rw e v
]

pub merge-Inv :
    (peer : Peer) (m : PeerManager)
    → Inv m
    → Holds (merge_peer peer m.known) m.subscribers m.heartbeat_watchdogs m.heartbeat
unfolding merge_peer
merge-Inv peer m v = elim (Bool-cases (replaces peer (lookup ℕ_discrete peer.id m.known))) [
  | inl e ↦ rw (e, merge_peer) (Holds-insert v peer.id peer refl)
  | inr e ↦ rw (e, merge_peer) v
]

add_unknown-Holds :
    (peers : List Peer) {known : Dict Uuid Peer} {subscribers : List Uuid}
    {watchdogs : Dict Uuid Delayed} {heartbeat : Option Interval}
    → Holds known subscribers watchdogs heartbeat
    → Holds (add_unknown peers known).1 subscribers watchdogs heartbeat
unfolding add_unknown
add_unknown-Holds [] v = v
add_unknown-Holds (p ∷ ps) {known} v = elim (Bool-cases (contains_key ℕ_discrete p.id known)) [
  | inl e ↦ rw e (add_unknown-Holds ps v)
  | inr e ↦ rw e (add_unknown-Holds ps (Holds-insert v p.id p refl))
]

module _ (ent : Entropy) where
  add_peer-Inv : (peer : Peer) (m : PeerManager) → Inv m → Inv (add_peer ent peer m)
  unfolding add_peer update_keys
  add_peer-Inv peer m v = timer-Inv ent _ (merge-Inv peer m v)

  remove_peer-Inv : (peer : Peer) (m : PeerManager) → Inv m → Inv (remove_peer ent peer m)
  unfolding remove_peer update_keys update_subscribers stop_heartbeat_watchdog
  remove_peer-Inv peer m v = timer-Inv ent _ (Holds-remove v peer.id)

  update_peers-Inv : (peers : List Peer) (m : PeerManager) → Inv m → Inv (update_peers ent peers m)
  unfolding update_peers
  update_peers-Inv peers m v = elim (Bool-cases (ltb 0 (add_unknown peers m.known).0)) [
    | inl e ↦ rw (e, update_peers) (timer-Inv ent _ (add_unknown-Holds peers v))
    | inr e ↦ rw (e, update_peers) (add_unknown-Holds peers v)
  ]

  start_subscription-Inv : (id : Uuid) (m : PeerManager) → Inv m → Inv (start_subscription ent id m)
  unfolding start_subscription update_subscribers start_heartbeats
  start_subscription-Inv id m v = elim (Bool-cases (contains_key ℕ_discrete id m.known)) [
    | inl e ↦ elim (Option-cases m.heartbeat) [
      | inl h ↦ rw (e, h, start_heartbeats) (Holds-subscribe v id _ e)
      | inr (b, h) ↦ rw (e, h, start_heartbeats) (Holds-subscribe v id b e)
    ]
    | inr e ↦ rw e (heartbeats-Inv _ (Holds-unsubscribe v id))
  ]

  end_removed-Inv : (ids : List Uuid) (m : PeerManager) → Inv m → Inv (end_removed ent ids m)
  unfolding end_removed stop_heartbeat_watchdog
  end_removed-Inv [] m v = v
  end_removed-Inv (id ∷ ids) m v = end_removed-Inv ids _ (Holds-stop v id)

  trigger-Inv :
      (added_peers removed_peers : List Uuid) (m : PeerManager)
      → Inv m
      → Inv (trigger_reassignment ent added_peers removed_peers m)
  unfolding trigger_reassignment
  trigger-Inv added_peers removed_peers m v =
      end_removed-Inv removed_peers (record m { io = start_added ent m.known added_peers m.io }) v

  apply_status-Inv :
      (state : PeerState) (status : PeerStatus) (m : PeerManager)
      → Inv m
      → Inv (apply_status ent state status m)
  unfolding apply_status
  apply_status-Inv up status m v = add_peer-Inv status.peer m v
  apply_status-Inv down status m v = remove_peer-Inv status.peer m v

  forward-Inv :
      (from_id : Uuid) (status : PeerStatus) (m : PeerManager)
      → Inv m
      → Inv (forward_status from_id status m)
  unfolding forward_status
  forward-Inv from_id status m v = elim (Bool-cases (from_id == m.nodeinfo.id)) [
    | inl e ↦ rw e v
    | inr e ↦ rw e v
  ]

  notify-Inv : (m : PeerManager) → Inv m → Inv (notify m)
  unfolding notify
  notify-Inv m v = elim (Option-cases m.notify_ready) [
    | inl e ↦ rw (e, notify) v
    | inr (n, e) ↦ rw (e, notify) v
  ]

  handle_request-Inv :
      (from_id : Uuid) (body : PeerRequest) (m : PeerManager)
      → Inv m
      → Inv (handle_request ent from_id body m)
  unfolding handle_request subscription_started end_subscription update_subscribers send_peerlist
  handle_request-Inv from_id (PeerRequest.peer_status status) m v =
      forward-Inv from_id status _ (apply_status-Inv status.state status m v)
  handle_request-Inv from_id PeerRequest.start_subscription m v = start_subscription-Inv from_id m v
  handle_request-Inv from_id PeerRequest.subscription_started m v =
      notify-Inv _ (reset-Inv from_id _ v)
  handle_request-Inv from_id PeerRequest.end_subscription m v = Holds-unsubscribe v from_id
  handle_request-Inv from_id PeerRequest.heartbeat m v = reset-Inv from_id m v
  handle_request-Inv from_id (PeerRequest.peers list) m v = update_peers-Inv list m v
  handle_request-Inv from_id PeerRequest.peer_list m v = v

  module _ (ch : Chooser) where
    reassign-Inv : (m : PeerManager) → Inv m → OnSome Inv (reassign_peers ent ch m)
    unfolding reassign_peers
    reassign-Inv m v = elim (Option-cases (choose_peers ch m.nodeinfo m.known)) [
      | inl failed ↦ rw (failed, reassign_peers) tt
      | inr (chosen, e) ↦ rw (e, reassign_peers) (trigger-Inv _ _ m v)
    ]

    -- If the invariant of a peer manager holds before a message then it holds after: the keys of the
    -- known peers are their ids and each stands once, subscribers and peers under watch are known,
    -- and while there are subscribers the heartbeat runs. (A failed weighted choice panics, and
    -- leaves no state.)
    pub handle_message-Inv :
        (message : PeerManagerRequest) (m : PeerManager)
        → Inv m
        → OnSome (λ r. Inv r.0) (handle_message ent ch message m)
    unfolding handle_message send_heartbeat shutdown
    handle_message-Inv PeerManagerRequest.get_subscriber_count m v = v
    handle_message-Inv PeerManagerRequest.reassign m v =
        elim (Option-cases (reassign_peers ent ch m)) [
          | inl failed ↦ rw (failed, handle_message) tt
          | inr (m', e) ↦ rw (e, handle_message) (subst (OnSome Inv) e (reassign-Inv m v))
        ]
    handle_message-Inv (PeerManagerRequest.set_notify n) m v = v
    handle_message-Inv (PeerManagerRequest.request from_id body) m v =
        handle_request-Inv from_id body m v
    handle_message-Inv PeerManagerRequest.start_heartbeats m v = heartbeats-Inv m v
    handle_message-Inv PeerManagerRequest.send_heartbeat m v = v
    handle_message-Inv PeerManagerRequest.shutdown m v = v

    -- A message is handled without a panic, unless it is `Reassign` and the weighted choice fails.
    pub handle_message_panics_iff :
        (message : PeerManagerRequest) (m : PeerManager)
        → (handle_message ent ch message m ≡ none)
          ↔ ((message ≡ PeerManagerRequest.reassign) × (choose_peers ch m.nodeinfo m.known ≡ none))
    unfolding handle_message reassign_peers
    handle_message_panics_iff PeerManagerRequest.reassign m = ground arith
    handle_message_panics_iff message m = (λ e. cc, λ h. cc (h.0))
