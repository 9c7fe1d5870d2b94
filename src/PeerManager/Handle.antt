-- ===== src/PeerManager/Handle.antt =====
-- peer_manager.rs: `reassign` and `handle_message`. `none` is a panic of the handler, which only a
-- failed weighted choice causes.
use gwyh.Base.{ℕ, Option, none, some, ℕ_discrete, ◌==◌, if◌then◌else◌, length}
use gwyh.Base.Set
use gwyh.External.{Uuid, Entropy}
use gwyh.Message.{
  PeerStatus, PeerState, up, down, PeerRequest, peer_list, peers, peer_status, subscription_started,
  end_subscription, heartbeat,
}
use gwyh.Actor.{
  PeerManagerRequest, request, set_notify, reassign, start_heartbeats, send_heartbeat, shutdown,
  get_subscriber_count, cast, emit, to_packet_handler, broadcast_peer_status, notify_one,
}
use gwyh.PeerManager.State.{PeerManager, reset_heartbeat_watchdog}
use gwyh.PeerManager.State
use gwyh.PeerManager.Choose.{Chooser, choose_peers}
use gwyh.PeerManager.Subscriptions
use gwyh.PeerManager.Subscriptions.{add_peer, remove_peer, update_peers, send_peerlist}

pub data PeerManagerResponse : Type 0 where
  subscriber_count : ℕ → PeerManagerResponse
  ok : PeerManagerResponse

-- `notify_ready.take()`, and `notify_one` on what was there.
unfoldable pub notify : PeerManager → PeerManager
unfolding emit
notify m = elim m.notify_ready [
  | none ↦ m
  | some ready ↦ record m { notify_ready = none; io = emit (notify_one ready) m.io }
]

-- A status that originated here goes on to the subscribers.
unfoldable pub forward_status : Uuid → PeerStatus → PeerManager → PeerManager
unfolding emit
forward_status from_id status m =
    if from_id == m.nodeinfo.id
    then record m { io = emit (to_packet_handler cast (broadcast_peer_status status)) m.io }
    else m

module _ (ent : Entropy) where
  unfoldable pub apply_status : PeerState → PeerStatus → PeerManager → PeerManager
  unfolding add_peer remove_peer
  apply_status up status m = add_peer ent status.peer m
  apply_status down status m = remove_peer ent status.peer m

  unfoldable pub handle_request : Uuid → PeerRequest → PeerManager → PeerManager
  unfolding apply_status forward_status notify reset_heartbeat_watchdog
  handle_request from_id (peer_status status) m =
      forward_status from_id status (apply_status status.state status m)
  handle_request from_id PeerRequest.start_subscription m =
      Subscriptions.start_subscription ent from_id m
  handle_request from_id subscription_started m =
      notify (Subscriptions.subscription_started from_id m)
  handle_request from_id end_subscription m = Subscriptions.end_subscription from_id m
  handle_request from_id heartbeat m = reset_heartbeat_watchdog from_id m
  handle_request from_id (peers list) m = update_peers ent list m
  handle_request from_id peer_list m = send_peerlist ent from_id m

  module _ (ch : Chooser) where
    unfoldable pub reassign_peers : PeerManager → Option PeerManager
    unfolding choose_peers
    reassign_peers m = elim (choose_peers ch m.nodeinfo m.known) [
      | none ↦ none
      | some new_assignments ↦ some (
          Subscriptions.trigger_reassignment ent
            (Set.difference ℕ_discrete new_assignments m.subscribed_to)
            (Set.difference ℕ_discrete m.subscribed_to new_assignments) m)
    ]

    unfoldable pub handle_message :
        PeerManagerRequest → PeerManager → Option (PeerManager × PeerManagerResponse)
    unfolding handle_request reassign_peers
    handle_message get_subscriber_count m = some (m, subscriber_count (length m.subscribers))
    handle_message reassign m = elim (reassign_peers m) [ none ↦ none | some m' ↦ some (m', ok) ]
    handle_message (set_notify ready) m = some (record m { notify_ready = some ready }, ok)
    handle_message (request from_id body) m = some (handle_request from_id body m, ok)
    handle_message start_heartbeats m = some (State.start_heartbeats m, ok)
    handle_message send_heartbeat m = some (Subscriptions.send_heartbeat ent m, ok)
    handle_message shutdown m = some (Subscriptions.shutdown ent m, ok)
