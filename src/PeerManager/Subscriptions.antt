-- ===== src/PeerManager/Subscriptions.antt =====
-- peer_manager.rs: the operations on the known peers and on the subscriptions of both directions.
use gwyh.Base.{
  ℕ, ◌+◌, Bool, true, Option, none, some, List, [], ◌∷◌, ℕ_discrete, ltb, if◌then◌else◌, filter_map,
}
use gwyh.Base.Dict.{Dict, lookup, insert, contains_key, values}
use gwyh.Base.Dict
use gwyh.Base.Set
use gwyh.External.{Uuid, Entropy}
use gwyh.Peer.{Peer, is_handshaken}
use gwyh.Message.{PeerRequest}
use gwyh.Actor.{
  Io, PeerKeys, cast, call, emit, to_packet_handler, to_handshaker, keys_updated,
  subscribers_updated, bootstrap, send_hello, start_subscription as then_start_subscription,
}
use gwyh.PeerManager.State.{
  PeerManager, send_request, send_each, start_reassign_timer, start_heartbeats,
  stop_heartbeat_watchdog, reset_heartbeat_watchdog,
}

-- The entry of `update_keys`. Its filter lets pass the peers with both keys, so that neither `unwrap`
-- after it fails: there is an entry exactly for those (`peer_keys-is_handshaken` of
-- PeerManager/Keys.antt).
unfoldable pub peer_keys : Uuid × Peer → Option (Uuid × PeerKeys)
peer_keys (_, p) = elim p.our_keypair [
  | none ↦ none
  | some keypair ↦ elim p.their_public_key [
    | none ↦ none
    | some public_key ↦ some (p.id, (p.sockaddr, keypair, public_key))
  ]
]

-- `HashMap::from_iter`: a later entry replaces an earlier one with its key.
unfoldable pub from_entries : List (Uuid × PeerKeys) → Dict Uuid PeerKeys → Dict Uuid PeerKeys
from_entries [] m = m
from_entries ((k, v) ∷ l) m = from_entries l (insert ℕ_discrete k v m)

unfoldable pub keys_of : Dict Uuid Peer → Dict Uuid PeerKeys
unfolding from_entries peer_keys
keys_of known = from_entries (filter_map peer_keys known) []

unfoldable pub update_keys : PeerManager → PeerManager
unfolding emit keys_of
update_keys m = record m {
  io = emit (to_packet_handler call (keys_updated (keys_of m.known))) m.io;
}

unfoldable pub update_subscribers : PeerManager → PeerManager
unfolding emit
update_subscribers m = record m {
  io = emit (to_packet_handler cast (subscribers_updated m.subscribers)) m.io;
}

-- Last write wins for peer keys, with what is known under the id of the peer.
unfoldable pub replaces : Peer → Option Peer → Bool
unfolding is_handshaken
replaces peer none = true
replaces peer (some existing) = elim existing.handshake_timestamp [
  | none ↦ is_handshaken peer
  | some existing_ts ↦ elim peer.handshake_timestamp [
    | none ↦ is_handshaken peer
    | some new_ts ↦ ltb existing_ts new_ts
  ]
]

unfoldable pub merge_peer : Peer → Dict Uuid Peer → Dict Uuid Peer
unfolding replaces
merge_peer peer known =
    if replaces peer (lookup ℕ_discrete peer.id known)
    then insert ℕ_discrete peer.id peer known
    else known

-- `try_insert` of each peer: what is known stays. The result counts the peers added.
unfoldable pub add_unknown : List Peer → Dict Uuid Peer → ℕ × Dict Uuid Peer
add_unknown [] known = (0, known)
add_unknown (peer ∷ peers) known =
    let (added, rest) = add_unknown peers (
      if contains_key ℕ_discrete peer.id known
      then known
      else insert ℕ_discrete peer.id peer known) in
    (if contains_key ℕ_discrete peer.id known then added else added + 1, rest)

unfoldable pub end_subscription : Uuid → PeerManager → PeerManager
unfolding update_subscribers
end_subscription id m =
    update_subscribers (record m { subscribers = Set.remove ℕ_discrete id m.subscribers })

unfoldable pub subscription_started : Uuid → PeerManager → PeerManager
unfolding reset_heartbeat_watchdog
subscription_started id m =
    reset_heartbeat_watchdog id
      (record m { subscribed_to = Set.insert ℕ_discrete id m.subscribed_to })

module _ (ent : Entropy) where
  unfoldable pub add_peer : Peer → PeerManager → PeerManager
  unfolding merge_peer update_keys start_reassign_timer
  add_peer peer m =
      start_reassign_timer ent (update_keys (record m { known = merge_peer peer m.known }))

  unfoldable pub remove_peer : Peer → PeerManager → PeerManager
  unfolding update_subscribers stop_heartbeat_watchdog update_keys start_reassign_timer
  remove_peer peer m =
      let stopped = stop_heartbeat_watchdog peer.id (update_subscribers m) in
      start_reassign_timer ent (
        update_keys (record stopped {
          subscribed_to = Set.remove ℕ_discrete peer.id stopped.subscribed_to;
          subscribers = Set.remove ℕ_discrete peer.id stopped.subscribers;
          known = Dict.remove ℕ_discrete peer.id stopped.known;
        }))

  unfoldable pub update_peers : List Peer → PeerManager → PeerManager
  unfolding add_unknown start_reassign_timer
  update_peers peers m =
      let (added, known) = add_unknown peers m.known in
      if ltb 0 added
      then start_reassign_timer ent (record m { known = known })
      else record m { known = known }

  unfoldable pub send_peerlist : Uuid → PeerManager → PeerManager
  unfolding send_request
  send_peerlist to m = record m {
    io = send_request ent cast to (PeerRequest.peers (values m.known)) m.io;
  }

  unfoldable pub send_heartbeat : PeerManager → PeerManager
  unfolding send_each emit
  send_heartbeat m = record m {
    io =
        send_each ent cast PeerRequest.heartbeat m.subscribers
          (elim m.subscribed_to [ [] ↦ emit (to_handshaker cast bootstrap) m.io | _ ∷ _ ↦ m.io ]);
  }

  unfoldable pub start_subscription : Uuid → PeerManager → PeerManager
  unfolding update_subscribers start_heartbeats send_request
  start_subscription id m =
      let entered = record m {
        subscribers =
            if contains_key ℕ_discrete id m.known
            then Set.insert ℕ_discrete id m.subscribers
            else Set.remove ℕ_discrete id m.subscribers;
      } in
      let beating = start_heartbeats (update_subscribers entered) in
      record beating { io = send_request ent cast id PeerRequest.subscription_started beating.io }

  -- The round of the loop over the added peers: a peer with keys is asked at once, another one after
  -- a handshake.
  unfoldable pub start_one : Dict Uuid Peer → Uuid → Io → Io
  unfolding is_handshaken send_request emit
  start_one known id io = elim (lookup ℕ_discrete id known) [
    | none ↦ io
    | some peer ↦
        if is_handshaken peer
        then send_request ent cast id PeerRequest.start_subscription io
        else emit
            (to_handshaker cast (send_hello peer.sockaddr (some (then_start_subscription id)))) io
  ]

  unfoldable pub start_added : Dict Uuid Peer → List Uuid → Io → Io
  unfolding start_one
  start_added known [] io = io
  start_added known (id ∷ ids) io = start_added known ids (start_one known id io)

  -- The loop over the removed peers.
  unfoldable pub end_removed : List Uuid → PeerManager → PeerManager
  unfolding send_request stop_heartbeat_watchdog
  end_removed [] m = m
  end_removed (id ∷ ids) m =
      let told = record m { io = send_request ent cast id PeerRequest.end_subscription m.io } in
      let stopped = stop_heartbeat_watchdog id told in
      end_removed ids
        (record stopped { subscribed_to = Set.remove ℕ_discrete id stopped.subscribed_to })

  unfoldable pub trigger_reassignment : List Uuid → List Uuid → PeerManager → PeerManager
  unfolding start_added end_removed
  trigger_reassignment added_peers removed_peers m =
      end_removed removed_peers (record m { io = start_added m.known added_peers m.io })

  unfoldable pub shutdown : PeerManager → PeerManager
  unfolding send_each
  shutdown m = record m {
    io = send_each ent call PeerRequest.end_subscription m.subscribed_to m.io;
    subscribed_to = [];
  }
