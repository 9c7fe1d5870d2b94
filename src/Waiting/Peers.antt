-- ===== src/Waiting/Peers.antt =====
-- peer_manager.rs: the peer manager calls the packet handler only.
use gwyh.Base.{
  ◌≡◌, ap, ℕ, suc, ◌<◌, OnSome, List, [], ◌∷◌, ℕ_discrete, arith, Bool-cases, Option-cases, inl,
  inr,
}
use gwyh.Base.Dict.{Dict, lookup}
use gwyh.Base.Set
use gwyh.External.{Uuid, Entropy}
use gwyh.Peer.{Peer, is_handshaken}
use gwyh.Message.{PeerRequest, PeerStatus}
use gwyh.Actor.{
  Effect, PeerKeys, request, Io, to_packet_handler, keys_updated, send_hello, cast, call,
  PeerManagerRequest, emit, to_handshaker, bootstrap,
}
use gwyh.PeerManager.State.{PeerManager, stop_heartbeat_watchdog}
use gwyh.PeerManager.Choose.{Chooser, choose_peers}
use gwyh.PeerManager.Subscriptions.{
  send_heartbeat, start_one, start_added, end_removed, trigger_reassignment, shutdown,
}
use gwyh.PeerManager.Handle.{reassign_peers, handle_message}
use gwyh.Waiting.{AllBelow, CallsBelow, Fits, AllOut, IsPlain, peer_level, emit-AllOut}
use gwyh.Waiting.PeerRequests.{
  Keeps, heartbeats-Keeps, request-Keeps, each-Keeps, handle_request-Keeps,
}

module _ (ent : Entropy) (P : Effect → Type 0) (top : ℕ)
    (fits : (e : Effect) → Fits 1 top e → IsPlain e → P e) (high : 2 < top) where
  one-Keeps :
      (known : Dict Uuid Peer) (id : Uuid) (io : Io)
      → AllOut P io
      → AllOut P (start_one ent known id io)
  unfolding start_one
  one-Keeps known id io v = elim (Option-cases (lookup ℕ_discrete id known)) [
    | inl e ↦ rw (e, start_one) v
    | inr (p, e) ↦ elim (Bool-cases (is_handshaken p)) [
      | inl k ↦
          rw (e, start_one, k)
            (request-Keeps ent P top fits (omega arith) cast id PeerRequest.start_subscription io v)
      | inr k ↦
          rw (e, start_one, k)
            (emit-AllOut P _ io (fits (to_handshaker cast (send_hello _ _)) (tt, high) tt) v)
    ]
  ]

  added-Keeps :
      (known : Dict Uuid Peer) (ids : List Uuid) (io : Io)
      → AllOut P io
      → AllOut P (start_added ent known ids io)
  unfolding start_added
  added-Keeps known [] io v = v
  added-Keeps known (id ∷ ids) io v = added-Keeps known ids _ (one-Keeps known id io v)

  removed-Keeps : (ids : List Uuid) (m : PeerManager) → Keeps P m (end_removed ent ids m)
  unfolding end_removed stop_heartbeat_watchdog
  removed-Keeps [] m v = v
  removed-Keeps (id ∷ ids) m v =
      removed-Keeps ids _
        (request-Keeps ent P top fits (omega arith) cast id PeerRequest.end_subscription m.io v)

  bootstrap-Keeps :
      (subscribed_to : List Uuid) (io : Io)
      → AllOut P io
      → AllOut P (elim subscribed_to [ [] ↦ emit (to_handshaker cast bootstrap) io | _ ∷ _ ↦ io ])
  bootstrap-Keeps [] io v =
      emit-AllOut P (to_handshaker cast bootstrap) io
        (fits (to_handshaker cast bootstrap) (tt, high) tt) v
  bootstrap-Keeps (id ∷ ids) io v = v

  heartbeat-Keeps : (m : PeerManager) → Keeps P m (send_heartbeat ent m)
  unfolding send_heartbeat
  heartbeat-Keeps m v =
      each-Keeps ent P top fits (omega arith) cast PeerRequest.heartbeat m.subscribers _
        (bootstrap-Keeps m.subscribed_to m.io v)

module _ (ent : Entropy) (ch : Chooser) where
  pub handle_message-Keeps :
      (P : Effect → Type 0) (top : ℕ) (fits : (e : Effect) → Fits 1 top e → IsPlain e → P e)
      (message : PeerManagerRequest)
      (updates : (from_id : Uuid) (status : PeerStatus)
        → message ≡ request from_id (PeerRequest.peer_status status)
        → (k : Dict Uuid PeerKeys) → P (to_packet_handler call (keys_updated k)))
      (bound : peer_level message < suc top) (m : PeerManager)
      → AllOut P m.io
      → OnSome (λ r. AllOut P r.0.io) (handle_message ent ch message m)
  unfolding handle_message reassign_peers trigger_reassignment shutdown
  handle_message-Keeps P top fits PeerManagerRequest.get_subscriber_count updates bound m v = v
  handle_message-Keeps P top fits PeerManagerRequest.reassign updates bound m v =
      elim (Option-cases (choose_peers ch m.nodeinfo m.known)) [
        | inl e ↦ rw (e, handle_message, reassign_peers) tt
        | inr (chosen, e) ↦
            rw (e, handle_message, reassign_peers)
              (let added = Set.difference ℕ_discrete chosen m.subscribed_to in
                removed-Keeps ent P top fits (omega arith)
                  (Set.difference ℕ_discrete m.subscribed_to chosen)
                  (record m { io = start_added ent m.known added m.io })
                  (added-Keeps ent P top fits (omega arith) m.known added m.io v))
      ]
  handle_message-Keeps P top fits (PeerManagerRequest.set_notify n) updates bound m v = v
  handle_message-Keeps P top fits (PeerManagerRequest.request from_id body) updates bound m v =
      handle_request-Keeps ent P top fits (omega arith) from_id body
        (λ status e. updates from_id status (ap (request from_id) e)) m v
  handle_message-Keeps P top fits PeerManagerRequest.start_heartbeats updates bound m v =
      heartbeats-Keeps P top fits (omega arith) m v
  handle_message-Keeps P top fits PeerManagerRequest.send_heartbeat updates bound m v =
      heartbeat-Keeps ent P top fits (omega arith) m v
  handle_message-Keeps P top fits PeerManagerRequest.shutdown updates bound m v =
      each-Keeps ent P top fits (omega arith) call PeerRequest.end_subscription m.subscribed_to m.io
        v

  -- The peer manager waits for the packet handler only: if it has called no other actor, it has
  -- called no other one after any message that does not panic.
  pub handle_message-calls_packets :
      (message : PeerManagerRequest) (m : PeerManager)
      → AllBelow 1 m.io
      → OnSome (λ r. AllBelow 1 r.0.io) (handle_message ent ch message m)
  handle_message-calls_packets message m v =
      handle_message-Keeps (CallsBelow 1) (peer_level message) (λ e h p. h.0) message
        (λ from_id status e k. omega arith) (omega arith) m v

  -- For a message the peer manager sends only what fits its rank and the message.
  pub handle_message-Fits :
      (message : PeerManagerRequest) (m : PeerManager)
      → AllOut (Fits 1 (peer_level message)) m.io
      → OnSome (λ r. AllOut (Fits 1 (peer_level message)) r.0.io) (handle_message ent ch message m)
  handle_message-Fits message m v =
      handle_message-Keeps (Fits 1 (peer_level message)) (peer_level message) (λ e h p. h) message
        (λ from_id status e k. (omega arith, omega (arith, ap peer_level e))) (omega arith) m v
