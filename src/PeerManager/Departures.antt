-- ===== src/PeerManager/Departures.antt =====
-- peer_manager.rs: what is left after a peer goes down, after a heartbeat, and after the shutdown.
use gwyh.Base.{
  ◌≡◌, ◌*◌, refl, ap, sym, ◌∙◌, Bool, true, false, Option, none, some, List, [], ◌∷◌, ◌++◌, map,
  ℕ_discrete, arith, append_assoc, append-nil, inl, inr, Option-cases, ite,
}
use gwyh.Base.Dict.{Dict, lookup, contains_key, lookup-remove, lookup-insert}
use gwyh.Base.Dict
use gwyh.Base.Set
use gwyh.Base.Set.{contains-remove}
use gwyh.External.{Uuid, Entropy}
use gwyh.Peer.{Peer}
use gwyh.Message.{PeerRequest, down}
use gwyh.Actor.{
  Io, Delayed, Delivery, cast, call, request, to_peer_manager, to_packet_handler,
  subscribers_updated, keys_updated,
}
use gwyh.PeerManager.State.{
  PeerManager, watchdog_for, reset_heartbeat_watchdog, start_reassign_timer, send_each,
}
use gwyh.PeerManager.Subscriptions.{keys_of, remove_peer, shutdown}
use gwyh.PeerManager.Reassign.{requests, request_sent, ended, filter_map-append}

pub start_reassign_timer-out :
    (ent : Entropy) (m : PeerManager) → (start_reassign_timer ent m).io.out ≡ m.io.out
unfolding start_reassign_timer
start_reassign_timer-out ent m = ground arith

-- `remove_peer` forgets the peer in every table and nobody else, but the list of subscribers that it
-- sends to the packet handler is that of before: a subscriber that is removed is still on it. The
-- keys that it sends are those after the removal.
pub remove_peer_lem :
    (ent : Entropy) (p : Peer) (m : PeerManager)
    → let m' = remove_peer ent p m in
      ((j : Uuid)
        → (lookup ℕ_discrete j m'.known
            ≡ ite (ℕ_discrete p.id j) none (lookup ℕ_discrete j m.known))
          × (Set.contains ℕ_discrete j m'.subscribers
              ≡ ite (ℕ_discrete p.id j) false (Set.contains ℕ_discrete j m.subscribers))
          × (Set.contains ℕ_discrete j m'.subscribed_to
              ≡ ite (ℕ_discrete p.id j) false (Set.contains ℕ_discrete j m.subscribed_to))
          × (lookup ℕ_discrete j m'.heartbeat_watchdogs
              ≡ ite (ℕ_discrete p.id j) none (lookup ℕ_discrete j m.heartbeat_watchdogs)))
      × (m'.io.out
          ≡ m.io.out
            ++ to_packet_handler cast (subscribers_updated m.subscribers)
              ∷ to_packet_handler call
                  (keys_updated (keys_of (Dict.remove ℕ_discrete p.id m.known)))
              ∷ [])
unfolding remove_peer start_reassign_timer
remove_peer_lem ent p m = (
  λ j. (
    ground (arith, lookup-remove ℕ_discrete p.id j m.known),
    ground (arith, contains-remove ℕ_discrete p.id j m.subscribers),
    ground (arith, contains-remove ℕ_discrete p.id j m.subscribed_to),
    ground (arith, lookup-remove ℕ_discrete p.id j m.heartbeat_watchdogs),
  ),
  start_reassign_timer-out ent _
      ∙ append_assoc m.io.out (to_packet_handler cast (subscribers_updated m.subscribers) ∷ []) _,
)

-- The watchdog of a peer, if it is known and subscribed to: after 15 seconds it has this node tell
-- its peer manager that the peer is down.
abbrev pub watchdog_due : Uuid → Bool → Option Peer → Option Delayed
watchdog_due own_id true (some p) = some (record {
  duration = 3 * 5000;
  fires =
      to_peer_manager cast
        (request own_id (PeerRequest.peer_status (record { peer = p; state = down })))
      ∷ [];
})
watchdog_due own_id _ _ = none

-- A heartbeat from a known peer that this node is subscribed to sets its watchdog anew, which reports
-- that peer as down after the 15 seconds of three heartbeats; one from any other removes its watchdog. The
-- watchdogs of the others stay.
pub reset_heartbeat_watchdog_lem :
    (id j : Uuid) (m : PeerManager)
    → lookup ℕ_discrete j (reset_heartbeat_watchdog id m).heartbeat_watchdogs
      ≡ ite
          (ℕ_discrete id j)
          (watchdog_due m.nodeinfo.id
            (Set.contains ℕ_discrete id m.subscribed_to)
            (lookup ℕ_discrete id m.known))
          (lookup ℕ_discrete j m.heartbeat_watchdogs)
unfolding reset_heartbeat_watchdog
reset_heartbeat_watchdog_lem id j m = elim (Option-cases (lookup ℕ_discrete id m.known)) [
  | inl absent ↦ ground (arith, absent, lookup-remove ℕ_discrete id j m.heartbeat_watchdogs)
  | inr (p, found) ↦ ground (
    arith,
    found,
    lookup-remove ℕ_discrete id j m.heartbeat_watchdogs,
    lookup-insert ℕ_discrete id j (watchdog_for m.nodeinfo p) m.heartbeat_watchdogs,
  )
]

module _ (ent : Entropy) where
  send_each-requests :
      (d : Delivery) (body : PeerRequest) (ids : List Uuid) (io : Io)
      → requests (send_each ent d body ids io).out ≡ requests io.out ++ map (λ id. (id, body)) ids
  unfolding send_each requests
  send_each-requests d body [] io = sym (append-nil _)
  send_each-requests d body (id ∷ ids) io =
      send_each-requests d body ids _
      ∙ ap (λ l. l ++ map (λ id. (id, body)) ids) (filter_map-append request_sent io.out _)
      ∙ append_assoc (requests io.out) _ _

  -- The shutdown tells every peer that this node is subscribed to, and forgets the subscriptions. The
  -- heartbeat and the watchdogs go on.
  pub shutdown_lem :
      (m : PeerManager)
      → let m' = shutdown ent m in
        (requests m'.io.out ≡ requests m.io.out ++ ended m.subscribed_to)
        × (m'.subscribed_to ≡ [])
        × (m'.heartbeat_watchdogs ≡ m.heartbeat_watchdogs)
        × (m'.heartbeat ≡ m.heartbeat)
  unfolding shutdown
  shutdown_lem m =
      (send_each-requests call PeerRequest.end_subscription m.subscribed_to m.io, refl, refl, refl)
