-- ===== src/PeerManager/Tests.antt =====
-- peer_manager.rs: two known peers, one of them subscribed to.
use gwyh.Base.{
  ℕ, zero, suc, ◌≤◌, ◌≡◌, ◌≢◌, refl, ap, sym, ◌∙◌, true, false, not, ◌&&◌, none, some, List, [],
  ◌∷◌, ◌++◌, map, filter, filter_map, ite, ℕ_discrete, arith, length, min, OnSome, ◌>>=◌,
}
use gwyh.Base.Dict.{Dict, lookup, remove, contains_key}
use gwyh.Base.Set.{contains, insert, from_iter, difference}
use gwyh.External.{Uuid, uuid_lsb, Zone-discrete, Bytes-discrete}
use gwyh.Peer.{Peer, is_handshaken, without_secrets}
use gwyh.Actor.{
  PeerKeys, PeerManagerRequest, to_packet_handler, cast, call, keys_updated, subscribers_updated,
}
use gwyh.Message.{PeerRequest}
use gwyh.Samples.{entropy, node, peer, first}
use gwyh.Samples.Wire.{chooser}
use gwyh.PeerManager.State.{PeerManager, new, watchdog_for, reset_heartbeat_watchdog}
use gwyh.PeerManager.Choose.{
  peer_id, same_zone, chunk_by_zone, choose_each, choose_peers, choose_by_strategy, choose_uniform,
  candidates,
}
use gwyh.PeerManager.Subscriptions.{merge_peer, update_keys, keys_of, remove_peer, shutdown}
use gwyh.PeerManager.Handle.{handle_message, reassign_peers}
use gwyh.PeerManager.Invariant.{Inv}
use gwyh.PeerManager.Preserve.{handle_message-Inv}
use gwyh.PeerManager.Keys.{keys_with, update_keys_lem}
use gwyh.PeerManager.LastWrite.{merge_peer-without_secrets, merge_peer_comm}
use gwyh.PeerManager.Reassign.{requests, hellos, start_now, start_later, ended, reassign_peers_lem}
use gwyh.PeerManager.Candidates.{Chooses}
use gwyh.PeerManager.Assignments.{limit, choose_peers-known, length-choose_peers}
use gwyh.PeerManager.Zones.{Alternates, runs, choose_each-Alternates, length-choose_each-runs}
use gwyh.PeerManager.Departures.{
  remove_peer_lem, watchdog_due, reset_heartbeat_watchdog_lem, shutdown_lem,
}

contains-first :
    (j : Uuid) (n : ℕ) (l : List Uuid)
    → contains ℕ_discrete j (first n l) ≡ true
    → contains ℕ_discrete j l ≡ true
unfolding contains
contains-first j zero l h = absurd (ground (arith, h))
contains-first j (suc n) [] h = h
contains-first j (suc n) (x ∷ l) h = ground (arith, h, contains-first j n l)

length-first {ℓ} : {A : Type ℓ} (n : ℕ) (l : List A) → length (first n l) ≡ min n (length l)
length-first zero l = ground arith
length-first (suc n) [] = ground arith
length-first (suc n) (x ∷ l) = ground (arith, length-first n l)

map-first : (n : ℕ) (l : List Peer) → map peer_id (first n l) ≡ first n (map peer_id l)
map-first zero l = refl
map-first (suc n) [] = refl
map-first (suc n) (x ∷ l) = ground (arith, map-first n l)

weighted-from :
    (j : Uuid) (n : ℕ) (l chosen : List Peer)
    → first n l ≡ chosen
    → contains ℕ_discrete j (map peer_id chosen) ≡ true
    → contains ℕ_discrete j (map peer_id l) ≡ true
weighted-from j n l chosen e h =
    let ids : contains ℕ_discrete j (first n (map peer_id l)) ≡ true =
      ap (contains ℕ_discrete j) (sym (map-first n l) ∙ ap (map peer_id) e) ∙ h in
    contains-first j n (map peer_id l) ids

weighted-length : (n : ℕ) (l chosen : List Peer) → first n l ≡ chosen → length chosen ≤ n
weighted-length n l chosen e = ground (arith, sym (ap length e), length-first n l)

chooser-Chooses : Chooses chooser
chooser-Chooses = record {
  chosen_from = λ rng l n j h. contains-first j n l h;
  chosen_length = λ rng l n. length-first n l;
  weighted_from = λ rng l n w chosen j e h. weighted-from j n l chosen (cc) h;
  weighted_length = λ rng l n w chosen e. weighted-length n l chosen (cc);
}

abbrev bob : Peer
bob = peer 2 20 1000

abbrev carol : Peer
carol = peer 3 30 1000

abbrev manager : PeerManager
manager = record (new (node 1)) {
  known = (2, bob) ∷ (3, carol) ∷ [];
  subscribed_to = 3 ∷ [];
  heartbeat_watchdogs = (3, watchdog_for (node 1) carol) ∷ [];
}

manager-Inv : Inv manager
unfolding lookup contains new ℕ_discrete
manager-Inv = record {
  distinct = (refl, (refl, tt));
  keyed = λ id p e. ground (arith, e);
  subscribers_known = λ id h. absurd (ground (arith, h));
  watchdogs_known = λ id h. ground (arith, h);
  beating = λ id h. absurd (ground (arith, h));
}

bob_known : lookup ℕ_discrete 2 manager.known ≡ some bob
unfolding lookup ℕ_discrete
bob_known = refl

peer-is_handshaken : (id addr t : ℕ) → is_handshaken (peer id addr t) ≡ true
unfolding is_handshaken
peer-is_handshaken id addr t = refl

two_in : contains ℕ_discrete 2 (2 ∷ []) ≡ true
unfolding contains ℕ_discrete
two_in = refl

two_chosen : choose_peers chooser manager.nodeinfo manager.known ≡ some (2 ∷ [])
unfolding choose_peers choose_by_strategy choose_uniform candidates new filter uuid_lsb from_iter
    insert contains
two_chosen = refl

handle_message-Inv_example :
    OnSome
      (λ r. Inv r.0)
      (handle_message entropy chooser
        (PeerManagerRequest.request 2 PeerRequest.start_subscription)
        manager)
handle_message-Inv_example =
    handle_message-Inv entropy chooser (PeerManagerRequest.request 2 PeerRequest.start_subscription)
      manager manager-Inv

merge_peer-without_secrets_example :
    merge_peer (without_secrets (peer 2 21 2000)) manager.known ≡ manager.known
merge_peer-without_secrets_example =
    merge_peer-without_secrets (peer 2 21 2000) bob manager.known bob_known

merge_peer_comm_example :
    lookup ℕ_discrete 2 (merge_peer (peer 2 21 2000) (merge_peer (peer 2 22 3000) manager.known))
    ≡ lookup ℕ_discrete 2 (merge_peer (peer 2 22 3000) (merge_peer (peer 2 21 2000) manager.known))
merge_peer_comm_example =
    merge_peer_comm (peer 2 21 2000) (peer 2 22 3000) manager.known refl refl refl (omega arith)
      (peer-is_handshaken 2 21 2000) (peer-is_handshaken 2 22 3000) 2

reassign_peers_lem_example :
    (m' : PeerManager) × (reassign_peers entropy chooser manager ≡ some m')
    × ((j : Uuid)
        → contains ℕ_discrete j m'.subscribed_to
          ≡ contains ℕ_discrete j (3 ∷ []) && contains ℕ_discrete j (2 ∷ []))
    × ((j : Uuid)
        → contains_key ℕ_discrete j m'.heartbeat_watchdogs
          ≡ contains_key ℕ_discrete j manager.heartbeat_watchdogs
            && not (contains ℕ_discrete j (3 ∷ []) && not (contains ℕ_discrete j (2 ∷ []))))
    × (requests m'.io.out
        ≡ (requests []
            ++ filter_map (start_now manager.known) (difference ℕ_discrete (2 ∷ []) (3 ∷ [])))
          ++ ended (difference ℕ_discrete (3 ∷ []) (2 ∷ [])))
    × (hellos m'.io.out
        ≡ hellos []
          ++ filter_map (start_later manager.known) (difference ℕ_discrete (2 ∷ []) (3 ∷ [])))
unfolding new
reassign_peers_lem_example = reassign_peers_lem entropy chooser manager (2 ∷ []) two_chosen

choose_peers-known_example :
    (contains_key ℕ_discrete 2 manager.known ≡ true) × (2 ≢ manager.nodeinfo.id)
choose_peers-known_example =
    choose_peers-known chooser chooser-Chooses manager.nodeinfo manager.known (2 ∷ []) 2
      manager-Inv.distinct manager-Inv.keyed two_chosen two_in

length-choose_peers_example :
    length {A = Uuid} (2 ∷ [])
    ≤ limit chooser chooser-Chooses manager.nodeinfo manager.known
        manager.nodeinfo.distribution_strategy
length-choose_peers_example =
    length-choose_peers chooser chooser-Chooses manager.nodeinfo manager.known (2 ∷ []) two_chosen

update_keys_lem_example :
    (keys : Dict Uuid PeerKeys) × (update_keys manager ≡ record manager {
      io = record manager.io { out = to_packet_handler call (keys_updated keys) ∷ [] };
    })
    × ((id : Uuid) → lookup ℕ_discrete id keys ≡ (lookup ℕ_discrete id manager.known >>= keys_with))
unfolding new
update_keys_lem_example = update_keys_lem manager manager-Inv

remove_peer_lem_example :
    let m' = remove_peer entropy bob manager in
    ((j : Uuid)
      → (lookup ℕ_discrete j m'.known
          ≡ ite (ℕ_discrete 2 j) none (lookup ℕ_discrete j manager.known))
        × (contains ℕ_discrete j m'.subscribers
            ≡ ite (ℕ_discrete 2 j) false (contains ℕ_discrete j manager.subscribers))
        × (contains ℕ_discrete j m'.subscribed_to
            ≡ ite (ℕ_discrete 2 j) false (contains ℕ_discrete j manager.subscribed_to))
        × (lookup ℕ_discrete j m'.heartbeat_watchdogs
            ≡ ite (ℕ_discrete 2 j) none (lookup ℕ_discrete j manager.heartbeat_watchdogs)))
    × (m'.io.out
        ≡ manager.io.out
          ++ to_packet_handler cast (subscribers_updated manager.subscribers)
            ∷ to_packet_handler call (keys_updated (keys_of (remove ℕ_discrete 2 manager.known)))
            ∷ [])
remove_peer_lem_example = remove_peer_lem entropy bob manager

reset_heartbeat_watchdog_lem_example :
    lookup ℕ_discrete 3 (reset_heartbeat_watchdog 3 manager).heartbeat_watchdogs
    ≡ ite
        (ℕ_discrete 3 3)
        (watchdog_due manager.nodeinfo.id
          (contains ℕ_discrete 3 manager.subscribed_to)
          (lookup ℕ_discrete 3 manager.known))
        (lookup ℕ_discrete 3 manager.heartbeat_watchdogs)
reset_heartbeat_watchdog_lem_example = reset_heartbeat_watchdog_lem 3 3 manager

shutdown_lem_example :
    let m' = shutdown entropy manager in
    (requests m'.io.out ≡ requests manager.io.out ++ ended (3 ∷ []))
    × (m'.subscribed_to ≡ [])
    × (m'.heartbeat_watchdogs ≡ manager.heartbeat_watchdogs)
    × (m'.heartbeat ≡ manager.heartbeat)
shutdown_lem_example = shutdown_lem entropy manager

-- Three remote peers, the first and the last of them in one zone.
abbrev spread : List Peer
spread =
    record (peer 2 20 1000) { zone = some (1 ∷ []) }
    ∷ record (peer 3 30 1000) { zone = some (2 ∷ []) }
    ∷ record (peer 4 40 1000) { zone = some (1 ∷ []) }
    ∷ []

spread-Alternates : Alternates spread
unfolding same_zone Zone-discrete Bytes-discrete ℕ_discrete
spread-Alternates = (refl, (refl, tt))

choose_each-Alternates_example : (choose_each chooser 0 (chunk_by_zone spread)).0 ≡ 2 ∷ 3 ∷ 4 ∷ []
choose_each-Alternates_example =
    choose_each-Alternates chooser chooser-Chooses 0 spread spread-Alternates

length-choose_each-runs_example :
    length (choose_each chooser 0 (chunk_by_zone spread)).0 ≡ runs spread
length-choose_each-runs_example = length-choose_each-runs chooser chooser-Chooses 0 spread
