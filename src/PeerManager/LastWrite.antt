-- ===== src/PeerManager/LastWrite.antt =====
-- peer_manager.rs, `add_peer`: which of two writes for one peer stays.
use gwyh.Base.{◌≡◌, ◌≢◌, some, ℕ_discrete, arith, true, if◌then◌else◌}
use gwyh.Base.Dict.{Dict, lookup, lookup-insert, insert}
use gwyh.External.{Uuid, Timestamp}
use gwyh.Peer.{Peer, is_handshaken, without_secrets}
use gwyh.PeerManager.Subscriptions.{merge_peer, replaces}

-- A peer that is reported as up over the network carries no keys and no timestamp, and so its merge
-- leaves what is known as it is when its id is known.
pub merge_peer-without_secrets :
    (p existing : Peer) (known : Dict Uuid Peer)
    → lookup ℕ_discrete p.id known ≡ some existing
    → merge_peer (without_secrets p) known ≡ known
unfolding merge_peer replaces without_secrets is_handshaken
merge_peer-without_secrets p existing known e = ground arith

-- What is known under an id after a merge.
lookup-merge_peer :
    (p : Peer) (known : Dict Uuid Peer) (id : Uuid)
    → lookup ℕ_discrete id (merge_peer p known) ≡ (
        if replaces p (lookup ℕ_discrete p.id known)
        then lookup ℕ_discrete id (insert ℕ_discrete p.id p known)
        else lookup ℕ_discrete id known)
unfolding merge_peer
lookup-merge_peer p known id = ground arith

-- Two completed handshakes with one node, begun at different times, may be reported in either
-- order: what is known under every id is the same in the end.
pub merge_peer_comm :
    (p q : Peer) (known : Dict Uuid Peer) {tp tq : Timestamp}
    → p.id ≡ q.id
    → p.handshake_timestamp ≡ some tp
    → q.handshake_timestamp ≡ some tq
    → tp ≢ tq
    → is_handshaken p ≡ true
    → is_handshaken q ≡ true
    → (id : Uuid)
    → lookup ℕ_discrete id (merge_peer p (merge_peer q known))
      ≡ lookup ℕ_discrete id (merge_peer q (merge_peer p known))
unfolding merge_peer replaces
merge_peer_comm p q known same hp hq apart kp kq id = ground (
  arith,
  lookup-insert ℕ_discrete p.id id p known,
  lookup-insert ℕ_discrete q.id id q known,
  lookup-insert ℕ_discrete p.id q.id p known,
  lookup-insert ℕ_discrete q.id p.id q known,
  lookup-insert ℕ_discrete p.id id p (insert ℕ_discrete q.id q known),
  lookup-insert ℕ_discrete q.id id q (insert ℕ_discrete p.id p known),
)
