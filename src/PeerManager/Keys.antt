-- ===== src/PeerManager/Keys.antt =====
-- peer_manager.rs: which keys `update_keys` sends to the packet handler.
use gwyh.Base.{
  is_some, Option-cases, inl, inr, ◌≡◌, refl, Option, none, some, [], ◌∷◌, ◌++◌, ℕ_discrete, arith,
  ◌>>=◌, filter_map, false,
}
use gwyh.Base.Dict.{Dict, lookup, contains_key, Distinct, lookup-insert, insert}
use gwyh.External.{Uuid}
use gwyh.Peer.{Peer}
use gwyh.Actor.{PeerKeys, call, to_packet_handler, keys_updated}
use gwyh.PeerManager.State.{PeerManager}
use gwyh.Peer.{is_handshaken}
use gwyh.PeerManager.Subscriptions.{peer_keys, from_entries, keys_of, update_keys}
use gwyh.PeerManager.Invariant.{Inv}

-- The address and the keys of a peer that a handshake was completed with.
abbrev pub keys_with : Peer → Option PeerKeys
keys_with p = do
  keypair ← p.our_keypair
  public_key ← p.their_public_key
  some (p.sockaddr, keypair, public_key)

abbrev or_else {ℓ} : {A : Type ℓ} → Option A → Option A → Option A
or_else none b = b
or_else (some a) b = some a

abbrev pub IsKeyed : Dict Uuid Peer → Type 0
IsKeyed known = (id : Uuid) (p : Peer) → lookup ℕ_discrete id known ≡ some p → p.id ≡ id

pub IsKeyed-head :
    (id : Uuid) (p : Peer) (known : Dict Uuid Peer) → IsKeyed ((id, p) ∷ known) → p.id ≡ id
unfolding lookup
IsKeyed-head id p known keyed = keyed id p (ground arith)

pub IsKeyed-tail :
    (id : Uuid) (p : Peer) (known : Dict Uuid Peer)
    → contains_key ℕ_discrete id known ≡ false
    → IsKeyed ((id, p) ∷ known)
    → IsKeyed known
unfolding lookup
IsKeyed-tail id p known fresh keyed j q h = ground (arith, keyed j q)

lookup-from_entries :
    (id : Uuid) (known : Dict Uuid Peer) (acc : Dict Uuid PeerKeys)
    → Distinct ℕ_discrete known
    → IsKeyed known
    → lookup ℕ_discrete id (from_entries (filter_map peer_keys known) acc)
      ≡ or_else (lookup ℕ_discrete id known >>= keys_with) (lookup ℕ_discrete id acc)
unfolding lookup from_entries filter_map peer_keys
lookup-from_entries id [] acc d keyed = refl
lookup-from_entries id ((j, p) ∷ known) acc d keyed =
    let rest = IsKeyed-tail j p known d.0 keyed in
    let own = IsKeyed-head j p known keyed in
    elim (Option-cases p.our_keypair) [
      | inl no_keypair ↦
          ground (arith, own, lookup-from_entries id known acc d.1 rest, d.0, no_keypair)
      | inr (keypair, e) ↦ elim (Option-cases p.their_public_key) [
        | inl no_key ↦
            ground (arith, own, lookup-from_entries id known acc d.1 rest, d.0, e, no_key)
        | inr (public_key, f) ↦
            let v : PeerKeys = (p.sockaddr, keypair, public_key) in
            ground (
              arith,
              own,
              lookup-from_entries id known (insert ℕ_discrete p.id v acc) d.1 rest,
              lookup-insert ℕ_discrete p.id id v acc,
              d.0,
              e,
              f,
            )
      ]
    ]

pub lookup-keys_of :
    (id : Uuid) (known : Dict Uuid Peer)
    → Distinct ℕ_discrete known
    → IsKeyed known
    → lookup ℕ_discrete id (keys_of known) ≡ (lookup ℕ_discrete id known >>= keys_with)
unfolding keys_of lookup
lookup-keys_of id known d keyed = ground (arith, lookup-from_entries id known [] d keyed)

-- While the invariant holds, `update_keys` calls the packet handler with a key table in which a peer
-- has an entry exactly when it is known with both keys, and that entry is its address, this node's
-- key pair for it and its public key. Nothing else of the peer manager changes.
pub update_keys_lem :
    (m : PeerManager)
    → Inv m
    → (keys : Dict Uuid PeerKeys) × (update_keys m ≡ record m {
      io = record m.io { out = m.io.out ++ to_packet_handler call (keys_updated keys) ∷ [] };
    })
      × ((id : Uuid) → lookup ℕ_discrete id keys ≡ (lookup ℕ_discrete id m.known >>= keys_with))
unfolding update_keys
update_keys_lem m v = (keys_of m.known, refl, λ id. lookup-keys_of id m.known v.distinct v.keyed)

-- The filter and the unwraps of `update_keys` agree.
peer_keys-is_handshaken : (id : Uuid) (p : Peer) → is_some (peer_keys (id, p)) ≡ is_handshaken p
unfolding peer_keys is_handshaken
peer_keys-is_handshaken id p = ground arith
