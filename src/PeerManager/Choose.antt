-- ===== src/PeerManager/Choose.antt =====
-- peer_manager.rs, `choose_peers`: which known peers to subscribe to. The random choices are those
-- of the crates rand and rand_chacha, and a parameter.
use gwyh.Base.{
  ℕ, ◌-◌, Bool, true, false, not, Option, none, some, List, [], ◌∷◌, ◌++◌, map, ℕ_discrete, ◌==◌,
  if◌then◌else◌, length, filter,
}
use gwyh.Base.Dict.{Dict, values}
use gwyh.Base.Set
use gwyh.External.{Uuid, Text, Zone-discrete, uuid_lsb}
use gwyh.NodeInfo.{
  NodeInfo, DistributionStrategy, uniform, hub_and_spoke, prefer_local, prefer_remote,
}
use gwyh.Peer.{Peer}

-- The states of `ChaCha8Rng` are opaque and stand as numbers. `choose_multiple` is that of
-- `IteratorRandom`; `choose_multiple_weighted` is that of `SliceRandom`, `none` for its error.
pub record Chooser : Type 0 where
  pub seed_from_u64 : ℕ → ℕ
  pub choose_multiple : ℕ → List Uuid → ℕ → List Uuid × ℕ
  pub choose_multiple_weighted : ℕ → List Peer → ℕ → (Peer → ℕ) → Option (List Peer)

abbrev pub peer_id : Peer → Uuid
peer_id p = p.id

unfoldable pub same_zone : Option Text → Option Text → Bool
unfolding Zone-discrete
same_zone a b = elim (Zone-discrete a b) [ yes _ ↦ true | no _ ↦ false ]

-- `slice.chunk_by(|a, b| a.zone() == b.zone())`: the runs of neighbours in one zone.
unfoldable pub push_chunk : Peer → List (List Peer) → List (List Peer)
unfolding same_zone
push_chunk p [] = (p ∷ []) ∷ []
push_chunk p ([] ∷ chunks) = (p ∷ []) ∷ chunks
push_chunk p ((q ∷ chunk) ∷ chunks) =
    if same_zone p.zone q.zone then (p ∷ q ∷ chunk) ∷ chunks else (p ∷ []) ∷ (q ∷ chunk) ∷ chunks

unfoldable pub chunk_by_zone : List Peer → List (List Peer)
unfolding push_chunk
chunk_by_zone [] = []
chunk_by_zone (p ∷ ps) = push_chunk p (chunk_by_zone ps)

-- All known peers but this node.
unfoldable pub candidates : NodeInfo → Dict Uuid Peer → List Peer
candidates nodeinfo known = filter (λ p. not (p.id == nodeinfo.id)) (values known)

unfoldable pub local_peers : NodeInfo → Dict Uuid Peer → List Peer
unfolding candidates same_zone
local_peers nodeinfo known =
    filter (λ p. same_zone p.zone nodeinfo.zone) (candidates nodeinfo known)

unfoldable pub remote_peers : NodeInfo → Dict Uuid Peer → List Peer
unfolding candidates same_zone
remote_peers nodeinfo known =
    filter (λ p. not (same_zone p.zone nodeinfo.zone)) (candidates nodeinfo known)

module _ (ch : Chooser) where
  -- One choice from each chunk, threading the generator.
  unfoldable pub choose_each : ℕ → List (List Peer) → List Uuid × ℕ
  choose_each rng [] = ([], rng)
  choose_each rng (chunk ∷ chunks) =
      let (chosen, rng') = ch.choose_multiple rng (map peer_id chunk) 1 in
      let (rest, rng'') = choose_each rng' chunks in (chosen ++ rest, rng'')

  unfoldable pub choose_uniform : NodeInfo → Dict Uuid Peer → List Uuid
  unfolding candidates
  choose_uniform nodeinfo known =
      Set.from_iter ℕ_discrete
        (ch.choose_multiple (ch.seed_from_u64 (uuid_lsb nodeinfo.id))
          (map peer_id (candidates nodeinfo known)) nodeinfo.peer_subscriptions).0

  -- One peer for each run of remote peers in a zone, and local peers for what remains.
  unfoldable pub choose_hub_and_spoke : NodeInfo → Dict Uuid Peer → List Uuid
  unfolding choose_each local_peers remote_peers chunk_by_zone
  choose_hub_and_spoke nodeinfo known =
      let (remote, rng) =
        choose_each (ch.seed_from_u64 (uuid_lsb nodeinfo.id))
          (chunk_by_zone (remote_peers nodeinfo known)) in
      let (nearby, _) =
        ch.choose_multiple rng (map peer_id (local_peers nodeinfo known))
          (nodeinfo.peer_subscriptions - length remote) in
      Set.from_iter ℕ_discrete (nearby ++ remote)

  -- The weight of a peer in this node's zone, and of any other. A failed choice panics: `none`.
  unfoldable pub choose_weighted : ℕ → ℕ → NodeInfo → Dict Uuid Peer → Option (List Uuid)
  unfolding candidates same_zone
  choose_weighted near far nodeinfo known =
      elim (ch.choose_multiple_weighted (ch.seed_from_u64 (uuid_lsb nodeinfo.id))
        (candidates nodeinfo known) nodeinfo.peer_subscriptions
        (λ p. if same_zone p.zone nodeinfo.zone then near else far)) [
          | none ↦ none
          | some chosen ↦ some (Set.from_iter ℕ_discrete (map peer_id chosen))
        ]

  unfoldable pub choose_by_strategy :
      DistributionStrategy → NodeInfo → Dict Uuid Peer → Option (List Uuid)
  unfolding choose_uniform choose_hub_and_spoke choose_weighted
  choose_by_strategy uniform nodeinfo known = some (choose_uniform nodeinfo known)
  choose_by_strategy hub_and_spoke nodeinfo known = some (choose_hub_and_spoke nodeinfo known)
  choose_by_strategy prefer_local nodeinfo known = choose_weighted 2 1 nodeinfo known
  choose_by_strategy prefer_remote nodeinfo known = choose_weighted 1 2 nodeinfo known

  -- `none` is the panic of `expect("weighted choose failed")`.
  unfoldable pub choose_peers : NodeInfo → Dict Uuid Peer → Option (List Uuid)
  unfolding choose_by_strategy
  choose_peers nodeinfo known = choose_by_strategy nodeinfo.distribution_strategy nodeinfo known
