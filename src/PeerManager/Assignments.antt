-- ===== src/PeerManager/Assignments.antt =====
-- peer_manager.rs, `choose_peers`: whom every strategy assigns, and how many.
use gwyh.Base.{
  ℕ, ◌-◌, ◌≤◌, ◌≡◌, ◌≢◌, sym, subst, ◌∙◌, true, not, some, List, [], ◌∷◌, ◌++◌, map, ℕ_discrete,
  arith, length, length-append, length-map, inl, inr, if◌then◌else◌, OnSome, Option-cases,
}
use gwyh.Base.Dict.{Dict, contains_key, Distinct}
use gwyh.Base.Set.{contains, contains-from_iter, contains-append, length-from_iter-le}
use gwyh.External.{Uuid, uuid_lsb}
use Prim.Native.Nat.{max}
use gwyh.Peer.{Peer}
use gwyh.NodeInfo.{
  NodeInfo, DistributionStrategy, uniform, hub_and_spoke, prefer_local, prefer_remote,
}
use gwyh.PeerManager.Choose.{
  Chooser, peer_id, same_zone, chunk_by_zone, candidates, local_peers, remote_peers, choose_each,
  choose_uniform, choose_hub_and_spoke, choose_weighted, choose_by_strategy, choose_peers,
}
use gwyh.PeerManager.Keys.{IsKeyed}
use gwyh.PeerManager.Candidates.{
  Chooses, HasId, HasId-filter, candidates-known, ids_of, ids_of-chunk_by_zone,
}

module _ (ch : Chooser) (law : Chooses ch) where
  choose_each-from :
      (rng : ℕ) (chunks : List (List Peer)) (j : Uuid)
      → contains ℕ_discrete j (choose_each ch rng chunks).0 ≡ true
      → contains ℕ_discrete j (ids_of chunks) ≡ true
  unfolding choose_each ids_of
  choose_each-from rng [] j h = h
  choose_each-from rng (chunk ∷ chunks) j h =
      let first = ch.choose_multiple rng (map peer_id chunk) 1 in
      ground (
        arith,
        contains-append ℕ_discrete j first.0 (choose_each ch first.1 chunks).0,
        contains-append ℕ_discrete j (map peer_id chunk) (ids_of chunks),
        law.chosen_from rng (map peer_id chunk) 1 j,
        choose_each-from first.1 chunks j,
      )

  choose_each-length :
      (rng : ℕ) (chunks : List (List Peer)) → length (choose_each ch rng chunks).0 ≤ length chunks
  unfolding choose_each
  choose_each-length rng [] = omega arith
  choose_each-length rng (chunk ∷ chunks) =
      let first = ch.choose_multiple rng (map peer_id chunk) 1 in
      omega (
        arith,
        length-append first.0 (choose_each ch first.1 chunks).0,
        law.chosen_length rng (map peer_id chunk) 1,
        choose_each-length first.1 chunks,
      )

  module _ (nodeinfo : NodeInfo) (known : Dict Uuid Peer) where
    uniform-from :
        (j : Uuid)
        → contains ℕ_discrete j (choose_uniform ch nodeinfo known) ≡ true
        → HasId j (candidates nodeinfo known)
    unfolding choose_uniform
    uniform-from j h = law.chosen_from _ _ _ j (sym (contains-from_iter ℕ_discrete j _) ∙ h)

    -- The peers chosen from the other zones, and the generator after that.
    abbrev remote_choice : List Uuid × ℕ
    remote_choice =
        choose_each ch (ch.seed_from_u64 (uuid_lsb nodeinfo.id))
          (chunk_by_zone (remote_peers nodeinfo known))

    abbrev nearby_choice : List Uuid
    nearby_choice =
        (ch.choose_multiple remote_choice.1 (map peer_id (local_peers nodeinfo known))
          (nodeinfo.peer_subscriptions - length remote_choice.0)).0

    remote_choice-from :
        (j : Uuid)
        → contains ℕ_discrete j remote_choice.0 ≡ true
        → HasId j (candidates nodeinfo known)
    unfolding remote_peers
    remote_choice-from j h =
        HasId-filter j (λ p. not (same_zone p.zone nodeinfo.zone)) (candidates nodeinfo known)
          (subst (λ l. contains ℕ_discrete j l ≡ true) (ids_of-chunk_by_zone _)
            (choose_each-from _ _ j h))

    nearby_choice-from :
        (j : Uuid)
        → contains ℕ_discrete j nearby_choice ≡ true
        → HasId j (candidates nodeinfo known)
    unfolding local_peers
    nearby_choice-from j h =
        HasId-filter j (λ p. same_zone p.zone nodeinfo.zone) (candidates nodeinfo known)
          (law.chosen_from _ _ _ j h)

    hub-from :
        (j : Uuid)
        → contains ℕ_discrete j (choose_hub_and_spoke ch nodeinfo known) ≡ true
        → HasId j (candidates nodeinfo known)
    unfolding choose_hub_and_spoke
    hub-from j h = ground (
      arith,
      contains-from_iter ℕ_discrete j (nearby_choice ++ remote_choice.0),
      contains-append ℕ_discrete j nearby_choice remote_choice.0,
      remote_choice-from j,
      nearby_choice-from j,
    )

    hub-length :
        length (choose_hub_and_spoke ch nodeinfo known)
        ≤ max nodeinfo.peer_subscriptions (length (chunk_by_zone (remote_peers nodeinfo known)))
    unfolding choose_hub_and_spoke
    hub-length = omega (
      arith,
      length-from_iter-le ℕ_discrete (nearby_choice ++ remote_choice.0),
      length-append nearby_choice remote_choice.0,
      choose_each-length (ch.seed_from_u64 (uuid_lsb nodeinfo.id))
          (chunk_by_zone (remote_peers nodeinfo known)),
      law.chosen_length remote_choice.1 (map peer_id (local_peers nodeinfo known))
          (nodeinfo.peer_subscriptions - length remote_choice.0),
    )

    abbrev weight : ℕ → ℕ → Peer → ℕ
    weight near far p = if same_zone p.zone nodeinfo.zone then near else far

    -- What is shown of the ids of each strategy.
    abbrev IsAssignment : ℕ → List Uuid → Type 0
    IsAssignment most ids =
        ((j : Uuid) → contains ℕ_discrete j ids ≡ true → HasId j (candidates nodeinfo known))
        × (length ids ≤ most)

    weighted-IsAssignment :
        (near far : ℕ)
        → OnSome
            (IsAssignment nodeinfo.peer_subscriptions)
            (choose_weighted ch near far nodeinfo known)
    unfolding choose_weighted
    weighted-IsAssignment near far =
        elim (Option-cases (
          ch.choose_multiple_weighted (ch.seed_from_u64 (uuid_lsb nodeinfo.id))
            (candidates nodeinfo known) nodeinfo.peer_subscriptions (weight near far))) [
              | inl failed ↦ rw (failed, choose_weighted) tt
              | inr (chosen, e) ↦
                  rw (e, choose_weighted)
                    (
                      λ j h.
                          law.weighted_from _ _ _ (weight near far) chosen j e
                            (sym (contains-from_iter ℕ_discrete j _) ∙ h),
                      omega (
                        arith,
                        length-from_iter-le ℕ_discrete (map peer_id chosen),
                        length-map peer_id chosen,
                        law.weighted_length _ _ _ (weight near far) chosen e,
                      ),
                    )
            ]

    uniform-length : length (choose_uniform ch nodeinfo known) ≤ nodeinfo.peer_subscriptions
    unfolding choose_uniform
    uniform-length = omega (
      arith,
      length-from_iter-le ℕ_discrete
          (ch.choose_multiple (ch.seed_from_u64 (uuid_lsb nodeinfo.id))
            (map peer_id (candidates nodeinfo known)) nodeinfo.peer_subscriptions).0,
      law.chosen_length (ch.seed_from_u64 (uuid_lsb nodeinfo.id))
          (map peer_id (candidates nodeinfo known)) nodeinfo.peer_subscriptions,
    )

    -- The limit of each strategy.
    abbrev pub limit : DistributionStrategy → ℕ
    limit hub_and_spoke =
        max nodeinfo.peer_subscriptions (length (chunk_by_zone (remote_peers nodeinfo known)))
    limit _ = nodeinfo.peer_subscriptions

    choose_by_strategy-IsAssignment :
        (strategy : DistributionStrategy)
        → OnSome (IsAssignment (limit strategy)) (choose_by_strategy ch strategy nodeinfo known)
    unfolding choose_by_strategy
    choose_by_strategy-IsAssignment hub_and_spoke = (hub-from, hub-length)
    choose_by_strategy-IsAssignment uniform = (uniform-from, uniform-length)
    choose_by_strategy-IsAssignment prefer_local = weighted-IsAssignment 2 1
    choose_by_strategy-IsAssignment prefer_remote = weighted-IsAssignment 1 2

    choose_peers-IsAssignment :
        (ids : List Uuid)
        → choose_peers ch nodeinfo known ≡ some ids
        → IsAssignment (limit nodeinfo.distribution_strategy) ids
    unfolding choose_peers
    choose_peers-IsAssignment ids e =
        subst (OnSome (IsAssignment (limit nodeinfo.distribution_strategy))) e
          (choose_by_strategy-IsAssignment nodeinfo.distribution_strategy)

    -- Whatever the strategy, a peer that is assigned is a known one other than this node. (The known
    -- peers stand under their ids, each once.)
    pub choose_peers-known :
        (ids : List Uuid) (j : Uuid)
        → Distinct ℕ_discrete known
        → IsKeyed known
        → choose_peers ch nodeinfo known ≡ some ids
        → contains ℕ_discrete j ids ≡ true
        → (contains_key ℕ_discrete j known ≡ true) × (j ≢ nodeinfo.id)
    choose_peers-known ids j d keyed e h =
        candidates-known nodeinfo known j d keyed ((choose_peers-IsAssignment ids e).0 j h)

    -- At most as many peers are assigned as are configured; for `HubAndSpoke` at most the larger of
    -- that number and the number of runs of neighbours in one remote zone.
    pub length-choose_peers :
        (ids : List Uuid)
        → choose_peers ch nodeinfo known ≡ some ids
        → length ids ≤ limit nodeinfo.distribution_strategy
    length-choose_peers ids e = (choose_peers-IsAssignment ids e).1
