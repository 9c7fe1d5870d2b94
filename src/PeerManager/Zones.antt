-- ===== src/PeerManager/Zones.antt =====
-- peer_manager.rs, the choice of remote peers for `HubAndSpoke`.
use gwyh.Base.{
  ℕ, suc, ◌≡◌, refl, ap, ap₂, ◌∙◌, true, false, List, [], ◌∷◌, ◌++◌, map, ℕ_discrete, arith, length,
  length-append, length-map, All, Bool-cases, inl, inr, ◌<◌, if◌then◌else◌,
}
use gwyh.Base.Set.{contains}
use gwyh.External.{Uuid}
use gwyh.Peer.{Peer}
use gwyh.PeerManager.Choose.{Chooser, peer_id, same_zone, push_chunk, chunk_by_zone, choose_each}
use gwyh.PeerManager.Candidates.{Chooses}

-- Neighbours in the list are in different zones.
abbrev pub Alternates : List Peer → Type 0
Alternates [] = Unit
Alternates (p ∷ []) = Unit
Alternates (p ∷ q ∷ l) = (same_zone p.zone q.zone ≡ false) × Alternates (q ∷ l)

-- The number of places where the zone changes, and one.
abbrev pub runs : List Peer → ℕ
runs [] = 0
runs (p ∷ []) = 1
runs (p ∷ q ∷ l) = if same_zone p.zone q.zone then runs (q ∷ l) else suc (runs (q ∷ l))

singletons : List Peer → List (List Peer)
singletons [] = []
singletons (p ∷ l) = (p ∷ []) ∷ singletons l

chunk_by_zone-Alternates : (l : List Peer) → Alternates l → chunk_by_zone l ≡ singletons l
unfolding chunk_by_zone singletons push_chunk
chunk_by_zone-Alternates [] a = refl
chunk_by_zone-Alternates (p ∷ []) a = refl
chunk_by_zone-Alternates (p ∷ q ∷ l) a =
    ap (push_chunk p) (chunk_by_zone-Alternates (q ∷ l) a.1) ∙ rw a.0 refl

only_one :
    (l : List Uuid) (x : Uuid)
    → length l ≡ 1
    → ((j : Uuid) → contains ℕ_discrete j l ≡ true → contains ℕ_discrete j (x ∷ []) ≡ true)
    → l ≡ x ∷ []
unfolding contains
only_one [] x e h = absurd (omega arith)
only_one (y ∷ []) x e h = ground (arith, h y)
only_one (y ∷ z ∷ l) x e h = absurd (omega arith)

module _ (ch : Chooser) (law : Chooses ch) where
  choose_one : (rng : ℕ) (x : Uuid) → (ch.choose_multiple rng (x ∷ []) 1).0 ≡ x ∷ []
  choose_one rng x =
      only_one _ x (law.chosen_length rng (x ∷ []) 1) (law.chosen_from rng (x ∷ []) 1)

  choose_each-singletons :
      (rng : ℕ) (l : List Peer) → (choose_each ch rng (singletons l)).0 ≡ map peer_id l
  unfolding choose_each singletons
  choose_each-singletons rng [] = refl
  choose_each-singletons rng (p ∷ l) =
      ap₂ (λ a b. a ++ b) (choose_one rng p.id)
        (choose_each-singletons (ch.choose_multiple rng (p.id ∷ []) 1).1 l)

  -- If the remote peers happen to be iterated so that neighbours are in different zones, then every
  -- one of them is chosen, however few zones there are.
  pub choose_each-Alternates :
      (rng : ℕ) (l : List Peer)
      → Alternates l
      → (choose_each ch rng (chunk_by_zone l)).0 ≡ map peer_id l
  choose_each-Alternates rng l a = rw (chunk_by_zone-Alternates l a) (choose_each-singletons rng l)

push_chunk-head :
    (p : Peer) (chunks : List (List Peer))
    → (chunk : List Peer) × (rest : List (List Peer)) × (push_chunk p chunks ≡ (p ∷ chunk) ∷ rest)
unfolding push_chunk
push_chunk-head p [] = ([], [], refl)
push_chunk-head p ([] ∷ chunks) = ([], chunks, refl)
push_chunk-head p ((q ∷ chunk) ∷ chunks) = elim (Bool-cases (same_zone p.zone q.zone)) [
  | inl e ↦ (q ∷ chunk, chunks, rw e refl)
  | inr e ↦ ([], (q ∷ chunk) ∷ chunks, rw e refl)
]

length-push_chunk :
    (p q : Peer) (chunks : List (List Peer))
    → length (push_chunk p (push_chunk q chunks)) ≡ (
        if same_zone p.zone q.zone
        then length (push_chunk q chunks)
        else suc (length (push_chunk q chunks)))
unfolding push_chunk
length-push_chunk p q chunks =
    let (chunk, rest, e) = push_chunk-head q chunks in rw e (ground arith)

length-chunk_by_zone : (l : List Peer) → length (chunk_by_zone l) ≡ runs l
unfolding chunk_by_zone push_chunk
length-chunk_by_zone [] = refl
length-chunk_by_zone (p ∷ []) = refl
length-chunk_by_zone (p ∷ q ∷ l) =
    ground (arith, length-push_chunk p q (chunk_by_zone l), length-chunk_by_zone (q ∷ l))

abbrev AllNonempty : List (List Peer) → Type 0
AllNonempty = All (λ chunk. 0 < length chunk)

push_chunk-AllNonempty :
    (p : Peer) (chunks : List (List Peer)) → AllNonempty chunks → AllNonempty (push_chunk p chunks)
unfolding push_chunk
push_chunk-AllNonempty p [] h = omega arith
push_chunk-AllNonempty p ([] ∷ chunks) h = absurd (omega arith)
push_chunk-AllNonempty p ((q ∷ chunk) ∷ chunks) h = elim (Bool-cases (same_zone p.zone q.zone)) [
  | inl e ↦ rw e (omega arith, h.1)
  | inr e ↦ rw e (omega arith, h)
]

chunk_by_zone-AllNonempty : (l : List Peer) → AllNonempty (chunk_by_zone l)
unfolding chunk_by_zone
chunk_by_zone-AllNonempty [] = tt
chunk_by_zone-AllNonempty (p ∷ l) =
    push_chunk-AllNonempty p (chunk_by_zone l) (chunk_by_zone-AllNonempty l)

module _ (ch : Chooser) (law : Chooses ch) where
  length-choose_each :
      (rng : ℕ) (chunks : List (List Peer))
      → AllNonempty chunks
      → length (choose_each ch rng chunks).0 ≡ length chunks
  unfolding choose_each
  length-choose_each rng [] h = refl
  length-choose_each rng (chunk ∷ chunks) h =
      let first = ch.choose_multiple rng (map peer_id chunk) 1 in
      omega (
        arith,
        length-append first.0 (choose_each ch first.1 chunks).0,
        law.chosen_length rng (map peer_id chunk) 1,
        length-map peer_id chunk,
        h.0,
        length-choose_each first.1 chunks h.1,
      )

  -- The number of remote peers chosen for `HubAndSpoke` is the number of runs of neighbours in one
  -- zone, in the order in which the remote peers are iterated.
  pub length-choose_each-runs :
      (rng : ℕ) (l : List Peer) → length (choose_each ch rng (chunk_by_zone l)).0 ≡ runs l
  length-choose_each-runs rng l =
      length-choose_each rng (chunk_by_zone l) (chunk_by_zone-AllNonempty l)
      ∙ length-chunk_by_zone l
