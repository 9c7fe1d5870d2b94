-- ===== src/PeerManager/Candidates.antt =====
-- peer_manager.rs, `choose_peers`: the peers to choose from, and what rand documents of a choice.
use gwyh.Base.{
  ℕ, ◌≤◌, ◌≡◌, ◌≢◌, refl, ap, ◌∙◌, Bool, true, some, List, [], ◌∷◌, ◌++◌, map, ℕ_discrete, arith,
  length, filter, min, Bool-cases, inl, inr,
}
use gwyh.Base.Dict.{Dict, lookup, contains_key, Distinct}
use gwyh.Base.Set.{contains}
use gwyh.External.{Uuid}
use gwyh.Peer.{Peer}
use gwyh.NodeInfo.{NodeInfo}
use gwyh.PeerManager.Choose.{Chooser, peer_id, same_zone, push_chunk, chunk_by_zone, candidates}
use gwyh.PeerManager.Keys.{IsKeyed, IsKeyed-head, IsKeyed-tail}

-- What rand documents of its choices: they are elements of the collection, as many as were asked
-- for or as there are, and a weighted choice is of no more than were asked for.
pub record Chooses (ch : Chooser) : Type 0 where
  pub chosen_from :
      (rng : ℕ) (l : List Uuid) (n : ℕ) (j : Uuid)
      → contains ℕ_discrete j (ch.choose_multiple rng l n).0 ≡ true
      → contains ℕ_discrete j l ≡ true
  pub chosen_length :
      (rng : ℕ) (l : List Uuid) (n : ℕ) → length (ch.choose_multiple rng l n).0 ≡ min n (length l)
  pub weighted_from :
      (rng : ℕ) (l : List Peer) (n : ℕ) (w : Peer → ℕ) (chosen : List Peer) (j : Uuid)
      → ch.choose_multiple_weighted rng l n w ≡ some chosen
      → contains ℕ_discrete j (map peer_id chosen) ≡ true
      → contains ℕ_discrete j (map peer_id l) ≡ true
  pub weighted_length :
      (rng : ℕ) (l : List Peer) (n : ℕ) (w : Peer → ℕ) (chosen : List Peer)
      → ch.choose_multiple_weighted rng l n w ≡ some chosen
      → length chosen ≤ n

abbrev pub HasId : Uuid → List Peer → Type 0
HasId j l = contains ℕ_discrete j (map peer_id l) ≡ true

pub HasId-filter : (j : Uuid) (p : Peer → Bool) (l : List Peer) → HasId j (filter p l) → HasId j l
unfolding filter contains
HasId-filter j p [] h = h
HasId-filter j p (q ∷ l) h = ground (arith, HasId-filter j p l)

pub candidates-known :
    (nodeinfo : NodeInfo) (known : Dict Uuid Peer) (j : Uuid)
    → Distinct ℕ_discrete known
    → IsKeyed known
    → HasId j (candidates nodeinfo known)
    → (contains_key ℕ_discrete j known ≡ true) × (j ≢ nodeinfo.id)
unfolding candidates filter contains lookup
candidates-known nodeinfo [] j d keyed h = absurd (ground arith)
candidates-known nodeinfo ((k, p) ∷ known) j d keyed h = ground (
  arith,
  IsKeyed-head k p known keyed,
  candidates-known nodeinfo known j d.1 (IsKeyed-tail k p known d.0 keyed),
)

unfoldable pub ids_of : List (List Peer) → List Uuid
ids_of [] = []
ids_of (chunk ∷ chunks) = map peer_id chunk ++ ids_of chunks

ids_of-push_chunk :
    (p : Peer) (chunks : List (List Peer)) → ids_of (push_chunk p chunks) ≡ p.id ∷ ids_of chunks
unfolding ids_of push_chunk
ids_of-push_chunk p [] = refl
ids_of-push_chunk p ([] ∷ chunks) = refl
ids_of-push_chunk p ((q ∷ chunk) ∷ chunks) = elim (Bool-cases (same_zone p.zone q.zone)) [
  | inl e ↦ rw e refl
  | inr e ↦ rw e refl
]

-- The chunks are the list, cut.
pub ids_of-chunk_by_zone : (l : List Peer) → ids_of (chunk_by_zone l) ≡ map peer_id l
unfolding chunk_by_zone ids_of
ids_of-chunk_by_zone [] = refl
ids_of-chunk_by_zone (p ∷ l) =
    ids_of-push_chunk p (chunk_by_zone l) ∙ ap (◌∷◌ p.id) (ids_of-chunk_by_zone l)
