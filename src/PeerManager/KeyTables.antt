-- ===== src/PeerManager/KeyTables.antt =====
-- peer_manager.rs: key tables, and what the messages of a list leave of one.
use gwyh.Base.{◌≡◌, ◌>>=◌, refl, List, [], ◌∷◌, ◌++◌, ℕ_discrete, arith, All, Bool-cases, inl, inr}
use gwyh.Base.Dict.{Dict, lookup, insert, lookup-insert, contains_key}
use gwyh.External.{Uuid}
use gwyh.Peer.{Peer}
use gwyh.Actor.{Effect, PeerKeys, to_packet_handler, keys_updated}
use gwyh.PeerManager.Subscriptions.{add_unknown}
use gwyh.PeerManager.Keys.{keys_with}
use gwyh.Waiting.{IsPublic, IsPlain}

abbrev pub KeyTable : Type 0
KeyTable = Dict Uuid PeerKeys

-- The table after the messages of the list: that of the last update, if any.
abbrev pub table_after : List Effect → KeyTable → KeyTable
table_after [] table = table
table_after (to_packet_handler _ (keys_updated keys) ∷ es) table = table_after es keys
table_after (_ ∷ es) table = table_after es table

-- A peer has an entry exactly when it is known with both keys.
abbrev pub Follows : KeyTable → Dict Uuid Peer → Type 0
Follows table known =
    (id : Uuid) → lookup ℕ_discrete id table ≡ (lookup ℕ_discrete id known >>= keys_with)

pub table_after-append :
    (es fs : List Effect) (table : KeyTable)
    → table_after (es ++ fs) table ≡ table_after fs (table_after es table)
table_after-append [] fs table = refl
table_after-append (to_packet_handler _ (keys_updated keys) ∷ es) fs table =
    table_after-append es fs keys
table_after-append (e ∷ es) fs table = table_after-append es fs table

pub table_after-IsPlain :
    (es : List Effect) (table : KeyTable) → All IsPlain es → table_after es table ≡ table
table_after-IsPlain [] table h = refl
table_after-IsPlain (to_packet_handler _ (keys_updated keys) ∷ es) table h = absurd h.0
table_after-IsPlain (e ∷ es) table h = table_after-IsPlain es table h.1

-- What a list of peers without secrets adds has no entry.
pub add_unknown-Follows :
    (peers : List Peer) (known : Dict Uuid Peer) (table : KeyTable)
    → All IsPublic peers
    → Follows table known
    → Follows table (add_unknown peers known).1
unfolding add_unknown
add_unknown-Follows [] known table h v = v
add_unknown-Follows (p ∷ ps) known table h v =
    elim (Bool-cases (contains_key ℕ_discrete p.id known)) [
      | inl e ↦ rw (e, add_unknown) (add_unknown-Follows ps known table h.1 v)
      | inr e ↦
          rw (e, add_unknown)
            (add_unknown-Follows ps (insert ℕ_discrete p.id p known) table h.1
              (λ id. ground (arith, v id, e, h.0, lookup-insert ℕ_discrete p.id id p known)))
    ]
