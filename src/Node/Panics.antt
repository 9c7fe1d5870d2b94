-- ===== src/Node/Panics.antt =====
-- registry.rs: when a server panics in its invariant, if the weighted choice goes well.
use gwyh.Base.{
  ◌≡◌, ◌≢◌, ◌⊎◌, ◌∙◌, true, false, refl, ℕ, ◌<◌, Option, none, some, List, inl, inr, arith,
  Option-cases, if◌then◌else◌,
}
use gwyh.Base.Dict.{Dict}
use gwyh.External.{Uuid, uuid_lsb, Timestamp}
use gwyh.NodeInfo.{
  NodeInfo, DistributionStrategy, uniform, hub_and_spoke, prefer_local, prefer_remote,
}
use gwyh.Peer.{Peer}
use gwyh.Actor.{
  Effect, Delivery, HandshakerMessage, to_packet_handler, to_handshaker, to_peer_manager,
}
use gwyh.PeerManager.State.{PeerManager}
use gwyh.PeerManager.Choose.{
  Chooser, same_zone, candidates, choose_weighted, choose_by_strategy, choose_peers,
}
use gwyh.PeerManager.Handle.{handle_message as handle_peers}
use gwyh.PeerManager.Preserve.{handle_message_panics_iff}
use gwyh.Handshaker.State.{Handshaker}
use gwyh.Handshaker.Hmac.{is_valid_timestamp_for}
use gwyh.Handshaker.Invariant.{Inv as HandshakesInv, stamp_of}
use gwyh.Handshaker.Preserve.{handle_message-Handled}
use gwyh.Node.Control.{ActorName, target}
use gwyh.Node.State.{States, Outside, fresh, packets_call, handshakes_call, peers_call, perform}
use gwyh.Node.Perform.{Sound}

-- rand: a weighted choice fails for a weight that is not valid, and positive ones are.
abbrev pub WeighsPositive : Chooser → Type 0
WeighsPositive ch =
    (rng : ℕ) (l : List Peer) (n : ℕ) (w : Peer → ℕ)
    → ((p : Peer) → 0 < w p)
    → ch.choose_multiple_weighted rng l n w ≢ none

choose_weighted-positive :
    (ch : Chooser) (near far : ℕ) (nodeinfo : NodeInfo) (known : Dict Uuid Peer)
    → WeighsPositive ch
    → 0 < near
    → 0 < far
    → choose_weighted ch near far nodeinfo known ≢ none
unfolding choose_weighted
choose_weighted-positive ch near far nodeinfo known weighs h k e =
    let weight : Peer → ℕ = λ p. if same_zone p.zone nodeinfo.zone then near else far in
    let chosen =
      ch.choose_multiple_weighted (ch.seed_from_u64 (uuid_lsb nodeinfo.id))
        (candidates nodeinfo known) nodeinfo.peer_subscriptions weight in
    elim (Option-cases chosen) [
      | inl failed ↦ weighs _ _ _ weight (λ p. ground arith) failed
      | inr (l, made) ↦ absurd (ground (arith, e, made))
    ]

choose_by_strategy-positive :
    (ch : Chooser) (strategy : DistributionStrategy) (nodeinfo : NodeInfo) (known : Dict Uuid Peer)
    → WeighsPositive ch
    → choose_by_strategy ch strategy nodeinfo known ≢ none
unfolding choose_by_strategy
choose_by_strategy-positive ch uniform nodeinfo known weighs = λ e. cc e
choose_by_strategy-positive ch hub_and_spoke nodeinfo known weighs = λ e. cc e
choose_by_strategy-positive ch prefer_local nodeinfo known weighs =
    choose_weighted-positive ch 2 1 nodeinfo known weighs (omega arith) (omega arith)
choose_by_strategy-positive ch prefer_remote nodeinfo known weighs =
    choose_weighted-positive ch 1 2 nodeinfo known weighs (omega arith) (omega arith)

choose_peers-positive :
    (ch : Chooser) (nodeinfo : NodeInfo) (known : Dict Uuid Peer)
    → WeighsPositive ch
    → choose_peers ch nodeinfo known ≢ none
unfolding choose_peers
choose_peers-positive ch nodeinfo known =
    choose_by_strategy-positive ch nodeinfo.distribution_strategy nodeinfo known

stamp_of-fresh :
    (now : Timestamp) (message : HandshakerMessage) (s : Handshaker)
    → stamp_of now message s ≡ stamp_of now message (record s { io = fresh s.io })
stamp_of-fresh now HandshakerMessage.bootstrap s = refl
stamp_of-fresh now (HandshakerMessage.send_hello _ _) s = refl
stamp_of-fresh now (HandshakerMessage.packet _ _ _) s = refl

abbrev pub IsDone : {A : Type 0} → Option A → Type 0
IsDone {A} r = (a : A) × (r ≡ some a)

module _ {Seen : Type 0} (ext : Outside Seen) where
  -- The handshaker panics on a message that has it hash a timestamp in the window without
  -- nanoseconds.
  pub data Panics (now : Timestamp) (st : States Seen) : Effect → Type 0 where
    hashing :
        (d : Delivery) (message : HandshakerMessage) (timestamp : Timestamp)
        → stamp_of now message st.handshaker ≡ some timestamp
        → is_valid_timestamp_for timestamp now ≡ true
        → ext.hashing.has_nanos timestamp ≡ false
        → perform ext now (to_handshaker d message) st ≡ none
        → Panics now st (to_handshaker d message)

module _ {Seen : Type 0} (ext : Outside Seen) (weighs : WeighsPositive ext.chooser) where
  pub perform-IsDone :
      (now : Timestamp) (a : ActorName) (e : Effect) (st : States Seen)
      → target e ≡ some a
      → Sound st
      → IsDone (perform ext now e st) ⊎ Panics ext now st e
  unfolding perform packets_call handshakes_call peers_call
  perform-IsDone now ActorName.packet_handler (to_packet_handler _ message) st t v = inl (_, refl)
  perform-IsDone now ActorName.handshaker (to_handshaker d message) st t v =
      let s : Handshaker = record st.handshaker { io = fresh st.handshaker.io } in
      let ent = ext.entropy ActorName.handshaker in
      let inv : HandshakesInv s = record {
        hellos = v.1.hellos;
        ohais = v.1.ohais;
        okbosses = v.1.okbosses;
      } in
      elim (handle_message-Handled ent ext.hashing ext.resolve now message s inv) [
        | inl (s', e, _) ↦ inl (rw (perform, handshakes_call, e) (_, refl))
        | inr (e, timestamp, stamp, valid, nanos) ↦ inr (
            Panics.hashing d message timestamp (stamp_of-fresh now message st.handshaker ∙ stamp)
              valid nanos (rw (perform, handshakes_call, e) refl))
      ]
  perform-IsDone now ActorName.peer_manager (to_peer_manager _ message) st t v =
      let m : PeerManager = record st.peer_manager { io = fresh st.peer_manager.io } in
      let ent = ext.entropy ActorName.peer_manager in
      elim (Option-cases (handle_peers ent ext.chooser message m)) [
        | inl e ↦ absurd (
            choose_peers-positive ext.chooser m.nodeinfo m.known weighs
              ((handle_message_panics_iff ent ext.chooser message m).0 e).1)
        | inr (r, e) ↦ inl (rw (perform, peers_call, e) (_, refl))
      ]
  perform-IsDone now a e st t v = absurd (cc t)
