-- ===== src/Node/Perform.antt =====
-- registry.rs: a server that handles a request keeps its invariant and sends what fits the request.
use gwyh.Base.{◌≡◌, Option, some, List, OnSome, subst, All, Option-cases, inl, inr}
use gwyh.External.{Timestamp}
use gwyh.Actor.{Effect, to_packet_handler, to_handshaker, to_peer_manager}
use gwyh.PeerManager.Invariant.{Inv as PeersInv}
use gwyh.PeerManager.Preserve.{handle_message-Inv}
use gwyh.PeerManager.State.{PeerManager}
use gwyh.PeerManager.Handle.{handle_message as handle_peers}
use gwyh.Handshaker.State.{Handshaker}
use gwyh.Handshaker.Invariant.{Inv as HandshakesInv}
use gwyh.Handshaker.Preserve.{handle_message-Handled}
use gwyh.Waiting.{Fits, level, handshake_level, peer_level}
use gwyh.Waiting.Packets.{handle_message-Fits as packets-Fits}
use gwyh.Waiting.Peers.{handle_message-Fits as peers-Fits}
use gwyh.Waiting.Handshakes.{handle_message-Fits as handshakes-Fits}
use gwyh.Node.Control.{ActorName, target, rank}
use gwyh.Node.State.{States, Outside, fresh, packets_call, handshakes_call, peers_call, perform}

abbrev pub Sound : {Seen : Type 0} → States Seen → Type 0
Sound st = PeersInv st.peer_manager × HandshakesInv st.handshaker

-- What comes of a request of the given server.
abbrev pub Kept : {Seen : Type 0} → ActorName → Effect → Option (List Effect × States Seen) → Type 0
Kept a e = OnSome (λ r. All (Fits (rank a) (level e)) r.0 × Sound r.1)

module _ {Seen : Type 0} (ext : Outside Seen) (now : Timestamp) where
  pub perform-Kept :
      (a : ActorName) (e : Effect) (st : States Seen)
      → target e ≡ some a
      → Sound st
      → Kept a e (perform ext now e st)
  unfolding perform packets_call handshakes_call peers_call
  perform-Kept ActorName.packet_handler (to_packet_handler _ message) st t v = (
    packets-Fits ext.crypto ext.lru (ext.entropy ActorName.packet_handler) now message
        (record st.packet_handler { io = fresh st.packet_handler.io }) tt,
    v,
  )
  perform-Kept ActorName.handshaker (to_handshaker _ message) st t v =
      let s : Handshaker = record st.handshaker { io = fresh st.handshaker.io } in
      let ent = ext.entropy ActorName.handshaker in
      let inv : HandshakesInv s = record {
        hellos = v.1.hellos;
        ohais = v.1.ohais;
        okbosses = v.1.okbosses;
      } in
      elim (handle_message-Handled ent ext.hashing ext.resolve now message s inv) [
        | inl (s', e, inv') ↦
            rw (perform, handshakes_call, e)
              (
                subst (OnSome (λ s'. All (Fits 2 (handshake_level message)) s'.io.out)) e
                    (handshakes-Fits ent ext.hashing ext.resolve now message s tt),
                (v.0, inv'),
              )
        | inr (e, _, _, _, _) ↦ rw (perform, handshakes_call, e) tt
      ]
  perform-Kept ActorName.peer_manager (to_peer_manager _ message) st t v =
      let m : PeerManager = record st.peer_manager { io = fresh st.peer_manager.io } in
      let ent = ext.entropy ActorName.peer_manager in
      elim (Option-cases (handle_peers ent ext.chooser message m)) [
        | inl e ↦ rw (perform, peers_call, e) tt
        | inr (r, e) ↦
            rw (perform, peers_call, e)
              (
                subst (OnSome (λ r. All (Fits 1 (peer_level message)) r.0.io.out)) e
                    (peers-Fits ent ext.chooser message m tt),
                (
                  subst (OnSome (λ r. PeersInv r.0)) e
                      (handle_message-Inv ent ext.chooser message m v.0),
                  v.1,
                ),
              )
      ]
  perform-Kept a e st t v = absurd (cc t)
