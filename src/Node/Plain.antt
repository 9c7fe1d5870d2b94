-- ===== src/Node/Plain.antt =====
-- registry.rs: only the peer manager sends key tables, and no server sends it peers with secrets.
use gwyh.Base.{
  ◌≡◌, ◌≢◌, refl, Option, List, [], ◌∷◌, ◌⊎◌, inl, inr, OnSome, All, arith, ◌∙◌, Option-cases,
  subst, sym,
}
use gwyh.External.{Bytes, Timestamp}
use gwyh.Actor.{
  Effect, Delivery, Delayed, Interval, PacketHandlerMessage, PeerManagerRequest, HandshakerMessage,
  keys_updated, cast, call, to_packet_handler, to_peer_manager,
}
use gwyh.PacketHandler.Recv.{handle_message as handle_packets}
use gwyh.PacketHandler.State.{PacketHandler, Crypto}
use gwyh.Handshaker.State.{Handshaker}
use gwyh.PeerManager.State.{PeerManager}
use gwyh.PeerManager.Handle.{handle_message as handle_peers}
use gwyh.Handshaker.Handle.{handle_message as handle_handshakes}
use gwyh.PeerManager.Invariant.{Inv as PeersInv}
use gwyh.PeerManager.Timers.{IsTimed, handle_message-IsTimed}
use gwyh.PeerManager.KeyTables.{KeyTable, table_after, Follows}
use gwyh.PeerManager.Tables.{handle_message-Follows}
use gwyh.Waiting.{IsPlain, IsPublicRequest, packet_level, handshake_level, peer_level}
use gwyh.Waiting.PacketSends.{OfBody}
use gwyh.Waiting.Packets.{packets-Keeps}
use gwyh.Waiting.Peers.{handle_message-Keeps as peers-Keeps}
use gwyh.Waiting.Handshakes.{handle_message-Keeps as handshakes-Keeps}
use gwyh.Node.Control.{ActorName}
use gwyh.Node.State.{Outside, fresh, packets_call, handshakes_call, peers_call}

-- serde: the fields of a peer that are skipped come back as `None`.
abbrev pub DecodesPublic : Crypto → Type 0
DecodesPublic crypto =
    (b : Bytes) → OnSome (λ m. OfBody IsPublicRequest m.body) (crypto.decode_message b)

-- A key table is sent by a call of the packet handler.
abbrev pub IsUpdate : Effect → Type 0
IsUpdate (to_packet_handler call (keys_updated _)) = Unit
IsUpdate _ = ⊥

abbrev pub PlainOrUpdate : Effect → Type 0
PlainOrUpdate e = IsPlain e ⊎ IsUpdate e

abbrev pub TicksPlain : Interval → Type 0
TicksPlain t = All IsPlain t.ticks

abbrev pub FiresPlain : Option Delayed → Type 0
FiresPlain t = OnSome (λ d. All IsPlain d.fires) t

is_update :
    (message : PacketHandlerMessage)
    → ((keys : KeyTable) → message ≢ keys_updated keys)
      ⊎ ((keys : KeyTable) × (message ≡ keys_updated keys))
is_update (keys_updated keys) = inr (keys, refl)
is_update message = inl (λ keys e. cc e)

table_after-other :
    (d : Delivery) (message : PacketHandlerMessage) (es : List Effect) (table : KeyTable)
    → ((keys : KeyTable) → message ≢ keys_updated keys)
    → table_after (to_packet_handler d message ∷ es) table ≡ table_after es table
table_after-other d (keys_updated keys) es table other = absurd (other keys refl)
table_after-other d message es table other = refl

module _ {Seen : Type 0} (ext : Outside Seen) where
  -- The packet handler has the table of the message that it handles, or the one it had.
  pub packets_call-Plain :
      (now : Timestamp) (d : Delivery) (message : PacketHandlerMessage) (s : PacketHandler Seen)
      → DecodesPublic ext.crypto
      → TicksPlain s.rate_control_timer
      → All IsPlain (packets_call ext now message s).0
        × ((packets_call ext now message s).1.keys
            ≡ table_after (to_packet_handler d message ∷ []) s.keys)
        × TicksPlain (packets_call ext now message s).1.rate_control_timer
  unfolding packets_call handle_packets
  packets_call-Plain now d message s decodes ticks =
      let s0 : PacketHandler Seen = record s { io = fresh s.io } in
      let ent = ext.entropy ActorName.packet_handler in
      elim (is_update message) [
        | inl other ↦
            let kept =
              packets-Keeps ext.crypto ext.lru ent IsPlain (λ k t. (k ≡ s.keys) × TicksPlain t)
                (packet_level message) (λ e h p. p) IsPublicRequest (λ id body c h. c) decodes now
                message (omega arith) (λ keys e. absurd (other keys e)) s0 (tt, (refl, ticks)) in
            (kept.0, (kept.1.0 ∙ sym (table_after-other d message [] s.keys other)), kept.1.1)
        | inr (keys, e) ↦
            let kept =
              packets-Keeps ext.crypto ext.lru ent IsPlain (λ k t. TicksPlain t)
                (packet_level message) (λ e h p. p) IsPublicRequest (λ id body c h. c) decodes now
                message (omega arith) (λ keys e k t r. r) s0 (tt, ticks) in
            (
              kept.0,
              subst
                  (λ m.
                    (packets_call ext now m s).1.keys
                    ≡ table_after (to_packet_handler d m ∷ []) s.keys)
                  (sym e) refl,
              kept.1,
            )
      ]

  pub handshakes_call-Plain :
      (now : Timestamp) (message : HandshakerMessage) (s : Handshaker)
      → FiresPlain s.bootstrap_timer
      → OnSome
          (λ r. All IsPlain r.0 × FiresPlain r.1.bootstrap_timer)
          (handshakes_call ext now message s)
  unfolding handshakes_call
  handshakes_call-Plain now message s fires =
      let s0 : Handshaker = record s { io = fresh s.io } in
      let ent = ext.entropy ActorName.handshaker in
      let kept =
        handshakes-Keeps ent ext.hashing IsPlain FiresPlain (handshake_level message) (λ e h p. p)
          ext.resolve now message (omega arith) (λ n l h. h) s0 (tt, fires) in
      elim (Option-cases (handle_handshakes ent ext.hashing ext.resolve now message s0)) [
        | inl e ↦ rw (handshakes_call, e) tt
        | inr (s', e) ↦
            rw (handshakes_call, e)
              (subst (OnSome (λ s'. All IsPlain s'.io.out × FiresPlain s'.bootstrap_timer)) e kept)
      ]

  -- The table that the peer manager sends, if any, is that of the peers it knows after.
  pub peers_call-Plain :
      (message : PeerManagerRequest) (m : PeerManager) (table : KeyTable)
      → PeersInv m
      → IsPlain (to_peer_manager cast message)
      → IsTimed m
      → Follows table m.known
      → OnSome
          (λ r. All PlainOrUpdate r.0 × IsTimed r.1 × Follows (table_after r.0 table) r.1.known)
          (peers_call ext message m)
  unfolding peers_call
  peers_call-Plain message m table inv public timed f =
      let m0 : PeerManager = record m { io = fresh m.io } in
      let ent = ext.entropy ActorName.peer_manager in
      let sent =
        peers-Keeps ent ext.chooser PlainOrUpdate (peer_level message) (λ e h p. inl p) message
          (λ id status e k. inr tt) (omega arith) m0 tt in
      let held = handle_message-IsTimed ent ext.chooser message m0 timed in
      let follows = handle_message-Follows ent ext.chooser table message m0 inv public tt f in
      elim (Option-cases (handle_peers ent ext.chooser message m0)) [
        | inl e ↦ rw (peers_call, e) tt
        | inr (r, e) ↦
            rw (peers_call, e)
              (
                subst (OnSome (λ r. All PlainOrUpdate r.0.io.out)) e sent,
                subst (OnSome (λ r. IsTimed r.0)) e held,
                subst (OnSome (λ r. Follows (table_after r.0.io.out table) r.0.known)) e follows,
              )
      ]
