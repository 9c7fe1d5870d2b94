-- ===== src/Waiting/Packets.antt =====
-- packet_handler.rs: what the packet handler sends for a message.
use gwyh.Base.{
  ◌≡◌, refl, OnSome, ℕ, suc, ◌<◌, Option, none, some, [], ◌∷◌, arith, ℕ_discrete, Bool-cases,
  Option-cases, inl, inr,
}
use gwyh.Base.Dict.{Dict, lookup, insert}
use gwyh.External.{Uuid, SocketAddr, Timestamp, Entropy, Bytes, Nonce}
use gwyh.Sequence.{Seq32}
use gwyh.Message.{Message, Body, PeerRequest}
use gwyh.Packet.{Packet, Payload}
use gwyh.Actor.{
  Effect, PeerKeys, Interval, PacketHandlerMessage, cast, request, packet, to_handshaker,
  to_peer_manager, emit, handle_broadcast,
}
use gwyh.PacketHandler.State.{PacketHandler, Lru, Crypto}
use gwyh.PacketHandler.RateControl.{update_rate_control}
use gwyh.PacketHandler.Send.{
  encrypt_and_send_messages, encrypt_and_send_message, send_broadcast_to_subscribers, decrypt,
  send_broadcast, send_peer_status,
}
use gwyh.PacketHandler.Recv.{
  recv_broadcast, recv_peer_request, recv_body, recv_encrypted, recv_payload, recv, start_recv_loop,
  handle_message,
}
use gwyh.Waiting.{Fits, AllOut, IsPlain, packet_level, emit-AllOut}
use gwyh.Waiting.PacketSends.{
  Keeps, OfBody, send-Keeps, recv_nak-Keeps, rate_control_each-Keeps,
  encrypt_and_send_messages-Keeps, send_new-Keeps, send_nak-Keeps,
}

module _ {Seen : Type 0} (crypto : Crypto) (lru : Lru Seen) (ent : Entropy) (P : Effect → Type 0)
    (R : Dict Uuid PeerKeys → Interval → Type 0) (top : ℕ)
    (fits : (e : Effect) → Fits 0 top e → IsPlain e → P e) (C : PeerRequest → Type 0)
    (requests : (id : Uuid) (body : PeerRequest)
      → C body
      → 3 < top
      → P (to_peer_manager cast (request id body)))
    (decoded : (b : Bytes) → OnSome (λ m. OfBody C m.body) (crypto.decode_message b))
    (high : 3 < top) where
  recv_body-Keeps :
      (from : SocketAddr) (from_id id : Uuid) (body : Body) (public : OfBody C body)
      (s : PacketHandler Seen)
      → Keeps P R s (recv_body crypto lru ent from from_id id body s)
  unfolding recv_body recv_broadcast recv_peer_request send_broadcast_to_subscribers
  recv_body-Keeps from from_id id (Body.broadcast payload) public s =
      let message : Message = record { id = id; body = Body.broadcast payload } in
      elim (Option-cases s.broadcast_handler_async) [
        | inl e ↦
            rw (e, recv_body, recv_broadcast)
              (encrypt_and_send_messages-Keeps crypto lru ent P R top fits (omega arith)
                s.subscribers message s)
        | inr (handler, e) ↦
            rw (e, recv_body, recv_broadcast)
              (λ v.
                encrypt_and_send_messages-Keeps crypto lru ent P R top fits (omega arith)
                  s.subscribers message
                  (record s { io = emit (handle_broadcast handler payload) s.io })
                  (
                    emit-AllOut P (handle_broadcast handler payload) s.io
                        (fits (handle_broadcast handler payload) (tt, omega arith) tt) v.0,
                    v.1,
                  ))
      ]
  recv_body-Keeps from from_id id (Body.peer_request body) public s = λ v.
      let message : Message = record { id = id; body = Body.peer_request body } in
      let sent =
        encrypt_and_send_messages-Keeps crypto lru ent P R top fits (omega arith) s.subscribers
          message s v in
      (
        emit-AllOut P (to_peer_manager cast (request from_id body))
            (encrypt_and_send_messages crypto lru ent s.subscribers message s).io
            (requests from_id body public high) sent.0,
        sent.1,
      )
  recv_body-Keeps from from_id id (Body.frame _) public s = (λ v. v)
  recv_body-Keeps from from_id id (Body.nak missed) public s =
      recv_nak-Keeps crypto P R top fits (omega arith) from missed s

  recv_encrypted-Keeps :
      (prev : Option Seq32) (seq : Seq32) (from : SocketAddr) (from_id : Uuid)
      (opened : Option Message) (public : OnSome (λ m. OfBody C m.body) opened)
      (s : PacketHandler Seen)
      → Keeps P R s (recv_encrypted crypto lru ent prev seq from from_id opened s)
  unfolding recv_encrypted
  recv_encrypted-Keeps prev seq from from_id none public s = (λ v. v)
  recv_encrypted-Keeps prev seq from from_id (some message) public s =
      elim (Bool-cases (lru.contains message.id s.seen)) [
        | inl e ↦
            rw (e, recv_encrypted)
              (send_nak-Keeps crypto lru ent P R top fits (omega arith) prev seq from_id s)
        | inr e ↦
            let handled = recv_body crypto lru ent from from_id message.id message.body s in
            rw (e, recv_encrypted)
              (λ v.
                send_nak-Keeps crypto lru ent P R top fits (omega arith) prev seq from_id handled
                  (recv_body-Keeps from from_id message.id message.body public s v))
      ]

  decrypt-Public :
      (id : Uuid) (box : Bytes) (nonce : Nonce) (s : PacketHandler Seen)
      → OnSome (λ m. OfBody C m.body) (decrypt crypto id box nonce s)
  unfolding decrypt
  decrypt-Public id box nonce s = elim (Option-cases (lookup ℕ_discrete id s.keys)) [
    | inl e ↦ rw (e, decrypt) tt
    | inr ((addr, keypair, public_key), e) ↦
        elim (Option-cases (crypto.decrypt_to_vec box nonce public_key keypair.secret_key)) [
          | inl f ↦ rw (e, decrypt, f) tt
          | inr (serialized, f) ↦ rw (e, decrypt, f) (decoded serialized)
        ]
  ]

  recv_payload-Keeps :
      (prev : Option Seq32) (seq : Seq32) (from : SocketAddr) (from_id : Uuid) (payload : Payload)
      (s : PacketHandler Seen)
      → Keeps P R s (recv_payload crypto lru ent prev seq from from_id payload s)
  unfolding recv_payload
  recv_payload-Keeps prev seq from from_id (Payload.h handshake) s = λ v. (
    emit-AllOut P (to_handshaker cast (packet from handshake from_id)) s.io
        (fits (to_handshaker cast (packet from handshake from_id)) (tt, omega arith) tt) v.0,
    v.1,
  )
  recv_payload-Keeps prev seq from from_id (Payload.b box nonce) s =
      recv_encrypted-Keeps prev seq from from_id (decrypt crypto from_id box nonce s)
        (decrypt-Public from_id box nonce s) s

  recv-Keeps :
      (p : Packet) (from : SocketAddr) (s : PacketHandler Seen)
      → Keeps P R s (recv crypto lru ent p from s)
  unfolding recv
  recv-Keeps p from s =
      recv_payload-Keeps (lookup ℕ_discrete from s.rx_sequences) p.s from p.id p.p
        (record s { rx_sequences = insert ℕ_discrete from p.s s.rx_sequences })

body-Unit : (body : Body) → OfBody (λ body. Unit) body
body-Unit (Body.peer_request _) = tt
body-Unit body = tt

decoded-Unit :
    (crypto : Crypto) (b : Bytes)
    → OnSome (λ m. OfBody (λ body. Unit) m.body) (crypto.decode_message b)
decoded-Unit crypto b = elim (Option-cases (crypto.decode_message b)) [
  | inl e ↦ rw e tt
  | inr (m, e) ↦ rw e (body-Unit m.body)
]

module _ {Seen : Type 0} (crypto : Crypto) (lru : Lru Seen) (ent : Entropy) where
  pub packets-Keeps :
      (P : Effect → Type 0) (R : Dict Uuid PeerKeys → Interval → Type 0) (top : ℕ)
      (fits : (e : Effect) → Fits 0 top e → IsPlain e → P e) (C : PeerRequest → Type 0)
      (requests : (id : Uuid) (body : PeerRequest)
        → C body
        → 3 < top
        → P (to_peer_manager cast (request id body)))
      (decoded : (b : Bytes) → OnSome (λ m. OfBody C m.body) (crypto.decode_message b))
      (now : Timestamp) (message : PacketHandlerMessage) (bound : packet_level message < suc top)
      (changes : (keys : Dict Uuid PeerKeys)
        → message ≡ PacketHandlerMessage.keys_updated keys
        → (k : Dict Uuid PeerKeys) (t : Interval) → R k t
        → R keys t)
      (s : PacketHandler Seen)
      → Keeps P R s (handle_message crypto lru ent now message s)
  unfolding handle_message start_recv_loop encrypt_and_send_message send_broadcast send_peer_status
      update_rate_control
  packets-Keeps P R top fits C requests decoded now (PacketHandlerMessage.set_broadcast_handler _ _)
        bound changes s =
      (λ v. v)
  packets-Keeps P R top fits C requests decoded now (PacketHandlerMessage.start socket) bound
        changes s =
      (λ v. v)
  packets-Keeps P R top fits C requests decoded now (PacketHandlerMessage.send to payload) bound
        changes s =
      send-Keeps crypto P R top fits (omega arith) now payload to s
  packets-Keeps P R top fits C requests decoded now (PacketHandlerMessage.recv from p) bound changes
        s =
      recv-Keeps crypto lru ent P R top fits C requests decoded (omega arith) p from s
  packets-Keeps P R top fits C requests decoded now
        (PacketHandlerMessage.send_message target message) bound changes s =
      encrypt_and_send_messages-Keeps crypto lru ent P R top fits (omega arith) (target ∷ [])
        message s
  packets-Keeps P R top fits C requests decoded now (PacketHandlerMessage.send_broadcast payload)
        bound changes s =
      send_new-Keeps crypto lru ent P R top fits (omega arith) (Body.broadcast payload) s
  packets-Keeps P R top fits C requests decoded now
        (PacketHandlerMessage.broadcast_peer_status status) bound changes s =
      send_new-Keeps crypto lru ent P R top fits (omega arith)
        (Body.peer_request (PeerRequest.peer_status status)) s
  packets-Keeps P R top fits C requests decoded now (PacketHandlerMessage.keys_updated keys) bound
        changes s =
      λ v. (v.0, changes keys refl s.keys s.rate_control_timer v.1)
  packets-Keeps P R top fits C requests decoded now
        (PacketHandlerMessage.subscribers_updated subscribers) bound changes s =
      (λ v. v)
  packets-Keeps P R top fits C requests decoded now PacketHandlerMessage.rate_control bound changes
        s =
      rate_control_each-Keeps P R s.tx_sequences s

  -- For a message the packet handler sends only what fits its rank and the message.
  pub handle_message-Fits :
      (now : Timestamp) (message : PacketHandlerMessage) (s : PacketHandler Seen)
      → AllOut (Fits 0 (packet_level message)) s.io
      → AllOut (Fits 0 (packet_level message)) (handle_message crypto lru ent now message s).io
  handle_message-Fits now message s v =
      (packets-Keeps (Fits 0 (packet_level message)) (λ k t. Unit) (packet_level message)
        (λ e h p. h) (λ body. Unit) (λ id body c h. (tt, omega arith)) (decoded-Unit crypto) now
        message (omega arith) (λ keys e k t r. tt) s (v, tt)).0
