-- ===== src/PacketHandler/Delivery.antt =====
-- packet_handler.rs: what reaches the broadcast handler, and the set of the messages seen.
use gwyh.Base.{
  ℕ, ◌≡◌, refl, ap, ◌∙◌, true, false, Option, none, some, List, [], ◌∷◌, ◌++◌, arith, ◌>>=◌,
  ℕ_discrete, filter_map,
}
use gwyh.Base.Dict.{Dict, lookup, insert}
use gwyh.External.{Uuid, SocketAddr, Bytes, Nonce, Handle, Entropy}
use gwyh.Sequence.{Seq32}
use gwyh.Message.{Message, Body}
use gwyh.Packet.{Packet, Payload}
use gwyh.Actor.{Effect, PeerKeys, send_to, handle_broadcast, emit, draw}
use gwyh.PacketHandler.State.{PacketHandler, Lru, Crypto, add_u32}
use gwyh.PacketHandler.Send.{
  multisend_each, multisend, encrypt_each, keys_for, count_keys, encrypt_and_send_messages,
  encrypt_and_send_message, send_broadcast_to_subscribers, decrypt,
}
use gwyh.PacketHandler.Recv.{
  recv, recv_broadcast, recv_body, send_nak, recv_encrypted, recv_payload,
}

abbrev payload_of : Effect → Option Bytes
payload_of (handle_broadcast _ payload) = some payload
payload_of _ = none

-- What the broadcast handler was called with, in order.
unfoldable pub delivered : List Effect → List Bytes
unfolding filter_map
delivered out = filter_map payload_of out

-- What the documentation of `LruCache` promises of two entries, with room for two.
pub record LruLaws {Seen : Type 0} (lru : Lru Seen) : Type 0 where
  pub contains-put : (id : Uuid) (seen : Seen) → lru.contains id (lru.put id seen) ≡ true
  pub contains-put_next :
      (id next : Uuid) (seen : Seen) → lru.contains id (lru.put next (lru.put id seen)) ≡ true

delivered-send :
    (out : List Effect) (w : Option ℕ) (addr : SocketAddr) (b : Bytes)
    → delivered (out ++ send_to w addr b ∷ []) ≡ delivered out
unfolding delivered
delivered-send [] w addr b = refl
delivered-send (d ∷ out) w addr b = ground (arith, delivered-send out w addr b)

delivered-handle :
    (out : List Effect) (h : Handle) (b : Bytes)
    → delivered (out ++ handle_broadcast h b ∷ []) ≡ delivered out ++ b ∷ []
unfolding delivered
delivered-handle [] h b = refl
delivered-handle (d ∷ out) h b = ground (arith, delivered-handle out h b)

-- Nothing is delivered, and the keys stay.
abbrev Silent : {Seen : Type 0} → PacketHandler Seen → PacketHandler Seen → Type 0
Silent s s' = (delivered s'.io.out ≡ delivered s.io.out) × (s'.keys ≡ s.keys)

-- What `decrypt` finds, from the keys alone.
abbrev opened_with : Crypto → Uuid → Bytes → Nonce → Dict Uuid PeerKeys → Option Message
opened_with crypto id vecbox nonce keys = do
  (_, keypair, public_key) ← lookup ℕ_discrete id keys
  serialized ← crypto.decrypt_to_vec vecbox nonce public_key keypair.secret_key
  crypto.decode_message serialized

module _ {Seen : Type 0} (crypto : Crypto) where
  multisend_each-Silent :
      (payloads : List (Payload × SocketAddr)) (s : PacketHandler Seen)
      → Silent s (multisend_each crypto payloads s)
        × ((multisend_each crypto payloads s).seen ≡ s.seen)
  unfolding multisend_each
  multisend_each-Silent [] s = ((refl, refl), refl)
  multisend_each-Silent ((payload, to) ∷ payloads) s =
      let ((d, k), e) = multisend_each-Silent payloads _ in
      ((d ∙ delivered-send s.io.out _ _ _, k), e)

  multisend-Silent :
      (payloads : List (Payload × SocketAddr)) (s : PacketHandler Seen)
      → Silent s (multisend crypto payloads s) × ((multisend crypto payloads s).seen ≡ s.seen)
  unfolding multisend
  multisend-Silent payloads s = ground (arith, multisend_each-Silent payloads s)

module _ {Seen : Type 0} (crypto : Crypto) (lru : Lru Seen) (ent : Entropy) where
  encrypt_and_send_messages-Silent :
      (targets : List Uuid) (message : Message) (s : PacketHandler Seen)
      → let s' = encrypt_and_send_messages crypto lru ent targets message s in
        Silent s s' × (s'.seen ≡ lru.put message.id s.seen)
  unfolding encrypt_and_send_messages
  encrypt_and_send_messages-Silent targets message s =
      let keys = keys_for targets s in
      multisend-Silent crypto (encrypt_each crypto ent message keys s.io.draws) (record s {
        seen = lru.put message.id s.seen;
        io = record s.io { draws = count_keys keys s.io.draws };
      })

  send_nak-Silent :
      (prev : Option Seq32) (seq : Seq32) (target : Uuid) (s : PacketHandler Seen)
      → Silent s (send_nak crypto lru ent prev seq target s)
  unfolding send_nak encrypt_and_send_message
  send_nak-Silent none seq target s = (refl, refl)
  send_nak-Silent (some prev) seq target s =
      (encrypt_and_send_messages-Silent (target ∷ [])
        (record {
          id = ent.new_v4 s.io.draws;
          body = Body.nak (record { start = add_u32 prev.value 1; end = seq.value });
        })
        (record s { io = draw s.io })).0

  send_nak-keeps :
      (laws : LruLaws lru) (prev : Option Seq32) (seq : Seq32) (target id : Uuid)
      (s : PacketHandler Seen) (seen : Seen)
      → s.seen ≡ lru.put id seen
      → lru.contains id (send_nak crypto lru ent prev seq target s).seen ≡ true
  unfolding send_nak encrypt_and_send_message
  send_nak-keeps laws none seq target id s seen e =
      ap (lru.contains id) e ∙ laws.contains-put id seen
  send_nak-keeps laws (some prev) seq target id s seen e =
      let nak : Message = record {
        id = ent.new_v4 s.io.draws;
        body = Body.nak (record { start = add_u32 prev.value 1; end = seq.value });
      } in
      let (_, puts) =
        encrypt_and_send_messages-Silent (target ∷ []) nak (record s { io = draw s.io }) in
      ap (lru.contains id) (puts ∙ ap (lru.put nak.id) e) ∙ laws.contains-put_next id nak.id seen

  recv_broadcast-delivers :
      (id : Uuid) (payload : Bytes) (handler : Handle) (s : PacketHandler Seen)
      → s.broadcast_handler_async ≡ some handler
      → let s' = recv_broadcast crypto lru ent id payload s in
        (delivered s'.io.out ≡ delivered s.io.out ++ payload ∷ []) × (s'.keys ≡ s.keys)
  unfolding recv_broadcast send_broadcast_to_subscribers
  recv_broadcast-delivers id payload handler s e =
      let t : PacketHandler Seen = record s { io = emit (handle_broadcast handler payload) s.io } in
      let message : Message = record { id = id; body = Body.broadcast payload } in
      let ((d, k), _) = encrypt_and_send_messages-Silent s.subscribers message t in
      rw (e, recv_broadcast) (d ∙ delivered-handle s.io.out handler payload, k)

  -- A box that decrypts to a broadcast not seen yet reaches the handler once, and its id counts as
  -- seen from then on.
  pub recv-delivers :
      (laws : LruLaws lru) (seq : Seq32) (from id : Uuid) (addr : SocketAddr) (box : Bytes)
      (nonce : Nonce) (payload : Bytes) (handler : Handle) (s : PacketHandler Seen)
      → s.broadcast_handler_async ≡ some handler
      → decrypt crypto from box nonce s ≡ some (record { id = id; body = Body.broadcast payload })
      → lru.contains id s.seen ≡ false
      → let s' =
          recv crypto lru ent (record { s = seq; id = from; p = Payload.b box nonce }) addr s in
        (delivered s'.io.out ≡ delivered s.io.out ++ payload ∷ [])
        × (s'.keys ≡ s.keys)
        × (lru.contains id s'.seen ≡ true)
  unfolding recv recv_payload recv_encrypted recv_body decrypt
  recv-delivers laws seq from id addr box nonce payload handler s e opened fresh =
      let prev = lookup ℕ_discrete addr s.rx_sequences in
      let t : PacketHandler Seen = record s {
        rx_sequences = insert ℕ_discrete addr seq s.rx_sequences;
      } in
      let b = recv_broadcast crypto lru ent id payload t in
      let t' : PacketHandler Seen = record b { seen = lru.put id b.seen } in
      let (d, k) = recv_broadcast-delivers id payload handler t e in
      let (nd, nk) = send_nak-Silent prev seq from t' in
      let kept = send_nak-keeps laws prev seq from id t' b.seen refl in
      rw (opened, recv_payload, recv_encrypted, fresh) (nd ∙ d, nk ∙ k, kept)

  recv-seen :
      (seq : Seq32) (from : Uuid) (addr : SocketAddr) (box : Bytes) (nonce : Nonce)
      (message : Message) (s : PacketHandler Seen)
      → decrypt crypto from box nonce s ≡ some message
      → lru.contains message.id s.seen ≡ true
      → let s' =
          recv crypto lru ent (record { s = seq; id = from; p = Payload.b box nonce }) addr s in
        delivered s'.io.out ≡ delivered s.io.out
  unfolding recv recv_payload recv_encrypted decrypt
  recv-seen seq from addr box nonce message s opened old =
      let prev = lookup ℕ_discrete addr s.rx_sequences in
      let t : PacketHandler Seen = record s {
        rx_sequences = insert ℕ_discrete addr seq s.rx_sequences;
      } in
      rw (opened, recv_payload, recv_encrypted, old) (send_nak-Silent prev seq from t).0

  -- While a broadcast handler is set: when a broadcast that was not seen comes in two packets, one
  -- after the other and from whatever peers and addresses, the handler is called once, with its
  -- payload. A cache with room for two entries is enough.
  pub recv-delivers_once :
      (laws : LruLaws lru) (seq seq' : Seq32) (from from' id : Uuid) (addr addr' : SocketAddr)
      (box box' : Bytes) (nonce nonce' : Nonce) (payload : Bytes) (handler : Handle)
      (s : PacketHandler Seen)
      → s.broadcast_handler_async ≡ some handler
      → decrypt crypto from box nonce s ≡ some (record { id = id; body = Body.broadcast payload })
      → decrypt crypto from' box' nonce' s
        ≡ some (record { id = id; body = Body.broadcast payload })
      → lru.contains id s.seen ≡ false
      → let first : Packet = record { s = seq; id = from; p = Payload.b box nonce } in
        let second : Packet = record { s = seq'; id = from'; p = Payload.b box' nonce' } in
        delivered (recv crypto lru ent second addr' (recv crypto lru ent first addr s)).io.out
        ≡ delivered s.io.out ++ payload ∷ []
  unfolding decrypt
  recv-delivers_once laws seq seq' from from' id addr addr' box box' nonce nonce' payload handler s
        e o o' fresh =
      let t = recv crypto lru ent (record { s = seq; id = from; p = Payload.b box nonce }) addr s in
      let (d, k, c) = recv-delivers laws seq from id addr box nonce payload handler s e o fresh in
      let again : decrypt crypto from' box' nonce' t
          ≡ some (record { id = id; body = Body.broadcast payload }) =
        ap (opened_with crypto from' box' nonce') k ∙ o' in
      recv-seen seq' from' addr' box' nonce' (record { id = id; body = Body.broadcast payload }) t
        again c
      ∙ d
