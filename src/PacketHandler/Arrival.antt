-- ===== src/PacketHandler/Arrival.antt =====
-- packet_handler.rs: a broadcast, from the sender's `send_broadcast` to the handler of a peer.
use gwyh.Base.{
  ◌≡◌, ◌≤◌, refl, ap, ◌∙◌, ◌++◌, false, none, some, [], ◌∷◌, arith, ℕ_discrete, drop, length,
  filter_map,
}
use gwyh.Base.Dict.{lookup}
use gwyh.External.{Uuid, SocketAddr, Bytes, Nonce, Handle, Entropy, KeyPair, PublicKey, SecretKey}
use gwyh.Sequence.{Seq32}
use gwyh.Message.{Message, Body}
use gwyh.Packet.{Packet, Payload}
use gwyh.Actor.{cast, draw, send_to, to_packet_handler, recv as recv_message}
use gwyh.PacketHandler.State.{PacketHandler, Lru, Crypto}
use gwyh.PacketHandler.Send.{
  packet_to, keys_for, encrypt, encrypt_each, count_keys, decrypt, multisend_each,
  encrypt_and_send_messages, send_new_to_subscribers, send_broadcast_to_subscribers, send_broadcast,
}
use gwyh.PacketHandler.Recv.{recv, recv_loop_round}
use gwyh.PacketHandler.Buffer.{overwrite-append}
use gwyh.PacketHandler.Fanout.{Encrypts, multisend-eq}
use gwyh.PacketHandler.Delivery.{LruLaws, delivered, recv-delivers}

-- What the crates promise of the packets and messages of a broadcast: `from_slice` reads one value
-- from the start of the slice and returns what `to_vec` was given, and a box opens with the keys of
-- the other side.
pub record Codec (crypto : Crypto) : Type 0 where
  pub public_of : SecretKey → PublicKey
  pub decode_packet-encode_packet :
      (seq : Seq32) (id : Uuid) (box : Bytes) (nonce : Nonce) (rest : Bytes)
      → let p : Packet = record { s = seq; id = id; p = Payload.b box nonce } in
        crypto.decode_packet (crypto.encode_packet p ++ rest) ≡ some p
  pub decode_message-encode_message :
      (id : Uuid) (payload : Bytes)
      → let message : Message = record { id = id; body = Body.broadcast payload } in
        crypto.decode_message (crypto.encode_message message) ≡ some message
  pub decrypt-encrypt :
      (serialized box : Bytes) (nonce : Nonce) (ours theirs : SecretKey)
      → crypto.encrypt_to_vecbox serialized nonce (public_of theirs) ours ≡ some box
      → crypto.decrypt_to_vec box nonce (public_of ours) theirs ≡ some serialized

module _ {Seen : Type 0} (crypto : Crypto) (codec : Codec crypto) where
  -- A box that `encrypt` made of a broadcast for a peer decrypts there to the message, when each side holds the
  -- public key of the other.
  pub decrypt-encrypt :
      (message_id : Uuid) (payload : Bytes) (ours theirs : KeyPair) (addr : SocketAddr)
      (nonce : Nonce) (box : Bytes) (id : Uuid) (t : PacketHandler Seen)
      → ours.public_key ≡ codec.public_of ours.secret_key
      → theirs.public_key ≡ codec.public_of theirs.secret_key
      → lookup ℕ_discrete id t.keys ≡ some (addr, theirs, ours.public_key)
      → let message : Message = record { id = message_id; body = Body.broadcast payload } in
        encrypt crypto message ours theirs.public_key nonce ≡ some (box, nonce)
        → decrypt crypto id box nonce t ≡ some message
  unfolding decrypt encrypt
  decrypt-encrypt message_id payload ours theirs addr nonce box id t e e' k sealed =
      let message : Message = record { id = message_id; body = Body.broadcast payload } in
      let made : crypto.encrypt_to_vecbox (crypto.encode_message message) nonce
            (codec.public_of theirs.secret_key) ours.secret_key
          ≡ some box =
        ground (arith, sealed, e') in
      let opened : crypto.decrypt_to_vec box nonce ours.public_key theirs.secret_key
          ≡ some (crypto.encode_message message) =
        rw e (codec.decrypt-encrypt _ box nonce ours.secret_key theirs.secret_key made) in
      rw (k, opened) (codec.decode_message-encode_message message_id payload)

-- However it is numbered and sealed, the packet of a message is at most as long as a UDP datagram.
abbrev pub FitsUdp : Crypto → Message → Uuid → KeyPair → PublicKey → Type 0
FitsUdp crypto message id keypair public_key =
    (number : Seq32) (box : Bytes) (nonce : Nonce)
    → crypto.encrypt_to_vecbox (crypto.encode_message message) nonce public_key keypair.secret_key
      ≡ some box
    → length (crypto.encode_packet (record { s = number; id = id; p = Payload.b box nonce }))
      ≤ 65507

module _ {Seen : Type 0} (crypto : Crypto) (lru : Lru Seen) (ent : Entropy) where
  pub send_one :
      (target : Uuid) (message : Message) (addr : SocketAddr) (keypair : KeyPair)
      (public_key : PublicKey) (box : Bytes) (socket : Handle) (s : PacketHandler Seen)
      → s.socket ≡ some socket
      → lookup ℕ_discrete target s.keys ≡ some (addr, keypair, public_key)
      → encrypt crypto message keypair public_key (ent.gen_nonce s.io.draws)
        ≡ some (box, ent.gen_nonce s.io.draws)
      → (encrypt_and_send_messages crypto lru ent (target ∷ []) message s).io.out
        ≡ s.io.out
          ++ send_to none addr
              (crypto.encode_packet (packet_to addr (Payload.b box (ent.gen_nonce s.io.draws)) s))
            ∷ []
  unfolding encrypt_and_send_messages encrypt_each multisend_each filter_map
  send_one target message addr keypair public_key box socket s e k sealed =
      let keys = keys_for (target ∷ []) s in
      let t : PacketHandler Seen = record s {
        seen = lru.put message.id s.seen;
        io = record s.io { draws = count_keys keys s.io.draws };
      } in
      let boxes = encrypt_each crypto ent message keys s.io.draws in
      let one : boxes ≡ (Payload.b box (ent.gen_nonce s.io.draws), addr) ∷ [] =
        rw (k, keys_for, encrypt_each, sealed) refl in
      ap (λ (x : PacketHandler Seen). x.io.out) (multisend-eq crypto lru ent boxes t socket e)
      ∙ ap (λ l. (multisend_each crypto l t).io.out) one

module _ {Seen : Type 0} (crypto : Crypto) (codec : Codec crypto) (lru : Lru Seen)
    (ent : Entropy) where
  recv_loop_round-decodes :
      (buf : Bytes) (from : SocketAddr) (seq : Seq32) (id : Uuid) (box : Bytes) (nonce : Nonce)
      → let p : Packet = record { s = seq; id = id; p = Payload.b box nonce } in
        length (crypto.encode_packet p) ≤ length buf
        → (recv_loop_round crypto buf from (crypto.encode_packet p)).1
          ≡ to_packet_handler cast (recv_message from p) ∷ []
  unfolding recv_loop_round
  recv_loop_round-decodes buf from seq id box nonce fits =
      let p : Packet = record { s = seq; id = id; p = Payload.b box nonce } in
      rw
        (
          overwrite-append (crypto.encode_packet p) buf fits,
          codec.decode_packet-encode_packet seq id box nonce
              (drop (length (crypto.encode_packet p)) buf),
        )
        refl

  -- A broadcast arrives: the sender has a socket and the receiver as its one subscriber, each side
  -- holds the other's key, encryption succeeds, the packet is at most 65507 bytes long, which is what
  -- UDP carries, and the receiver has a handler and has not seen the id. Then the sender sends one
  -- datagram to the address that it has for the receiver. A round of the receive loop, whatever is
  -- left in its buffer of 65536 bytes, makes of it one message to the packet handler, and when that
  -- one is handled the handler gets the payload, once. (The cache has room for two entries.)
  pub send_broadcast-arrives :
      (target : Uuid) (payload buf : Bytes) (addr back from : SocketAddr) (ours theirs : KeyPair)
      (socket handler : Handle) (s t : PacketHandler Seen)
      → LruLaws lru
      → Encrypts crypto
      → ours.public_key ≡ codec.public_of ours.secret_key
      → theirs.public_key ≡ codec.public_of theirs.secret_key
      → s.socket ≡ some socket
      → s.subscribers ≡ target ∷ []
      → lookup ℕ_discrete target s.keys ≡ some (addr, ours, theirs.public_key)
      → lookup ℕ_discrete s.nodeinfo.id t.keys ≡ some (back, theirs, ours.public_key)
      → t.broadcast_handler_async ≡ some handler
      → lru.contains (ent.new_v4 s.io.draws) t.seen ≡ false
      → length buf ≡ 65536
      → FitsUdp crypto
          (record { id = ent.new_v4 s.io.draws; body = Body.broadcast payload })
          s.nodeinfo.id
          ours
          theirs.public_key
      → (datagram : Bytes) × (p : Packet) × ((send_broadcast crypto lru ent payload s).io.out
          ≡ s.io.out ++ send_to none addr datagram ∷ [])
        × ((recv_loop_round crypto buf from datagram).1
            ≡ to_packet_handler cast (recv_message from p) ∷ [])
        × (delivered (recv crypto lru ent p from t).io.out ≡ delivered t.io.out ++ payload ∷ [])
  unfolding send_broadcast send_new_to_subscribers send_broadcast_to_subscribers draw
  send_broadcast-arrives target payload buf addr back from ours theirs socket handler s t laws total
        e e' sock subs k k' h fresh full fits =
      let u : PacketHandler Seen = record s { io = draw s.io } in
      let message : Message = record {
        id = ent.new_v4 s.io.draws;
        body = Body.broadcast payload;
      } in
      let nonce = ent.gen_nonce u.io.draws in
      let (box, made) =
        total (crypto.encode_message message) nonce theirs.public_key ours.secret_key in
      let sealed : encrypt crypto message ours theirs.public_key nonce ≡ some (box, nonce) =
        rw (made, encrypt) refl in
      let p = packet_to addr (Payload.b box nonce) u in
      let opened =
        decrypt-encrypt crypto codec message.id payload ours theirs back nonce box s.nodeinfo.id t e
          e' k' sealed in
      let (d, _, _) =
        recv-delivers crypto lru ent laws p.s s.nodeinfo.id message.id from box nonce payload
          handler t h opened fresh in
      (
        crypto.encode_packet p,
        p,
        ap (λ l. (encrypt_and_send_messages crypto lru ent l message u).io.out) subs
            ∙ send_one crypto lru ent target message addr ours theirs.public_key box socket u sock k
                sealed,
        recv_loop_round-decodes buf from p.s p.id box nonce
            (omega (arith, full, fits p.s box nonce made)),
        d,
      )
