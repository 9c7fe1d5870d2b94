-- ===== src/PacketHandler/Nak.antt =====
-- packet_handler.rs: when a NAK goes out.
use gwyh.Base.{
  ◌≡◌, refl, ◌++◌, ◌+◌, ◌%◌, ◌^◌, ℕ, suc, subst, false, none, some, List, [], ◌∷◌, arith,
  ℕ_discrete,
}
use gwyh.Base.Dict.{lookup, insert}
use gwyh.External.{Uuid, SocketAddr, Bytes, Nonce, Handle, Entropy, KeyPair, PublicKey}
use gwyh.Sequence.{Seq32}
use gwyh.Message.{Message, Body, Range}
use gwyh.Packet.{Payload}
use gwyh.Actor.{Effect, send_to, draw}
use gwyh.PacketHandler.State.{PacketHandler, Lru, Crypto, add_u32}
use gwyh.PacketHandler.RateControl.{recv_nak}
use gwyh.PacketHandler.Send.{encrypt, decrypt, next_seq, encrypt_and_send_message}
use gwyh.PacketHandler.Recv.{recv, recv_body, send_nak, recv_encrypted, recv_payload}
use gwyh.PacketHandler.Fanout.{seq_for, Encrypts}
use gwyh.PacketHandler.Arrival.{send_one}

recv_nak-out :
    {Seen : Type 0} (crypto : Crypto) (addr : SocketAddr) (missed : Range) (s : PacketHandler Seen)
    → (recv_nak crypto addr missed s).io.out ≡ s.io.out
unfolding recv_nak draw
recv_nak-out crypto addr missed s = ground (arith)

module _ {Seen : Type 0} (crypto : Crypto) (lru : Lru Seen) (ent : Entropy) where
  -- One NAK for the numbers of a range went to an address, sealed with the given keys: its datagram
  -- is the packet of that node under that number, around the box of the NAK under a new id.
  abbrev pub NakSent :
      Range → Uuid → Seq32 → SocketAddr → KeyPair → PublicKey → List Effect → List Effect → Type 0
  NakSent range id number to keypair public_key before after =
      (n : ℕ) × (box : Bytes) × (crypto.encrypt_to_vecbox
          (crypto.encode_message (record { id = ent.new_v4 n; body = Body.nak range }))
          (ent.gen_nonce (suc n)) public_key keypair.secret_key
        ≡ some box)
      × (after
          ≡ before
            ++ send_to none to (
                crypto.encode_packet
                  (record { s = number; id = id; p = Payload.b box (ent.gen_nonce (suc n)) }))
              ∷ [])

  send_nak-NakSent :
      (prev seq : Seq32) (from : Uuid) (to : SocketAddr) (keypair : KeyPair)
      (public_key : PublicKey) (socket : Handle) (s : PacketHandler Seen)
      → Encrypts crypto
      → s.socket ≡ some socket
      → lookup ℕ_discrete from s.keys ≡ some (to, keypair, public_key)
      → NakSent
          (record { start = (prev.value + 1) % 2 ^ 32; end = seq.value })
          s.nodeinfo.id
          (record { value = (seq_for to s + 1) % 2 ^ 32 })
          to
          keypair
          public_key
          s.io.out
          (send_nak crypto lru ent (some prev) seq from s).io.out
  unfolding send_nak encrypt_and_send_message draw next_seq
  send_nak-NakSent prev seq from to keypair public_key socket s total e k =
      let nak : Message = record {
        id = ent.new_v4 s.io.draws;
        body = Body.nak (record { start = add_u32 prev.value 1; end = seq.value });
      } in
      let nonce = ent.gen_nonce (suc s.io.draws) in
      let (box, made) = total (crypto.encode_message nak) nonce public_key keypair.secret_key in
      let sealed : encrypt crypto nak keypair public_key nonce ≡ some (box, nonce) =
        rw (made, encrypt) refl in
      (
        s.io.draws,
        box,
        made,
        send_one crypto lru ent from nak to keypair public_key box socket
            (record s { io = draw s.io }) e k sealed,
      )

  -- A NAK that was not seen, from an address that a packet came from before, is answered by a NAK to
  -- the sender for the numbers from the one after the last packet to the one of this packet, whether
  -- or not they follow each other: there is a socket, the sender has keys, and encryption succeeds.
  pub recv-answers_nak :
      (prev seq : Seq32) (from id : Uuid) (addr to : SocketAddr) (box : Bytes) (nonce : Nonce)
      (missed : Range) (keypair : KeyPair) (public_key : PublicKey) (socket : Handle)
      (s : PacketHandler Seen)
      → Encrypts crypto
      → s.socket ≡ some socket
      → lookup ℕ_discrete from s.keys ≡ some (to, keypair, public_key)
      → lookup ℕ_discrete addr s.rx_sequences ≡ some prev
      → lru.contains id s.seen ≡ false
      → decrypt crypto from box nonce s ≡ some (record { id = id; body = Body.nak missed })
      → NakSent
          (record { start = (prev.value + 1) % 2 ^ 32; end = seq.value })
          s.nodeinfo.id
          (record { value = (seq_for to s + 1) % 2 ^ 32 })
          to
          keypair
          public_key
          s.io.out
          (recv crypto lru ent
            (record { s = seq; id = from; p = Payload.b box nonce })
            addr
            s).io.out
  unfolding recv recv_payload recv_encrypted recv_body recv_nak send_nak decrypt
      encrypt_and_send_message draw
  recv-answers_nak prev seq from id addr to box nonce missed keypair public_key socket s total e k r
        fresh opened =
      let t : PacketHandler Seen = record s {
        rx_sequences = insert ℕ_discrete addr seq s.rx_sequences;
      } in
      let nak : Range = record { start = (prev.value + 1) % 2 ^ 32; end = seq.value } in
      let number : Seq32 = record { value = (seq_for to s + 1) % 2 ^ 32 } in
      let handled = recv_nak crypto addr missed t in
      rw (opened, recv_payload, recv_encrypted, fresh, r)
        (subst
          (λ before.
            NakSent nak s.nodeinfo.id number to keypair public_key before
              (send_nak crypto lru ent (some prev) seq from handled).io.out)
          (recv_nak-out crypto addr missed t)
          (send_nak-NakSent prev seq from to keypair public_key socket handled total e k))
