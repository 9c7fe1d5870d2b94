-- ===== src/PacketHandler/Fanout.antt =====
-- packet_handler.rs: to whom a message goes out, and under which sequence numbers.
use gwyh.Base.{
  Option-cases, inl, inr, ℕ, suc, ◌+◌, ◌%◌, ◌^◌, ◌≡◌, refl, ap, ap₂, sym, ◌∙◌, none, some, List, [],
  ◌∷◌, ◌++◌, arith, ℕ_discrete, filter_map, append_assoc, append-nil, unwrap_or, ite, if_pos,
  if_neg,
}
use gwyh.Base.Dict.{Dict, lookup, lookup-insert, insert}
use gwyh.External.{Uuid, SocketAddr, Bytes, KeyPair, PublicKey, SecretKey, Nonce, Entropy}
use gwyh.Sequence.{u32_modulus, new as new_seq}
use gwyh.Message.{Message}
use gwyh.Packet.{Payload}
use gwyh.Actor.{
  Effect, PeerKeys, send_to, emit, to_packet_handler, to_handshaker, to_peer_manager,
  handle_broadcast, notify_one,
}
use gwyh.PacketHandler.State.{PacketHandler, Lru, Crypto}
use gwyh.PacketHandler.Send.{
  next_seq, packet_to, multisend_each, multisend, encrypt_each, encrypt, keys_for, count_keys,
  encrypt_and_send_messages,
}

-- Encryption of a message that fits succeeds.
abbrev pub Encrypts : Crypto → Type 0
Encrypts crypto =
    (serialized : Bytes) (nonce : Nonce) (public_key : PublicKey) (secret_key : SecretKey)
    → (box : Bytes) × (crypto.encrypt_to_vecbox serialized nonce public_key secret_key ≡ some box)

-- The payloads for an address, in order.
abbrev pub payloads_to : SocketAddr → List (Payload × SocketAddr) → List Payload
payloads_to addr [] = []
payloads_to addr ((payload, to) ∷ payloads) =
    ite (ℕ_discrete to addr) (payload ∷ payloads_to addr payloads) (payloads_to addr payloads)

-- The datagrams that were sent to an address, in order.
abbrev pub datagrams : SocketAddr → List Effect → List Bytes
datagrams addr [] = []
datagrams addr (send_to _ to datagram ∷ out) =
    ite (ℕ_discrete to addr) (datagram ∷ datagrams addr out) (datagrams addr out)
datagrams addr (_ ∷ out) = datagrams addr out

datagrams-append :
    (addr : SocketAddr) (out out' : List Effect)
    → datagrams addr (out ++ out') ≡ datagrams addr out ++ datagrams addr out'
datagrams-append addr [] out' = refl
datagrams-append addr (send_to _ to datagram ∷ out) out' =
    ground (arith, datagrams-append addr out out')
datagrams-append addr (to_packet_handler _ _ ∷ out) out' = datagrams-append addr out out'
datagrams-append addr (to_handshaker _ _ ∷ out) out' = datagrams-append addr out out'
datagrams-append addr (to_peer_manager _ _ ∷ out) out' = datagrams-append addr out out'
datagrams-append addr (handle_broadcast _ _ ∷ out) out' = datagrams-append addr out out'
datagrams-append addr (notify_one _ ∷ out) out' = datagrams-append addr out out'

abbrev pub seq_for : {Seen : Type 0} → SocketAddr → PacketHandler Seen → ℕ
seq_for addr s = (unwrap_or (lookup ℕ_discrete addr s.tx_sequences) new_seq).value

-- The datagrams of packets with the given payloads, numbered from the one after `n` on.
abbrev pub numbered : Crypto → Uuid → ℕ → List Payload → List Bytes
numbered crypto id n [] = []
numbered crypto id n (payload ∷ payloads) =
    let next = (n + 1) % 2 ^ 32 in
    crypto.encode_packet (record { s = record { value = next }; id = id; p = payload })
    ∷ numbered crypto id next payloads

module _ {Seen : Type 0} (crypto : Crypto) where
  -- Each packet to an address takes the next number, modulo 2 ^ 32, after that of the packet sent
  -- there before (from 1 on for a new address): what a `multisend` sends to an address are the
  -- packets of the payloads for it, in order and so numbered, under the id of this node.
  pub multisend_each-numbered :
      (addr : SocketAddr) (payloads : List (Payload × SocketAddr)) (s : PacketHandler Seen)
      → datagrams addr (multisend_each crypto payloads s).io.out
        ≡ datagrams addr s.io.out
          ++ numbered crypto s.nodeinfo.id (seq_for addr s) (payloads_to addr payloads)
  unfolding multisend_each next_seq
  multisend_each-numbered addr [] s = sym (append-nil _)
  multisend_each-numbered addr ((payload, to) ∷ payloads) s =
      let s' : PacketHandler Seen = record s {
        tx_sequences = insert ℕ_discrete to (next_seq to s) s.tx_sequences;
        io = emit (send_to none to (crypto.encode_packet (packet_to to payload s))) s.io;
      } in
      let step : seq_for addr s'
          ≡ ite (ℕ_discrete to addr) ((seq_for addr s + 1) % u32_modulus) (seq_for addr s) =
        ground (arith, lookup-insert ℕ_discrete to addr (next_seq to s) s.tx_sequences) in
      let sent : SocketAddr → Bytes = λ x. crypto.encode_packet (packet_to x payload s) in
      elim (ℕ_discrete to addr) [
        | yes e ↦
            let here : seq_for addr s' ≡ (seq_for addr s + 1) % u32_modulus =
              step ∙ if_pos (ℕ_discrete to addr) e _ _ in
            let one : datagrams addr s'.io.out ≡ datagrams addr s.io.out ++ sent addr ∷ [] =
              datagrams-append addr s.io.out _
              ∙ ap (◌++◌ (datagrams addr s.io.out))
                  (if_pos (ℕ_discrete to addr) e _ _ ∙ ap (λ x. sent x ∷ []) e) in
            multisend_each-numbered addr payloads s'
            ∙ ap₂ (λ l n. l ++ numbered crypto s.nodeinfo.id n (payloads_to addr payloads)) one here
            ∙ append_assoc (datagrams addr s.io.out) _ _
            ∙ rw (if_pos (ℕ_discrete to addr) e) refl
        | no n ↦
            let here : seq_for addr s' ≡ seq_for addr s =
              step ∙ if_neg (ℕ_discrete to addr) n _ _ in
            let none_ : datagrams addr s'.io.out ≡ datagrams addr s.io.out =
              datagrams-append addr s.io.out _
              ∙ ap (◌++◌ (datagrams addr s.io.out)) (if_neg (ℕ_discrete to addr) n _ _)
              ∙ append-nil _ in
            multisend_each-numbered addr payloads s'
            ∙ ap₂ (λ l n. l ++ numbered crypto s.nodeinfo.id n (payloads_to addr payloads)) none_
                here
            ∙ rw (if_neg (ℕ_discrete to addr) n) refl
      ]

module _ {Seen : Type 0} (crypto : Crypto) (lru : Lru Seen) (ent : Entropy) where
  pub multisend-eq :
      (boxes : List (Payload × SocketAddr)) (s : PacketHandler Seen) (socket : ℕ)
      → s.socket ≡ some socket
      → multisend crypto boxes s ≡ multisend_each crypto boxes s
  unfolding multisend
  multisend-eq boxes s socket e = ground (arith, e)

  multisend_each-seen :
      (boxes : List (Payload × SocketAddr)) (s : PacketHandler Seen)
      → (multisend_each crypto boxes s).seen ≡ s.seen
  unfolding multisend_each
  multisend_each-seen [] s = refl
  multisend_each-seen ((payload, to) ∷ boxes) s = multisend_each-seen boxes _

  -- The boxes of a message for the targets that have keys, in order: each is sealed with the keys of
  -- its target and goes to the address that stands with them.
  pub data Sealed (message : Message) (keys : Dict Uuid PeerKeys)
      : List Uuid → List (Payload × SocketAddr) → Type 0 where
    done : Sealed message keys [] []
    unknown :
        {targets : List Uuid} {boxes : List (Payload × SocketAddr)} (target : Uuid)
        → lookup ℕ_discrete target keys ≡ none
        → Sealed message keys targets boxes
        → Sealed message keys (target ∷ targets) boxes
    sealed :
        {targets : List Uuid} {boxes : List (Payload × SocketAddr)} (target : Uuid)
        (addr : SocketAddr) (keypair : KeyPair) (public_key : PublicKey) (box : Bytes)
        (nonce : Nonce)
        → lookup ℕ_discrete target keys ≡ some (addr, keypair, public_key)
        → crypto.encrypt_to_vecbox
            (crypto.encode_message message)
            nonce
            public_key
            keypair.secret_key
          ≡ some box
        → Sealed message keys targets boxes
        → Sealed message keys (target ∷ targets) ((Payload.b box nonce, addr) ∷ boxes)

  encrypt_each-Sealed :
      (message : Message) (targets : List Uuid) (n : ℕ) (s : PacketHandler Seen)
      → Encrypts crypto
      → Sealed message s.keys targets (encrypt_each crypto ent message (keys_for targets s) n)
  unfolding encrypt_each encrypt filter_map
  encrypt_each-Sealed message [] n s total = Sealed.done
  encrypt_each-Sealed message (target ∷ targets) n s total =
      elim (Option-cases (lookup ℕ_discrete target s.keys)) [
        | inl e ↦
            rw (e, filter_map)
              (Sealed.unknown target e (encrypt_each-Sealed message targets n s total))
        | inr ((addr, keypair, public_key), e) ↦
            let (box, made) =
              total (crypto.encode_message message) (ent.gen_nonce n) public_key
                keypair.secret_key in
            rw (e, filter_map, encrypt_each, made)
              (Sealed.sealed target addr keypair public_key box (ent.gen_nonce n) e made
                (encrypt_each-Sealed message targets (suc n) s total))
      ]

  -- With a socket, and while encryption succeeds, a message goes out once to each target that has
  -- keys, sealed with them, at the address that stands with them, and to nobody else: what an
  -- address gets are the packets of the boxes for it, in order, under the next numbers. The id of the
  -- message counts as seen. (How long the datagrams are is left open.)
  pub encrypt_and_send_messages_lem :
      (targets : List Uuid) (message : Message) (s : PacketHandler Seen) (socket : ℕ)
      → Encrypts crypto
      → s.socket ≡ some socket
      → let s' = encrypt_and_send_messages crypto lru ent targets message s in
        (boxes : List (Payload × SocketAddr)) × Sealed message s.keys targets boxes
        × ((addr : SocketAddr)
            → datagrams addr s'.io.out
              ≡ datagrams addr s.io.out
                ++ numbered crypto s.nodeinfo.id (seq_for addr s) (payloads_to addr boxes))
        × (s'.seen ≡ lru.put message.id s.seen)
  unfolding encrypt_and_send_messages
  encrypt_and_send_messages_lem targets message s socket total e =
      let boxes = encrypt_each crypto ent message (keys_for targets s) s.io.draws in
      let t : PacketHandler Seen = record s {
        seen = lru.put message.id s.seen;
        io = record s.io { draws = count_keys (keys_for targets s) s.io.draws };
      } in
      let sends = multisend-eq boxes t socket e in
      (
        boxes,
        encrypt_each-Sealed message targets s.io.draws s total,
        λ addr.
            ap (λ (x : PacketHandler Seen). datagrams addr x.io.out) sends
            ∙ multisend_each-numbered crypto addr boxes t,
        ap (λ (x : PacketHandler Seen). x.seen) sends ∙ multisend_each-seen boxes t,
      )
