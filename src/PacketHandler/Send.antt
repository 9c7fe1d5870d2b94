-- ===== src/PacketHandler/Send.antt =====
-- packet_handler.rs: encryption, and what is sent. Instants are in nanoseconds.
use gwyh.Base.{
  ℕ, suc, ◌+◌, Option, none, some, List, [], ◌∷◌, filter_map, ℕ_discrete, unwrap_or, ◌>>=◌,
}
use gwyh.Base.Dict.{lookup, insert}
use gwyh.External.{Uuid, SocketAddr, Bytes, KeyPair, PublicKey, Nonce, Timestamp, Entropy}
use gwyh.Sequence.{Seq32, inc, new as new_seq}
use gwyh.Message.{Message, Body, PeerRequest, PeerStatus}
use gwyh.Packet.{Packet, Payload}
use gwyh.Actor.{PeerKeys, send_to, emit, draw}
use gwyh.PacketHandler.State.{PacketHandler, Lru, Crypto, rc_default_packet_interval_nanos}

-- The draws after one nonce for each entry.
abbrev pub count_keys : List PeerKeys → ℕ → ℕ
count_keys [] n = n
count_keys (_ ∷ keys) n = count_keys keys (suc n)

module _ (crypto : Crypto) where
  unfoldable pub encrypt : Message → KeyPair → PublicKey → Nonce → Option (Bytes × Nonce)
  encrypt message keypair public_key nonce = do
    enc ←
        crypto.encrypt_to_vecbox (crypto.encode_message message) nonce public_key keypair.secret_key
    some (enc, nonce)

  module _ (ent : Entropy) where
    -- One box for each entry of keys, under a nonce of its own; the draws start at `n`.
    unfoldable pub encrypt_each : Message → List PeerKeys → ℕ → List (Payload × SocketAddr)
    unfolding encrypt
    encrypt_each message [] n = []
    encrypt_each message ((sockaddr, keypair, public_key) ∷ keys) n =
        let rest = encrypt_each message keys (suc n) in
        elim (encrypt message keypair public_key (ent.gen_nonce n)) [
          | none ↦ rest
          | some (vecbox, nonce) ↦ (Payload.b vecbox nonce, sockaddr) ∷ rest
        ]

module _ {Seen : Type 0} where
  -- The targets that have keys.
  abbrev pub keys_for : List Uuid → PacketHandler Seen → List PeerKeys
  keys_for targets s = filter_map (λ target. lookup ℕ_discrete target s.keys) targets

  -- `tx_sequences.entry(addr).or_default().inc()`: the number that the next packet carries.
  unfoldable pub next_seq : SocketAddr → PacketHandler Seen → Seq32
  unfolding inc
  next_seq to_sockaddr s = inc (unwrap_or (lookup ℕ_discrete to_sockaddr s.tx_sequences) new_seq)

  abbrev pub packet_to : SocketAddr → Payload → PacketHandler Seen → Packet
  packet_to to_sockaddr payload s = record {
    s = next_seq to_sockaddr s;
    id = s.nodeinfo.id;
    p = payload;
  }

  module _ (crypto : Crypto) where
    -- `now` is what `Instant::now` returns. The packet waits for the end of the delay since the
    -- last one to this address.
    unfoldable pub send : Timestamp → Payload → SocketAddr → PacketHandler Seen → PacketHandler Seen
    unfolding next_seq emit
    send now payload to_sockaddr s = elim s.socket [
      | none ↦ s
      | some _ ↦
          let tx_delay =
            unwrap_or (lookup ℕ_discrete to_sockaddr s.tx_delay) rc_default_packet_interval_nanos in
          let next_window : Option Timestamp = (do
            prev_tx ← lookup ℕ_discrete to_sockaddr s.last_tx
            some (prev_tx + tx_delay)) in
          record s {
            tx_sequences = insert ℕ_discrete to_sockaddr (next_seq to_sockaddr s) s.tx_sequences;
            last_tx = insert ℕ_discrete to_sockaddr now s.last_tx;
            io =
                emit
                  (send_to next_window to_sockaddr
                    (crypto.encode_packet (packet_to to_sockaddr payload s)))
                  s.io;
          }
    ]

    -- The loop of `multisend`, once there is a socket.
    unfoldable pub multisend_each :
        List (Payload × SocketAddr) → PacketHandler Seen → PacketHandler Seen
    unfolding next_seq emit
    multisend_each [] s = s
    multisend_each ((payload, to_sockaddr) ∷ payloads) s = multisend_each payloads (record s {
      tx_sequences = insert ℕ_discrete to_sockaddr (next_seq to_sockaddr s) s.tx_sequences;
      io =
          emit (send_to none to_sockaddr (crypto.encode_packet (packet_to to_sockaddr payload s)))
            s.io;
    })

    unfoldable pub multisend : List (Payload × SocketAddr) → PacketHandler Seen → PacketHandler Seen
    unfolding multisend_each
    multisend payloads s = elim s.socket [ none ↦ s | some _ ↦ multisend_each payloads s ]

    unfoldable pub decrypt : Uuid → Bytes → Nonce → PacketHandler Seen → Option Message
    decrypt id vecbox nonce s = do
      (_, keypair, public_key) ← lookup ℕ_discrete id s.keys
      serialized ← crypto.decrypt_to_vec vecbox nonce public_key keypair.secret_key
      crypto.decode_message serialized

    module _ (lru : Lru Seen) (ent : Entropy) where
      unfoldable pub encrypt_and_send_messages :
          List Uuid → Message → PacketHandler Seen → PacketHandler Seen
      unfolding encrypt_each multisend
      encrypt_and_send_messages targets message s =
          let keys = keys_for targets s in
          multisend (encrypt_each crypto ent message keys s.io.draws) (record s {
            seen = lru.put message.id s.seen;
            io = record s.io { draws = count_keys keys s.io.draws };
          })

      unfoldable pub encrypt_and_send_message :
          Uuid → Message → PacketHandler Seen → PacketHandler Seen
      unfolding encrypt_and_send_messages
      encrypt_and_send_message target message s = encrypt_and_send_messages (target ∷ []) message s

      unfoldable pub send_broadcast_to_subscribers :
          Message → PacketHandler Seen → PacketHandler Seen
      unfolding encrypt_and_send_messages
      send_broadcast_to_subscribers message s = encrypt_and_send_messages s.subscribers message s

      -- The `Message` literals of `send_broadcast` and `send_peer_status`, under a new id.
      unfoldable pub send_new_to_subscribers : Body → PacketHandler Seen → PacketHandler Seen
      unfolding draw send_broadcast_to_subscribers
      send_new_to_subscribers body s =
          send_broadcast_to_subscribers (record { id = ent.new_v4 s.io.draws; body = body })
            (record s { io = draw s.io })

      unfoldable pub send_broadcast : Bytes → PacketHandler Seen → PacketHandler Seen
      unfolding send_new_to_subscribers
      send_broadcast payload s = send_new_to_subscribers (Body.broadcast payload) s

      unfoldable pub send_peer_status : PeerStatus → PacketHandler Seen → PacketHandler Seen
      unfolding send_new_to_subscribers
      send_peer_status status s =
          send_new_to_subscribers (Body.peer_request (PeerRequest.peer_status status)) s
