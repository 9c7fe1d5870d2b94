-- ===== src/Session.antt =====
-- handshake.rs, peer_manager.rs and packet_handler.rs together: from a handshake to messages that the
-- other node can open.
mod Tests
use gwyh.Base.{
  ℕ, ◌+◌, ◌≡◌, ◌≢◌, refl, ap, sym, ◌∙◌, Bool, true, Option, none, some, List, [], ◌∷◌, ◌++◌, arith,
  ℕ_discrete, ◌>>=◌,
}
use gwyh.Base.Dict.{Dict, lookup, lookup-insert}
use gwyh.External.{Uuid, SocketAddr, Bytes, Text, KeyPair, PublicKey, Nonce, Timestamp, Entropy}
use gwyh.Peer.{Peer}
use gwyh.Message.{Message, Body, PeerStatus, up}
use gwyh.Actor.{PeerKeys, AndThen, PacketHandlerMessage, call, to_packet_handler, keys_updated}
use gwyh.PeerManager.State.{PeerManager, start_reassign_timer}
use gwyh.PeerManager.Subscriptions.{add_peer, merge_peer, update_keys, replaces}
use gwyh.PeerManager.Invariant.{Inv}
use gwyh.PeerManager.Preserve.{merge-Inv}
use gwyh.PeerManager.Keys.{keys_with, update_keys_lem}
use gwyh.PeerManager.Departures.{start_reassign_timer-out}
use gwyh.Handshaker.Hmac.{Hashing, is_valid_timestamp_for}
use gwyh.Handshaker.State.{Handshaker}
use gwyh.Handshaker.SharedKey.{Has}
use gwyh.Handshaker.LastSent.{last_status}
use gwyh.Handshaker.Agreement.{handshake_run, peer_of_bob, peer_of_alice, handshake_run_agrees}
use gwyh.PacketHandler.State.{PacketHandler, Lru, Crypto}
use gwyh.PacketHandler.Send.{encrypt, decrypt}
use gwyh.PacketHandler.Recv.{handle_message}
use gwyh.PacketHandler.Fanout.{Encrypts}
use gwyh.PacketHandler.Arrival.{Codec, decrypt-encrypt}

-- The peer manager gives the keys of a new peer to the packet handler.
add_peer-keys :
    (ent : Entropy) (p : Peer) (keypair : KeyPair) (public_key : PublicKey) (m : PeerManager)
    → Inv m
    → lookup ℕ_discrete p.id m.known ≡ none
    → p.our_keypair ≡ some keypair
    → p.their_public_key ≡ some public_key
    → (keys : Dict Uuid PeerKeys) × ((add_peer ent p m).io.out
        ≡ m.io.out ++ to_packet_handler call (keys_updated keys) ∷ [])
      × (lookup ℕ_discrete p.id keys ≡ some (p.sockaddr, keypair, public_key))
unfolding add_peer merge_peer replaces
add_peer-keys ent p keypair public_key m v new ours theirs =
    let m' : PeerManager = record m { known = merge_peer p m.known } in
    let (keys, e, found) = update_keys_lem m' (merge-Inv p m v) in
    let known : lookup ℕ_discrete p.id m'.known ≡ some p =
      ground (arith, new, lookup-insert ℕ_discrete p.id p.id p m.known) in
    (
      keys,
      start_reassign_timer-out ent (update_keys m') ∙ ap (λ (x : PeerManager). x.io.out) e,
      found p.id ∙ ap (λ o. o >>= keys_with) known ∙ ground (arith, ours, theirs),
    )

-- The key pairs of a source of randomness belong together.
abbrev pub PairsMatch : {crypto : Crypto} → Codec crypto → Entropy → Type 0
PairsMatch codec ent =
    (n : ℕ) → (ent.gen_keypair n).public_key ≡ codec.public_of (ent.gen_keypair n).secret_key

module _ (ent_a ent_b : Entropy) (hs : Hashing) (addr_a addr_b : SocketAddr)
    (began now_a now_b : Timestamp) (and_then : Option AndThen) {Seen : Type 0} (crypto : Crypto)
    (codec : Codec crypto) (lru : Lru Seen) where
  -- From the hello to the first message, under the conditions under which a handshake completes,
  -- between nodes whose peer managers satisfy their invariant and do not know each other yet: each
  -- handshaker reports the other node, each peer manager that is told so calls its packet handler
  -- with new keys, and then what one node encrypts with the keys that it has for the other is
  -- decrypted there. (Generated key pairs belong together, and encryption succeeds.)
  pub handshake_run-decrypts :
      (a b : Handshaker) (hashed_a hashed_b : List Bytes) (hashed : Bytes) (key : Text)
      (ma mb : PeerManager) (t : PacketHandler Seen) (message_id : Uuid) (payload : Bytes)
      (nonce : Nonce) (now : Timestamp)
      → a.nodeinfo.id ≢ b.nodeinfo.id
      → a.hashed_keys ≡ some hashed_a
      → b.hashed_keys ≡ some hashed_b
      → Has hashed hashed_a
      → Has hashed hashed_b
      → Has key a.nodeinfo.keys
      → Has key b.nodeinfo.keys
      → is_valid_timestamp_for began now_a ≡ true
      → is_valid_timestamp_for began now_b ≡ true
      → hs.has_nanos began ≡ true
      → PairsMatch codec ent_a
      → PairsMatch codec ent_b
      → Encrypts crypto
      → Inv ma
      → Inv mb
      → lookup ℕ_discrete b.nodeinfo.id ma.known ≡ none
      → lookup ℕ_discrete a.nodeinfo.id mb.known ≡ none
      → let message : Message = record { id = message_id; body = Body.broadcast payload } in
        (a' b' : Handshaker) × (bob alice : Peer) × (keys_a keys_b : Dict Uuid PeerKeys)
        × (ours : KeyPair) × (theirs : PublicKey) × (box : Bytes) × (handshake_run ent_a ent_b hs
              addr_a addr_b began now_a now_b and_then a b
            ≡ some (a', b'))
        × (last_status a'.io.out ≡ some (record { peer = bob; state = up }))
        × (last_status b'.io.out ≡ some (record { peer = alice; state = up }))
        × ((add_peer ent_a bob ma).io.out
            ≡ ma.io.out ++ to_packet_handler call (keys_updated keys_a) ∷ [])
        × ((add_peer ent_b alice mb).io.out
            ≡ mb.io.out ++ to_packet_handler call (keys_updated keys_b) ∷ [])
        × (lookup ℕ_discrete b.nodeinfo.id keys_a ≡ some (addr_b, ours, theirs))
        × (encrypt crypto message ours theirs nonce ≡ some (box, nonce))
        × (decrypt crypto a.nodeinfo.id box nonce
              (handle_message crypto lru ent_b now (PacketHandlerMessage.keys_updated keys_b) t)
            ≡ some message)
  unfolding handle_message encrypt
  handshake_run-decrypts a b hashed_a hashed_b hashed key ma mb t message_id payload nonce now other
        ea eb ha hb ka kb va vb nanos pa pb total ia ib na nb =
      let bob = peer_of_bob ent_a ent_b hs addr_a addr_b began now_a now_b and_then a b in
      let alice = peer_of_alice ent_a ent_b hs addr_a addr_b began now_a now_b and_then a b in
      let pair_a = ent_a.gen_keypair (a.io.draws + 1) in
      let pair_b = ent_b.gen_keypair b.io.draws in
      let message : Message = record { id = message_id; body = Body.broadcast payload } in
      let (a', b', run, told_a, told_b) =
        handshake_run_agrees ent_a ent_b hs addr_a addr_b began now_a now_b and_then a b hashed_a
          hashed_b hashed key other ea eb ha hb ka kb va vb nanos in
      let (keys_a, out_a, found_a) =
        add_peer-keys ent_a bob pair_a pair_b.public_key ma ia na refl refl in
      let (keys_b, out_b, found_b) =
        add_peer-keys ent_b alice pair_b pair_a.public_key mb ib nb refl refl in
      let (box, made) =
        total (crypto.encode_message message) nonce pair_b.public_key pair_a.secret_key in
      let sealed : encrypt crypto message pair_a pair_b.public_key nonce ≡ some (box, nonce) =
        rw (made, encrypt) refl in
      (
        a',
        b',
        bob,
        alice,
        keys_a,
        keys_b,
        pair_a,
        pair_b.public_key,
        box,
        run,
        told_a,
        told_b,
        out_a,
        out_b,
        found_a,
        sealed,
        decrypt-encrypt crypto codec message_id payload pair_a pair_b addr_a nonce box a.nodeinfo.id
            (handle_message crypto lru ent_b now (PacketHandlerMessage.keys_updated keys_b) t)
            (pa _) (pb _) found_b sealed,
      )
