-- ===== src/Session/Tests.antt =====
-- The nodes 1 and 2 shake hands, and the first sends a broadcast.
use gwyh.Base.{◌≡◌, ◌++◌, refl, none, some, [], ◌∷◌, ℕ_discrete, arith}
use gwyh.Base.Dict.{Dict, lookup}
use gwyh.External.{Uuid, Bytes, KeyPair, PublicKey}
use gwyh.Peer.{Peer}
use gwyh.Message.{Message, Body, up}
use gwyh.Actor.{PeerKeys, PacketHandlerMessage, call, to_packet_handler, keys_updated}
use gwyh.Samples.{entropy, hashing, node, password}
use gwyh.Samples.Wire.{lru, crypto, crypto-Encrypts, crypto-Codec}
use gwyh.Samples.Handshakers.{hashed, handshaker, password_in, is_recent}
use gwyh.PeerManager.State.{new as new_manager}
use gwyh.PeerManager.Subscriptions.{add_peer}
use gwyh.PeerManager.Invariant.{new-Inv}
use gwyh.Handshaker.State.{Handshaker, new as new_handshaker}
use gwyh.Handshaker.LastSent.{last_status}
use gwyh.Handshaker.Agreement.{handshake_run}
use gwyh.PacketHandler.State.{new as new_packet_handler}
use gwyh.PacketHandler.Send.{encrypt, decrypt}
use gwyh.PacketHandler.Recv.{handle_message}
use gwyh.Session.{PairsMatch, handshake_run-decrypts}

entropy-PairsMatch : PairsMatch crypto-Codec entropy
unfolding crypto-Codec
entropy-PairsMatch n = refl

unknown : (id other : Uuid) → lookup ℕ_discrete id (new_manager (node other)).known ≡ none
unfolding new_manager lookup
unknown id other = refl

handshake_run-decrypts_example :
    let message : Message = record { id = 50; body = Body.broadcast (42 ∷ []) } in
    let ma = new_manager (node 1) in
    let mb = new_manager (node 2) in
    (a' b' : Handshaker) × (bob alice : Peer) × (keys_a keys_b : Dict Uuid PeerKeys)
    × (ours : KeyPair) × (theirs : PublicKey) × (box : Bytes) × (handshake_run entropy entropy
          hashing 10 20 1000 1005 1002 none
          (handshaker 1)
          (handshaker 2)
        ≡ some (a', b'))
    × (last_status a'.io.out ≡ some (record { peer = bob; state = up }))
    × (last_status b'.io.out ≡ some (record { peer = alice; state = up }))
    × ((add_peer entropy bob ma).io.out
        ≡ ma.io.out ++ to_packet_handler call (keys_updated keys_a) ∷ [])
    × ((add_peer entropy alice mb).io.out
        ≡ mb.io.out ++ to_packet_handler call (keys_updated keys_b) ∷ [])
    × (lookup ℕ_discrete 2 keys_a ≡ some (20, ours, theirs))
    × (encrypt crypto message ours theirs 6 ≡ some (box, 6))
    × (decrypt crypto 1 box 6 (
          handle_message crypto lru entropy 2000
            (PacketHandlerMessage.keys_updated keys_b)
            (new_packet_handler lru (node 2)))
        ≡ some message)
unfolding new_handshaker new_manager
handshake_run-decrypts_example =
    handshake_run-decrypts entropy entropy hashing 10 20 1000 1005 1002 none crypto crypto-Codec lru
      (handshaker 1) (handshaker 2) hashed hashed password password (new_manager (node 1))
      (new_manager (node 2)) (new_packet_handler lru (node 2)) 50 (42 ∷ []) 6 2000 (omega arith)
      refl refl password_in password_in password_in password_in is_recent.0 is_recent.1 refl
      entropy-PairsMatch entropy-PairsMatch crypto-Encrypts (new-Inv (node 1)) (new-Inv (node 2))
      (unknown 2 1) (unknown 1 2)
