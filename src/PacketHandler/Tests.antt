-- ===== src/PacketHandler/Tests.antt =====
-- packet_handler.rs: two nodes that hold each other's keys, and a codec.
use gwyh.Base.{
  ℕ, zero, suc, ◌≤◌, ◌≡◌, refl, ap, subst, unwrap_or, false, none, some, List, [], ◌∷◌, ◌++◌,
  length, arith, ℕ_discrete,
}
use gwyh.Base.Dict.{lookup, Distinct}
use gwyh.Base.Set.{contains}
use gwyh.External.{Uuid, SocketAddr, Bytes}
use gwyh.Sequence.{from}
use gwyh.Message.{Message, Body}
use gwyh.Packet.{Packet, Payload}
use gwyh.Actor.{cast, send_to, to_packet_handler, PacketHandlerMessage, recv as recv_message}
use gwyh.Samples.{entropy, node, pair}
use gwyh.Samples.Wire.{lru, lru-LruLaws, crypto, crypto-Encrypts, crypto-Codec}
use gwyh.PacketHandler.State.{PacketHandler, new}
use gwyh.PacketHandler.RateControl.{update_rate_control}
use gwyh.PacketHandler.Send.{multisend_each, decrypt, encrypt_and_send_messages, send_broadcast}
use gwyh.PacketHandler.Recv.{recv, recv_loop_round, handle_message}
use gwyh.PacketHandler.Fanout.{
  Sealed, datagrams, numbered, payloads_to, seq_for, multisend_each-numbered,
  encrypt_and_send_messages_lem,
}
use gwyh.PacketHandler.Delivery.{delivered, recv-delivers_once}
use gwyh.PacketHandler.Nak.{NakSent, recv-answers_nak}
use gwyh.PacketHandler.Arrival.{FitsUdp, send_broadcast-arrives}
use gwyh.PacketHandler.Congestion.{delay_after, update_rate_control_lem}
use gwyh.PacketHandler.Stuck.{handle_message-zero_delay}

-- The node 1 at the address 10, and the node 2 at the address 20.
abbrev alice : PacketHandler (List Uuid)
alice = record (new lru (node 1)) {
  socket = some 5;
  subscribers = 2 ∷ [];
  keys = (2, (20, pair 8, 9)) ∷ [];
  tx_sequences = (20, from 4) ∷ [];
}

abbrev bob : PacketHandler (List Uuid)
bob = record (new lru (node 2)) {
  socket = some 6;
  keys = (1, (10, pair 9, 8)) ∷ [];
  rx_sequences = (10, from 4) ∷ [];
  tx_delay = (10, 0) ∷ [];
  broadcast_handler_async = some 3;
}

abbrev hello_box : Bytes
hello_box = 17 ∷ 0 ∷ 50 ∷ 42 ∷ []

abbrev nak_box : Bytes
nak_box = 17 ∷ 1 ∷ 51 ∷ 5 ∷ 5 ∷ []

opens :
    decrypt crypto 1 hello_box 0 bob ≡ some (record { id = 50; body = Body.broadcast (42 ∷ []) })
unfolding decrypt lookup ℕ_discrete
opens = refl

opens_nak :
    decrypt crypto 1 nak_box 0 bob
    ≡ some (record { id = 51; body = Body.nak (record { start = 5; end = 5 }) })
unfolding decrypt lookup ℕ_discrete
opens_nak = refl

unseen : (id : Uuid) → lru.contains id bob.seen ≡ false
unfolding new contains
unseen id = refl

alice_knows : lookup ℕ_discrete 2 alice.keys ≡ some (20, pair 8, 9)
unfolding lookup ℕ_discrete
alice_knows = refl

bob_knows : lookup ℕ_discrete 1 bob.keys ≡ some (10, pair 9, 8)
unfolding lookup ℕ_discrete
bob_knows = refl

bob_heard : lookup ℕ_discrete 10 bob.rx_sequences ≡ some (from 4)
unfolding lookup ℕ_discrete
bob_heard = refl

bob_no_delay : lookup ℕ_discrete 10 bob.tx_delay ≡ some 0
unfolding lookup ℕ_discrete
bob_no_delay = refl

alice-Distinct : Distinct ℕ_discrete alice.tx_sequences
unfolding lookup
alice-Distinct = (refl, tt)

-- A buffer of zeros.
unfoldable zeros : ℕ → Bytes
zeros zero = []
zeros (suc n) = 0 ∷ zeros n

length-zeros : (n : ℕ) → length (zeros n) ≡ n
unfolding zeros length
length-zeros zero = refl
length-zeros (suc n) = omega (arith, length-zeros n)

greeting-FitsUdp :
    FitsUdp crypto
      (record { id = entropy.new_v4 alice.io.draws; body = Body.broadcast (42 ∷ []) })
      1
      (pair 8)
      9
unfolding length new
greeting-FitsUdp number box nonce made =
    let same : 17 ∷ 0 ∷ 100 ∷ 42 ∷ [] ≡ box = ap (λ o. unwrap_or o []) made in
    subst (λ b. length (number.value ∷ 1 ∷ nonce ∷ length b ∷ b) ≤ 65507) same (omega arith)

send_broadcast-arrives_example :
    (datagram : Bytes) × (p : Packet) × ((send_broadcast crypto lru entropy (42 ∷ []) alice).io.out
      ≡ alice.io.out ++ send_to none 20 datagram ∷ [])
    × ((recv_loop_round crypto (zeros 65536) 10 datagram).1
        ≡ to_packet_handler cast (recv_message 10 p) ∷ [])
    × (delivered (recv crypto lru entropy p 10 bob).io.out ≡ delivered bob.io.out ++ (42 ∷ []) ∷ [])
unfolding crypto-Codec lookup new
send_broadcast-arrives_example =
    send_broadcast-arrives crypto crypto-Codec lru entropy 2 (42 ∷ []) (zeros 65536) 20 10 10
      (pair 8) (pair 9) 5 3 alice bob lru-LruLaws crypto-Encrypts refl refl refl refl alice_knows
      bob_knows refl (unseen (entropy.new_v4 alice.io.draws)) (length-zeros 65536) greeting-FitsUdp

recv-delivers_once_example :
    delivered
      (recv crypto lru entropy
        (record { s = from 6; id = 1; p = Payload.b hello_box 0 })
        11
        (recv crypto lru entropy
          (record { s = from 5; id = 1; p = Payload.b hello_box 0 })
          10
          bob)).io.out
    ≡ delivered bob.io.out ++ (42 ∷ []) ∷ []
recv-delivers_once_example =
    recv-delivers_once crypto lru entropy lru-LruLaws (from 5) (from 6) 1 1 50 10 11 hello_box
      hello_box 0 0 (42 ∷ []) 3 bob refl opens opens (unseen 50)

encrypt_and_send_messages_lem_example :
    let message : Message = record { id = 50; body = Body.broadcast (42 ∷ []) } in
    let s' = encrypt_and_send_messages crypto lru entropy (2 ∷ 7 ∷ []) message alice in
    (boxes : List (Payload × SocketAddr)) × Sealed crypto lru entropy message alice.keys
      (2 ∷ 7 ∷ [])
      boxes
    × ((addr : SocketAddr)
        → datagrams addr s'.io.out
          ≡ datagrams addr alice.io.out
            ++ numbered crypto alice.nodeinfo.id (seq_for addr alice) (payloads_to addr boxes))
    × (s'.seen ≡ lru.put 50 alice.seen)
encrypt_and_send_messages_lem_example =
    encrypt_and_send_messages_lem crypto lru entropy (2 ∷ 7 ∷ [])
      (record { id = 50; body = Body.broadcast (42 ∷ []) }) alice 5 crypto-Encrypts refl

abbrev three : List (Payload × SocketAddr)
three = (Payload.b [] 0, 20) ∷ (Payload.b [] 1, 30) ∷ (Payload.b [] 2, 20) ∷ []

multisend_each-numbered_example :
    datagrams 20 (multisend_each crypto three alice).io.out
    ≡ datagrams 20 alice.io.out
      ++ numbered crypto alice.nodeinfo.id (seq_for 20 alice) (payloads_to 20 three)
multisend_each-numbered_example = multisend_each-numbered crypto 20 three alice

recv-answers_nak_example :
    NakSent crypto lru entropy
      (record { start = 5; end = 5 })
      2
      (from 1)
      10
      (pair 9)
      8
      bob.io.out
      (recv crypto lru entropy
        (record { s = from 5; id = 1; p = Payload.b nak_box 0 })
        10
        bob).io.out
unfolding lookup new
recv-answers_nak_example =
    recv-answers_nak crypto lru entropy (from 4) (from 5) 1 51 10 10 nak_box 0
      (record { start = 5; end = 5 }) (pair 9) 8 6 bob crypto-Encrypts refl bob_knows bob_heard
      (unseen 51) opens_nak

update_rate_control_lem_example :
    lookup ℕ_discrete 20 (update_rate_control alice).tx_delay
    ≡ delay_after 20 (lookup ℕ_discrete 20 alice.tx_sequences) alice
update_rate_control_lem_example = update_rate_control_lem 20 alice alice-Distinct

handle_message-zero_delay_example :
    let nak : Packet = record { s = from 5; id = 1; p = Payload.b nak_box 0 } in
    let s' = handle_message crypto lru entropy 1000 (PacketHandlerMessage.recv 10 nak) bob in
    (lookup ℕ_discrete 10 s'.tx_delay ≡ some 0) × (s'.rc_sequences ≡ bob.rc_sequences)
handle_message-zero_delay_example =
    handle_message-zero_delay 10 crypto lru entropy 1000
      (PacketHandlerMessage.recv 10 (record { s = from 5; id = 1; p = Payload.b nak_box 0 })) bob
      (λ n. refl) bob_no_delay
