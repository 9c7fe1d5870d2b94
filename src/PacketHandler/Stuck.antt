-- ===== src/PacketHandler/Stuck.antt =====
-- packet_handler.rs: what no message changes, over `handle_message` whole.
use gwyh.Base.{
  ℕ, ◌≡◌, refl, ◌∙◌, Option, none, some, List, [], ◌∷◌, arith, ℕ_discrete, Bool-cases, Option-cases,
  inl, inr,
}
use gwyh.Base.Dict.{Dict, lookup, insert, upsert, lookup-upsert}
use gwyh.External.{Uuid, SocketAddr, Timestamp, Entropy}
use gwyh.Sequence.{Seq32}
use gwyh.Message.{Message, Body, PeerRequest, Range}
use gwyh.Packet.{Packet, Payload}
use gwyh.Actor.{PacketHandlerMessage, emit, draw, handle_broadcast}
use gwyh.PacketHandler.State.{PacketHandler, Lru, Crypto, rc_default_packet_interval_nanos}
use gwyh.PacketHandler.RateControl.{
  decrease_delay, rate_control_each, update_rate_control, recv_nak,
}
use gwyh.PacketHandler.Send.{
  send, multisend_each, multisend, encrypt_each, encrypt_and_send_messages,
  encrypt_and_send_message, send_broadcast_to_subscribers, send_new_to_subscribers, decrypt,
  send_broadcast, send_peer_status, keys_for, count_keys,
}
use gwyh.PacketHandler.Recv.{
  recv_broadcast, recv_peer_request, recv_body, send_nak, recv_encrypted, recv_payload, recv,
  start_recv_loop, handle_message,
}

-- A delay of 0 for the address stays, and so do the numbers at the start of the interval.
abbrev pub Stuck : {Seen : Type 0} → SocketAddr → PacketHandler Seen → PacketHandler Seen → Type 0
Stuck addr s s' =
    (lookup ℕ_discrete addr s.tx_delay ≡ some 0 → lookup ℕ_discrete addr s'.tx_delay ≡ some 0)
    × (s'.rc_sequences ≡ s.rc_sequences)

module _ {Seen : Type 0} (addr : SocketAddr) (crypto : Crypto) where
  multisend_each-Stuck :
      (payloads : List (Payload × SocketAddr)) (s : PacketHandler Seen)
      → Stuck addr s (multisend_each crypto payloads s)
  unfolding multisend_each
  multisend_each-Stuck [] s = (λ z. z, refl)
  multisend_each-Stuck ((payload, to) ∷ payloads) s = multisend_each-Stuck payloads _

  multisend-Stuck :
      (payloads : List (Payload × SocketAddr)) (s : PacketHandler Seen)
      → Stuck addr s (multisend crypto payloads s)
  unfolding multisend
  multisend-Stuck payloads s = ground (arith, multisend_each-Stuck payloads s)

  send-Stuck :
      (now : Timestamp) (payload : Payload) (to : SocketAddr) (s : PacketHandler Seen)
      → Stuck addr s (send crypto now payload to s)
  unfolding send
  send-Stuck now payload to s = ground arith

  recv_nak-Stuck :
      (from : SocketAddr) (missed : Range) (s : PacketHandler Seen)
      → ((n : ℕ) → crypto.scaled_delay n 0 ≡ 0)
      → Stuck addr s (recv_nak crypto from missed s)
  unfolding recv_nak
  recv_nak-Stuck from missed s zeros = ground (
    arith,
    zeros s.io.draws,
    lookup-upsert ℕ_discrete from addr (crypto.scaled_delay s.io.draws)
        rc_default_packet_interval_nanos s.tx_delay,
  )

rate_control_each-Stuck :
    {Seen : Type 0} (addr : SocketAddr) (seqs : Dict SocketAddr Seq32) (s : PacketHandler Seen)
    → Stuck addr s (rate_control_each seqs s)
unfolding rate_control_each
rate_control_each-Stuck addr [] s = (λ z. z, refl)
rate_control_each-Stuck addr ((sock, seq) ∷ seqs) s = ground (
  arith,
  rate_control_each-Stuck addr seqs s,
  rate_control_each-Stuck addr seqs (record s {
    tx_delay = upsert ℕ_discrete sock decrease_delay rc_default_packet_interval_nanos s.tx_delay;
  }),
  lookup-upsert ℕ_discrete sock addr decrease_delay rc_default_packet_interval_nanos s.tx_delay,
)

module _ {Seen : Type 0} (addr : SocketAddr) (crypto : Crypto) (lru : Lru Seen)
    (ent : Entropy) where
  encrypt_and_send_messages-Stuck :
      (targets : List Uuid) (message : Message) (s : PacketHandler Seen)
      → Stuck addr s (encrypt_and_send_messages crypto lru ent targets message s)
  unfolding encrypt_and_send_messages
  encrypt_and_send_messages-Stuck targets message s =
      let keys = keys_for targets s in
      multisend-Stuck addr crypto (encrypt_each crypto ent message keys s.io.draws) (record s {
        seen = lru.put message.id s.seen;
        io = record s.io { draws = count_keys keys s.io.draws };
      })

  send_new-Stuck :
      (body : Body) (s : PacketHandler Seen)
      → Stuck addr s (send_new_to_subscribers crypto lru ent body s)
  unfolding send_new_to_subscribers send_broadcast_to_subscribers
  send_new-Stuck body s = encrypt_and_send_messages-Stuck _ _ (record s { io = draw s.io })

  send_nak-Stuck :
      (prev : Option Seq32) (seq : Seq32) (target : Uuid) (s : PacketHandler Seen)
      → Stuck addr s (send_nak crypto lru ent prev seq target s)
  unfolding send_nak encrypt_and_send_message
  send_nak-Stuck none seq target s = (λ z. z, refl)
  send_nak-Stuck (some prev) seq target s =
      encrypt_and_send_messages-Stuck (target ∷ []) _ (record s { io = draw s.io })

  recv_body-Stuck :
      (from : SocketAddr) (from_id id : Uuid) (body : Body) (s : PacketHandler Seen)
      → ((n : ℕ) → crypto.scaled_delay n 0 ≡ 0)
      → Stuck addr s (recv_body crypto lru ent from from_id id body s)
  unfolding recv_body recv_broadcast recv_peer_request send_broadcast_to_subscribers
  recv_body-Stuck from from_id id (Body.broadcast payload) s zeros =
      let message : Message = record { id = id; body = Body.broadcast payload } in
      elim (Option-cases s.broadcast_handler_async) [
        | inl e ↦
            rw (e, recv_body, recv_broadcast)
              (encrypt_and_send_messages-Stuck s.subscribers message s)
        | inr (handler, e) ↦
            rw (e, recv_body, recv_broadcast)
              (encrypt_and_send_messages-Stuck s.subscribers message
                (record s { io = emit (handle_broadcast handler payload) s.io }))
      ]
  recv_body-Stuck from from_id id (Body.peer_request body) s zeros =
      encrypt_and_send_messages-Stuck s.subscribers
        (record { id = id; body = Body.peer_request body }) s
  recv_body-Stuck from from_id id (Body.frame _) s zeros = (λ z. z, refl)
  recv_body-Stuck from from_id id (Body.nak missed) s zeros =
      recv_nak-Stuck addr crypto from missed s zeros

  recv_encrypted-Stuck :
      (prev : Option Seq32) (seq : Seq32) (from : SocketAddr) (from_id : Uuid)
      (opened : Option Message) (s : PacketHandler Seen)
      → ((n : ℕ) → crypto.scaled_delay n 0 ≡ 0)
      → Stuck addr s (recv_encrypted crypto lru ent prev seq from from_id opened s)
  unfolding recv_encrypted
  recv_encrypted-Stuck prev seq from from_id none s zeros = (λ z. z, refl)
  recv_encrypted-Stuck prev seq from from_id (some message) s zeros =
      elim (Bool-cases (lru.contains message.id s.seen)) [
        | inl e ↦ rw (e, recv_encrypted) (send_nak-Stuck prev seq from_id s)
        | inr e ↦
            let handled = recv_body crypto lru ent from from_id message.id message.body s in
            let (still, same) = recv_body-Stuck from from_id message.id message.body s zeros in
            let (still', same') = send_nak-Stuck prev seq from_id handled in
            rw (e, recv_encrypted) ((λ d. still' (still d)), same' ∙ same)
      ]

  recv_payload-Stuck :
      (prev : Option Seq32) (seq : Seq32) (from : SocketAddr) (from_id : Uuid) (payload : Payload)
      (s : PacketHandler Seen)
      → ((n : ℕ) → crypto.scaled_delay n 0 ≡ 0)
      → Stuck addr s (recv_payload crypto lru ent prev seq from from_id payload s)
  unfolding recv_payload
  recv_payload-Stuck prev seq from from_id (Payload.h handshake) s zeros = (λ z. z, refl)
  recv_payload-Stuck prev seq from from_id (Payload.b box nonce) s zeros =
      recv_encrypted-Stuck prev seq from from_id (decrypt crypto from_id box nonce s) s zeros

  recv-Stuck :
      (p : Packet) (from : SocketAddr) (s : PacketHandler Seen)
      → ((n : ℕ) → crypto.scaled_delay n 0 ≡ 0)
      → Stuck addr s (recv crypto lru ent p from s)
  unfolding recv
  recv-Stuck p from s zeros =
      recv_payload-Stuck (lookup ℕ_discrete from s.rx_sequences) p.s from p.id p.p
        (record s { rx_sequences = insert ℕ_discrete from p.s s.rx_sequences }) zeros

  handle_message-Stuck :
      (now : Timestamp) (message : PacketHandlerMessage) (s : PacketHandler Seen)
      → ((n : ℕ) → crypto.scaled_delay n 0 ≡ 0)
      → Stuck addr s (handle_message crypto lru ent now message s)
  unfolding handle_message start_recv_loop encrypt_and_send_message send_broadcast send_peer_status
      update_rate_control
  handle_message-Stuck now (PacketHandlerMessage.set_broadcast_handler _ _) s zeros = (λ z. z, refl)
  handle_message-Stuck now (PacketHandlerMessage.start socket) s zeros = (λ z. z, refl)
  handle_message-Stuck now (PacketHandlerMessage.send to payload) s zeros =
      send-Stuck addr crypto now payload to s
  handle_message-Stuck now (PacketHandlerMessage.recv from p) s zeros = recv-Stuck p from s zeros
  handle_message-Stuck now (PacketHandlerMessage.send_message target message) s zeros =
      encrypt_and_send_messages-Stuck (target ∷ []) message s
  handle_message-Stuck now (PacketHandlerMessage.send_broadcast payload) s zeros =
      send_new-Stuck (Body.broadcast payload) s
  handle_message-Stuck now (PacketHandlerMessage.broadcast_peer_status status) s zeros =
      send_new-Stuck (Body.peer_request (PeerRequest.peer_status status)) s
  handle_message-Stuck now (PacketHandlerMessage.keys_updated keys) s zeros = (λ z. z, refl)
  handle_message-Stuck now (PacketHandlerMessage.subscribers_updated subscribers) s zeros =
      (λ z. z, refl)
  handle_message-Stuck now PacketHandlerMessage.rate_control s zeros =
      rate_control_each-Stuck addr s.tx_sequences s

  -- Once the delay of an address is 0, it stays 0, whatever message comes, NAKs included, as the
  -- multiple of 0 is 0. And `rc_sequences`, the numbers at the start of an interval, never change.
  pub handle_message-zero_delay :
      (now : Timestamp) (message : PacketHandlerMessage) (s : PacketHandler Seen)
      → ((n : ℕ) → crypto.scaled_delay n 0 ≡ 0)
      → lookup ℕ_discrete addr s.tx_delay ≡ some 0
      → let s' = handle_message crypto lru ent now message s in
        (lookup ℕ_discrete addr s'.tx_delay ≡ some 0) × (s'.rc_sequences ≡ s.rc_sequences)
  handle_message-zero_delay now message s zeros h =
      let (still, same) = handle_message-Stuck now message s zeros in (still h, same)
