-- ===== src/PacketHandler/Recv.antt =====
-- packet_handler.rs: what comes in from the socket, and `handle_message`.
use gwyh.Base.{Option, none, some, List, [], ◌∷◌, ℕ_discrete, if◌then◌else◌}
use gwyh.Base.Dict.{lookup, insert}
use gwyh.External.{Uuid, SocketAddr, Bytes, Timestamp, Handle, Entropy}
use gwyh.Sequence.{Seq32}
use gwyh.Message.{Message, Body, PeerRequest}
use gwyh.Packet.{Packet, Payload}
use gwyh.Actor.{
  Effect, PacketHandlerMessage, cast, emit, draw, to_packet_handler, to_handshaker, to_peer_manager,
  handle_broadcast, packet, request, recv as recv_message,
}
use gwyh.PacketHandler.State.{PacketHandler, Lru, Crypto, add_u32}
use gwyh.PacketHandler.RateControl.{update_rate_control, recv_nak}
use gwyh.PacketHandler.Send.{
  send, decrypt, encrypt_and_send_message, send_broadcast_to_subscribers, send_broadcast,
  send_peer_status,
}

-- `recv_from`: the datagram overwrites the start of the buffer, and what does not fit is dropped.
unfoldable pub overwrite : Bytes → Bytes → Bytes
overwrite [] buf = buf
overwrite (_ ∷ _) [] = []
overwrite (b ∷ datagram) (_ ∷ buf) = b ∷ overwrite datagram buf

-- One round of the receive loop: the buffer is overwritten with the datagram and then decoded whole.
-- The result is the buffer and the message that the round casts, if any.
unfoldable pub recv_loop_round : Crypto → Bytes → SocketAddr → Bytes → Bytes × List Effect
unfolding overwrite
recv_loop_round crypto buf addr datagram =
    let buf' = overwrite datagram buf in
    (
      buf',
      elim (crypto.decode_packet buf') [
        | none ↦ []
        | some p ↦ to_packet_handler cast (recv_message addr p) ∷ []
      ],
    )

module _ {Seen : Type 0} (crypto : Crypto) (lru : Lru Seen) (ent : Entropy) where
  abbrev pub put_seen : Uuid → PacketHandler Seen → PacketHandler Seen
  put_seen id s = record s { seen = lru.put id s.seen }

  unfoldable pub recv_broadcast : Uuid → Bytes → PacketHandler Seen → PacketHandler Seen
  unfolding emit send_broadcast_to_subscribers
  recv_broadcast id payload s =
      send_broadcast_to_subscribers crypto lru ent
        (record { id = id; body = Body.broadcast payload })
        (elim s.broadcast_handler_async [
          | none ↦ s
          | some handler ↦ record s { io = emit (handle_broadcast handler payload) s.io }
        ])

  unfoldable pub recv_peer_request :
      Uuid → Uuid → PeerRequest → PacketHandler Seen → PacketHandler Seen
  unfolding emit send_broadcast_to_subscribers
  recv_peer_request message_id from_id body s =
      let sent =
        send_broadcast_to_subscribers crypto lru ent
          (record { id = message_id; body = Body.peer_request body }) s in
      record sent { io = emit (to_peer_manager cast (request from_id body)) sent.io }

  -- The `match` on the body of a message that was not seen.
  unfoldable pub recv_body :
      SocketAddr → Uuid → Uuid → Body → PacketHandler Seen → PacketHandler Seen
  unfolding recv_broadcast recv_peer_request recv_nak
  recv_body from_sockaddr from_id message_id (Body.broadcast payload) s =
      put_seen message_id (recv_broadcast message_id payload s)
  recv_body from_sockaddr from_id message_id (Body.peer_request body) s =
      put_seen message_id (recv_peer_request message_id from_id body s)
  recv_body from_sockaddr from_id message_id (Body.frame _) s = s
  recv_body from_sockaddr from_id message_id (Body.nak seq) s = recv_nak crypto from_sockaddr seq s

  -- The NAK for the numbers between the last packet and this one, under a new message id.
  unfoldable pub send_nak : Option Seq32 → Seq32 → Uuid → PacketHandler Seen → PacketHandler Seen
  unfolding draw encrypt_and_send_message
  send_nak none seq target s = s
  send_nak (some prev) seq target s =
      encrypt_and_send_message crypto lru ent target
        (record {
          id = ent.new_v4 s.io.draws;
          body = Body.nak (record { start = add_u32 prev.value 1; end = seq.value });
        })
        (record s { io = draw s.io })

  unfoldable pub recv_encrypted :
      Option Seq32
      → Seq32
      → SocketAddr
      → Uuid
      → Option Message
      → PacketHandler Seen
      → PacketHandler Seen
  unfolding recv_body send_nak
  recv_encrypted prev seq from_sockaddr from_id none s = s
  recv_encrypted prev seq from_sockaddr from_id (some message) s = send_nak prev seq from_id (
      if lru.contains message.id s.seen
      then s
      else recv_body from_sockaddr from_id message.id message.body s)

  unfoldable pub recv_payload :
      Option Seq32 → Seq32 → SocketAddr → Uuid → Payload → PacketHandler Seen → PacketHandler Seen
  unfolding recv_encrypted decrypt emit
  recv_payload prev seq from_sockaddr from_id (Payload.h handshake) s = record s {
    io = emit (to_handshaker cast (packet from_sockaddr handshake from_id)) s.io;
  }
  recv_payload prev seq from_sockaddr from_id (Payload.b vecbox nonce) s =
      recv_encrypted prev seq from_sockaddr from_id (decrypt crypto from_id vecbox nonce s) s

  unfoldable pub recv : Packet → SocketAddr → PacketHandler Seen → PacketHandler Seen
  unfolding recv_payload
  recv p from_sockaddr s =
      recv_payload (lookup ℕ_discrete from_sockaddr s.rx_sequences) p.s from_sockaddr p.id p.p
        (record s { rx_sequences = insert ℕ_discrete from_sockaddr p.s s.rx_sequences })

  -- `start_recv_loop` without its task, the rounds of which are `recv_loop_round`.
  unfoldable pub start_recv_loop : Handle → PacketHandler Seen → PacketHandler Seen
  start_recv_loop socket s = record s { socket = some socket }

  unfoldable pub handle_message :
      Timestamp → PacketHandlerMessage → PacketHandler Seen → PacketHandler Seen
  unfolding start_recv_loop recv send encrypt_and_send_message send_broadcast send_peer_status
      update_rate_control
  handle_message now (PacketHandlerMessage.set_broadcast_handler async_handler handler) s =
      record s { broadcast_handler_async = async_handler; broadcast_handler = handler }
  handle_message now (PacketHandlerMessage.start socket) s = start_recv_loop socket s
  handle_message now (PacketHandlerMessage.send sockaddr payload) s =
      send crypto now payload sockaddr s
  handle_message now (PacketHandlerMessage.recv sockaddr p) s = recv p sockaddr s
  handle_message now (PacketHandlerMessage.send_message target message) s =
      encrypt_and_send_message crypto lru ent target message s
  handle_message now (PacketHandlerMessage.send_broadcast payload) s =
      send_broadcast crypto lru ent payload s
  handle_message now (PacketHandlerMessage.broadcast_peer_status status) s =
      send_peer_status crypto lru ent status s
  handle_message now (PacketHandlerMessage.keys_updated keys) s = record s { keys = keys }
  handle_message now (PacketHandlerMessage.subscribers_updated subscribers) s = record s {
    subscribers = subscribers;
  }
  handle_message now PacketHandlerMessage.rate_control s = update_rate_control s
