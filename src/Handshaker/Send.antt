-- ===== src/Handshaker/Send.antt =====
-- handshake.rs: the operations that send a step of the handshake, `send_peer_up` and `bootstrap`.
use gwyh.Base.{◌+◌, Bool, Option, none, some, List, filter_map, ◌>>=◌, ℕ_discrete, if◌then◌else◌}
use gwyh.Base.Dict
use gwyh.Base.Set
use gwyh.External.{Uuid, SocketAddr, Bytes, Text, PublicKey, Timestamp, Entropy, Pair-discrete}
use gwyh.Peer.{Peer}
use gwyh.Message.{Body, PeerRequest, up}
use gwyh.Packet.{Payload, HandshakeStep}
use gwyh.Actor.{
  Io, AndThen, start_subscription, cast, call, task, emit, draw, to_packet_handler, to_handshaker,
  to_peer_manager, send, send_message, send_hello as hello_to, request,
}
use gwyh.Handshaker.Hmac.{
  Hashing, handshake_bootstrap_delay_millis_min, handshake_bootstrap_delay_millis_max,
  compute_hmacs,
}
use gwyh.Handshaker.State.{Handshaker, new_hello}

abbrev pub handshake_payload : Uuid → HandshakeStep → Payload
handshake_payload id step = Payload.h (record { id = id; step = step })

unfoldable pub send_okboss : Uuid → SocketAddr → List Bytes → Handshaker → Handshaker
unfolding emit
send_okboss id sockaddr response s = record s {
  io =
      emit
        (to_packet_handler call
          (send sockaddr (handshake_payload id (HandshakeStep.okboss response))))
        s.io;
}

unfoldable pub send_goteam : Uuid → SocketAddr → Handshaker → Handshaker
unfolding emit
send_goteam id sockaddr s = record s {
  io =
      emit (to_packet_handler call (send sockaddr (handshake_payload id HandshakeStep.goteam)))
        s.io;
}

unfoldable pub send_peer_up : Peer → Handshaker → Handshaker
unfolding emit
send_peer_up peer s = record s {
  io =
      emit
        (to_peer_manager call
          (request s.nodeinfo.id (PeerRequest.peer_status (record { peer = peer; state = up }))))
        s.io;
}

module _ (ent : Entropy) where
  -- `AndThen::call` on the continuation that was stored, if any.
  unfoldable pub call_and_then : Option AndThen → Io → Io
  unfolding emit draw
  call_and_then none io = io
  call_and_then (some (start_subscription id)) io = draw (
      emit
        (to_packet_handler cast (
          send_message id (record {
            id = ent.new_v4 io.draws;
            body = Body.peer_request PeerRequest.start_subscription;
          })))
        io)

  -- Nothing calls this one.
  unfoldable pub request_peerlist : Uuid → Handshaker → Handshaker
  unfolding emit draw
  request_peerlist id s = record s {
    io = draw (
        emit
          (to_packet_handler call (
            send_message id (record {
              id = ent.new_v4 s.io.draws;
              body = Body.peer_request PeerRequest.peer_list;
            })))
          s.io);
  }

  -- The pre-shared keys are hashed once. The timer's task says hello to the first address that each
  -- configured peer resolves to (`ToSocketAddrs`); what does not resolve is skipped.
  module _ (hs : Hashing) (resolve : Text → Option SocketAddr) where
    unfoldable pub bootstrap : Handshaker → Handshaker
    unfolding draw filter_map
    bootstrap s = record s {
      hashed_keys = elim s.hashed_keys [
        | none ↦ some (filter_map hs.hash_key s.nodeinfo.keys)
        | some hashed ↦ some hashed
      ];
      bootstrap_timer = some (record {
        duration =
            ent.gen_range s.io.draws handshake_bootstrap_delay_millis_min
              handshake_bootstrap_delay_millis_max;
        fires =
            filter_map
              (λ peer. do
                sockaddr ← resolve peer
                some (to_handshaker call (hello_to sockaddr none)))
              s.nodeinfo.peers;
      });
      io = draw s.io;
    }

  module _ (hs : Hashing) where
    -- The Ohai leaves at once, or after a random delay if a handshake with the address is under way.
    -- `none` is the panic of `compute_hmacs`.
    unfoldable pub send_ohai :
        Uuid → SocketAddr → PublicKey → Bytes → Timestamp → Bool → Handshaker → Option Handshaker
    unfolding compute_hmacs emit draw
    send_ohai id sockaddr public_key challenge timestamp inflight s = do
      (hmacs, io) ← compute_hmacs hs ent s.hashed_keys timestamp s.io
      let payload =
          handshake_payload id (HandshakeStep.ohai public_key s.nodeinfo.zone hmacs challenge)
      some (record s {
        io =
            if inflight
            then emit
                (to_packet_handler
                  (task (
                    ent.gen_range io.draws handshake_bootstrap_delay_millis_min
                      handshake_bootstrap_delay_millis_max))
                  (send sockaddr payload))
                (draw io)
            else emit (to_packet_handler (task 0) (send sockaddr payload)) io;
      })

    -- `none` is the panic of `our_keypair().unwrap()`, or that of `compute_hmacs`.
    unfoldable pub send_hello :
        Timestamp → SocketAddr → Option AndThen → Handshaker → Option Handshaker
    unfolding new_hello compute_hmacs emit
    send_hello now sockaddr and_then s = do
      let n = s.io.draws
      let handshake = new_hello ent n sockaddr and_then now
      keypair ← handshake.peer.our_keypair
      computed ←
          compute_hmacs hs ent s.hashed_keys handshake.timestamp (record s.io { draws = n + 2 })
      let payload =
          handshake_payload handshake.id
            (HandshakeStep.hello keypair.public_key s.nodeinfo.zone computed.0 handshake.timestamp)
      some (record s {
        inflight = Set.insert ℕ_discrete sockaddr s.inflight;
        hellos = Dict.insert Pair-discrete (handshake.id, sockaddr) handshake s.hellos;
        io = emit (to_packet_handler cast (send sockaddr payload)) computed.1;
      })
