-- ===== src/Waiting/Tests.antt =====
-- Each actor handles a message after which it calls another one, or may not.
use gwyh.Base.{◌≡◌, refl, OnSome, none, some, [], ◌∷◌, ℕ_discrete}
use gwyh.Base.Dict.{lookup}
use gwyh.External.{Pair-discrete}
use gwyh.Message.{PeerRequest, up}
use gwyh.Packet.{HandshakeStep}
use gwyh.Actor.{PeerManagerRequest, HandshakerMessage, packet, call, to_peer_manager, request, emit}
use gwyh.Samples.{entropy, hashing, node, peer}
use gwyh.Samples.Wire.{chooser}
use gwyh.PeerManager.State.{PeerManager, new as new_manager}
use gwyh.PeerManager.Handle.{handle_message as handle_peers}
use gwyh.Handshaker.State.{Handshaker, new as new_handshaker}
use gwyh.Handshaker.Send.{send_peer_up, call_and_then}
use gwyh.Handshaker.Handle.{
  handle_message as handle_handshakes, handle_handshake, on_goteam, remove_okboss,
}
use gwyh.Waiting.{AllBelow}
use gwyh.Waiting.Peers.{handle_message-calls_packets}
use gwyh.Waiting.Handshakes.{handle_message-calls_below}

abbrev subscribed : PeerManager
subscribed = record (new_manager (node 1)) { subscribed_to = 2 ∷ [] }

handle_message-calls_packets_example :
    OnSome
      (λ r. AllBelow 1 r.0.io)
      (handle_peers entropy chooser PeerManagerRequest.shutdown subscribed)
unfolding new_manager
handle_message-calls_packets_example =
    handle_message-calls_packets entropy chooser PeerManagerRequest.shutdown subscribed tt

-- A handshaker that waits for the GoTeam of the node 2 at the address 20.
abbrev waiting : Handshaker
waiting = record (new_handshaker (node 1)) {
  okbosses =
      (
        (5, 20),
        record {
          id = 5;
          peer = peer 2 20 1000;
          challenge = none;
          response = some [];
          timer = none;
          and_then = none;
          timestamp = 1000;
        },
      )
      ∷ [];
}

abbrev team : HandshakerMessage
team = packet 20 (record { id = 5; step = HandshakeStep.goteam }) 2

-- It calls the peer manager when the GoTeam comes in.
team-calls :
    OnSome
      (λ s'.
        s'.io.out
        ≡ to_peer_manager call
            (request 1 (PeerRequest.peer_status (record { peer = peer 2 20 1000; state = up })))
          ∷ [])
      (handle_handshakes entropy hashing (λ name. none) 1000 team waiting)
unfolding new_handshaker handle_handshakes handle_handshake on_goteam remove_okboss send_peer_up
    emit call_and_then lookup Pair-discrete ℕ_discrete
team-calls = refl

handle_message-calls_below_example :
    OnSome
      (λ s'. AllBelow 2 s'.io)
      (handle_handshakes entropy hashing (λ name. none) 1000 team waiting)
unfolding new_handshaker
handle_message-calls_below_example =
    handle_message-calls_below entropy hashing (λ name. none) 1000 team waiting tt
