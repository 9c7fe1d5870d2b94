-- ===== src/Handshaker/LastSent.antt =====
-- handshake.rs: the last handshake message that was sent, and the last status that was reported.
use gwyh.Base.{◌≡◌, Option, none, some, List, [], ◌∷◌, ◌++◌, arith}
use gwyh.Message.{PeerRequest, PeerStatus}
use gwyh.Packet.{Handshake, Payload}
use gwyh.Actor.{
  Effect, PacketHandlerMessage, PeerManagerRequest, to_packet_handler, to_peer_manager,
}

-- The last of the effects that the function reads something from.
unfoldable pub last_some : {A : Type 0} → (Effect → Option A) → List Effect → Option A
last_some f [] = none
last_some f (e ∷ out) = elim (last_some f out) [ some a ↦ some a | none ↦ f e ]

abbrev payload_handshake : Payload → Option Handshake
payload_handshake (Payload.h handshake) = some handshake
payload_handshake (Payload.b _ _) = none

abbrev message_handshake : PacketHandlerMessage → Option Handshake
message_handshake (PacketHandlerMessage.send _ payload) = payload_handshake payload
message_handshake _ = none

abbrev pub handshake_sent : Effect → Option Handshake
handshake_sent (to_packet_handler _ message) = message_handshake message
handshake_sent _ = none

abbrev request_status : PeerRequest → Option PeerStatus
request_status (PeerRequest.peer_status status) = some status
request_status _ = none

abbrev manager_status : PeerManagerRequest → Option PeerStatus
manager_status (PeerManagerRequest.request _ body) = request_status body
manager_status _ = none

abbrev pub status_reported : Effect → Option PeerStatus
status_reported (to_peer_manager _ body) = manager_status body
status_reported _ = none

-- The last handshake message that was sent, and the last status that was reported.
abbrev pub last_handshake : List Effect → Option Handshake
last_handshake = last_some handshake_sent

abbrev pub last_status : List Effect → Option PeerStatus
last_status = last_some status_reported

pub last_some-append :
    {A : Type 0} (f : Effect → Option A) (out : List Effect) (e : Effect)
    → last_some f (out ++ e ∷ []) ≡ (elim (f e) [ some a ↦ some a | none ↦ last_some f out ])
unfolding last_some
last_some-append f [] e = ground arith
last_some-append f (d ∷ out) e = ground (arith, last_some-append f out e)
