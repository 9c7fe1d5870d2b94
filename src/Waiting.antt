-- ===== src/Waiting.antt =====
-- Which actor waits for which, and which messages lead to which: a call waits until the actor that
-- is called has handled the message, and to handle a message sends others.
use gwyh.Base.{◌≡◌, none, ℕ, ◌<◌, List, [], ◌∷◌, ◌++◌, All, All-append}
use gwyh.Actor.{
  Effect, Io, Delivery, PacketHandlerMessage, HandshakerMessage, PeerManagerRequest, call,
  to_packet_handler, to_peer_manager, to_handshaker, emit, keys_updated, request,
}
use gwyh.Peer.{Peer}
use gwyh.Message.{PeerRequest}
pub mod PacketSends
pub mod Packets
pub mod PeerRequests
pub mod Peers
pub mod Greetings
pub mod Handshakes
mod Tests

-- An actor of the given rank calls only those of lower rank. The packet handler has rank 0, the peer
-- manager 1 and the handshaker 2.
abbrev pub CallsBelow : ℕ → Effect → Type 0
CallsBelow rank (to_packet_handler call _) = 0 < rank
CallsBelow rank (to_peer_manager call _) = 1 < rank
CallsBelow rank (to_handshaker call _) = 2 < rank
CallsBelow rank _ = Unit

abbrev pub packet_level : PacketHandlerMessage → ℕ
packet_level (PacketHandlerMessage.recv _ _) = 4
packet_level _ = 1

abbrev pub handshake_level : HandshakerMessage → ℕ
handshake_level (HandshakerMessage.packet _ _ _) = 3
handshake_level _ = 2

abbrev pub peer_level : PeerManagerRequest → ℕ
peer_level PeerManagerRequest.reassign = 3
peer_level PeerManagerRequest.send_heartbeat = 3
peer_level _ = 2

-- To handle a message of one level sends only messages of lower ones.
abbrev pub level : Effect → ℕ
level (to_packet_handler _ m) = packet_level m
level (to_handshaker _ m) = handshake_level m
level (to_peer_manager _ m) = peer_level m
level _ = 0

-- What an actor of the given rank may send for a message of the given level.
abbrev pub Fits : ℕ → ℕ → Effect → Type 0
Fits rank top e = CallsBelow rank e × (level e < top)

-- Peers as they come over the network: without this node's secrets.
abbrev pub IsPublic : Peer → Type 0
IsPublic p = p.our_keypair ≡ none

abbrev pub IsPublicRequest : PeerRequest → Type 0
IsPublicRequest (PeerRequest.peers list) = All IsPublic list
IsPublicRequest _ = Unit

-- Neither a key table nor peers with secrets.
abbrev pub IsPlain : Effect → Type 0
IsPlain (to_packet_handler _ (keys_updated _)) = ⊥
IsPlain (to_peer_manager _ (request _ body)) = IsPublicRequest body
IsPlain _ = Unit

abbrev pub AllOut : (Effect → Type 0) → Io → Type 0
AllOut P io = All P io.out

abbrev pub AllBelow : ℕ → Io → Type 0
AllBelow rank io = AllOut (CallsBelow rank) io

pub emit-AllOut :
    (P : Effect → Type 0) (e : Effect) (io : Io) → P e → AllOut P io → AllOut P (emit e io)
unfolding emit
emit-AllOut P e io h v = All-append P io.out (e ∷ []) v (h, tt)
