-- ===== src/Node/Control.antt =====
-- What genserver keeps for each server of the registry: the queue of its messages, calls and casts
-- alike, and how far it is with the one that it handles.
use gwyh.Base.{ℕ, Option, none, some, List, [], ◌∷◌, ◌++◌}
use gwyh.Actor.{Effect, Delivery, cast, to_packet_handler, to_handshaker, to_peer_manager}

-- The fields of the registry.
pub data ActorName : Type 0 where
  packet_handler handshaker peer_manager : ActorName

-- A message in a queue. A call holds who waits for the reply, if an actor does.
pub record Request : Type 0 where
  pub body : Effect
  pub reply_to : Option ActorName

-- A server is idle, or handles a request: it sends what is still to be sent, or waits for the reply
-- of the call that it made last.
pub data Phase : Type 0 where
  idle : Phase
  sending waiting : Request → List Effect → Phase

abbrev pub rank : ActorName → ℕ
rank ActorName.packet_handler = 0
rank ActorName.peer_manager = 1
rank ActorName.handshaker = 2

pub record Control : Type 0 where
  pub queue : List Request
  pub phase : Phase

pub record Controls : Type 0 where
  pub packet_handler : Control
  pub handshaker : Control
  pub peer_manager : Control

abbrev pub get : ActorName → Controls → Control
get ActorName.packet_handler cs = cs.packet_handler
get ActorName.handshaker cs = cs.handshaker
get ActorName.peer_manager cs = cs.peer_manager

abbrev pub put : ActorName → Control → Controls → Controls
put ActorName.packet_handler c cs = record cs { packet_handler = c }
put ActorName.handshaker c cs = record cs { handshaker = c }
put ActorName.peer_manager c cs = record cs { peer_manager = c }

abbrev pub push : ActorName → Request → Controls → Controls
push a r cs = put a (record (get a cs) { queue = (get a cs).queue ++ r ∷ [] }) cs

abbrev pub set_phase : ActorName → Phase → Controls → Controls
set_phase a phase cs = put a (record (get a cs) { phase = phase }) cs

-- The server that a message is for; `none` for what leaves the node.
abbrev pub target : Effect → Option ActorName
target (to_packet_handler _ _) = some ActorName.packet_handler
target (to_handshaker _ _) = some ActorName.handshaker
target (to_peer_manager _ _) = some ActorName.peer_manager
target _ = none

abbrev pub delivery : Effect → Delivery
delivery (to_packet_handler d _) = d
delivery (to_handshaker d _) = d
delivery (to_peer_manager d _) = d
delivery _ = cast
