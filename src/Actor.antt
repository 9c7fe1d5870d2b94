-- ===== src/Actor.antt =====
-- The messages of the three servers of registry.rs (`PacketHandlerMessage`, `HandshakerMessage`,
-- `PeerManagerRequest`), and what a handler does besides changing its own state: the messages that
-- it sends through the registry and its calls of the outside, in order.
use gwyh.Base.{ℕ, suc, List, [], ◌∷◌, ◌++◌, Option}
use gwyh.Base.Dict.{Dict}
use gwyh.External.{Uuid, SocketAddr, Bytes, KeyPair, PublicKey, Handle, Timestamp}
use gwyh.Message.{Message, PeerRequest, PeerStatus}
use gwyh.Packet.{Packet, Payload, Handshake}

-- and_then.rs: a boxed future. The repository builds one kind of it, the closure of
-- `trigger_reassignment` that sends `StartSubscription` to a peer.
pub data AndThen : Type 0 where
  start_subscription : Uuid → AndThen

abbrev pub PeerKeys : Type 0
PeerKeys = SocketAddr × KeyPair × PublicKey

pub data PacketHandlerMessage : Type 0 where
  start : Handle → PacketHandlerMessage
  send : SocketAddr → Payload → PacketHandlerMessage
  recv : SocketAddr → Packet → PacketHandlerMessage
  keys_updated : Dict Uuid PeerKeys → PacketHandlerMessage
  send_message : Uuid → Message → PacketHandlerMessage
  subscribers_updated : List Uuid → PacketHandlerMessage
  send_broadcast : Bytes → PacketHandlerMessage
  broadcast_peer_status : PeerStatus → PacketHandlerMessage
  set_broadcast_handler : Option Handle → Option Handle → PacketHandlerMessage
  rate_control : PacketHandlerMessage

pub data HandshakerMessage : Type 0 where
  bootstrap : HandshakerMessage
  packet : SocketAddr → Handshake → Uuid → HandshakerMessage
  send_hello : SocketAddr → Option AndThen → HandshakerMessage

pub data PeerManagerRequest : Type 0 where
  request : Uuid → PeerRequest → PeerManagerRequest
  set_notify : Handle → PeerManagerRequest
  reassign start_heartbeats send_heartbeat shutdown get_subscriber_count : PeerManagerRequest

-- A cast returns at once, a call waits for the reply of the server. A task is spawned: it sleeps
-- for so many milliseconds and then makes its call, while the handler goes on.
pub data Delivery : Type 0 where
  cast call : Delivery
  task : ℕ → Delivery

pub data Effect : Type 0 where
  to_packet_handler : Delivery → PacketHandlerMessage → Effect
  to_handshaker : Delivery → HandshakerMessage → Effect
  to_peer_manager : Delivery → PeerManagerRequest → Effect
  notify_one : Handle → Effect
  handle_broadcast : Handle → Bytes → Effect
  -- A datagram, and the instant before which the sending task sleeps, if any.
  send_to : Option Timestamp → SocketAddr → Bytes → Effect

-- delayed.rs and interval.rs: a timer fires once after its duration, or at every interval. To
-- replace or to forget the value drops it, which aborts its task.
pub record Delayed : Type 0 where
  pub duration : ℕ
  pub fires : List Effect

pub record Interval : Type 0 where
  pub period : ℕ
  pub ticks : List Effect

-- The effects of a handler so far, and the number of random draws made.
pub record Io : Type 0 where
  pub out : List Effect
  pub draws : ℕ

unfoldable pub emit : Effect → Io → Io
emit e io = record io { out = io.out ++ e ∷ [] }

unfoldable pub draw : Io → Io
draw io = record io { draws = suc io.draws }
