-- ===== src/Interface.antt =====
-- lib.rs and error.rs: the builder and the public methods of a node.
pub mod Answers
mod Tests
use gwyh.Base.{◌>>=◌, ℕ, Bool, true, false, Option, none, some, List, [], ◌∷◌, if◌then◌else◌}
use gwyh.External.{Bytes, Text, Uuid, Handle}
use gwyh.NodeInfo.{NodeInfo, DistributionStrategy, uniform, new_node_info}
use gwyh.Actor.{Effect, notify_one, PacketHandlerMessage}
use gwyh.Server
use gwyh.Server.{run}
use gwyh.PeerManager.Handle.{PeerManagerResponse, subscriber_count, ok}

-- The text of `NoRegistry` is left out.
pub data Error : Type 0 where
  gen_server_err broadcast_failed unexpected_response timeout : Error
  no_registry broadcast_send : Bytes → Error

-- `Result<T, Error>`.
pub data Outcome (T : Type 0) : Type 0 where
  done : T → Outcome T
  failed : Error → Outcome T

-- What a call of an actor by genserver comes to: the reply, a send that failed and gives the message
-- back, or another error.
pub data CallResult (Message Reply : Type 0) : Type 0 where
  reply : Reply → CallResult Message Reply
  send_error : Message → CallResult Message Reply
  other_error : CallResult Message Reply

-- `registry` says whether the node was started.
pub record Gwyh : Type 0 where
  pub nodeinfo : NodeInfo
  pub broadcast_handler : Option Handle
  pub registry : Bool
  pub notify_shutdown : Handle

-- `Gwyh::start`: the node after, and the handle that tells when the node is ready with what the
-- server sends. `none` is the error of the server, which leaves the handler taken.
unfoldable pub start : (Text → Option Handle) → Handle → Gwyh → Gwyh × Option (Handle × List Effect)
unfolding Server.new run
start bind notify_ready g =
    let started : Gwyh = record g { registry = true; broadcast_handler = none } in
    let outcome : Option (Handle × List Effect) = (do
      server ← Server.new bind g.nodeinfo notify_ready g.broadcast_handler g.notify_shutdown
      sent ← run server
      some (notify_ready, sent)) in
    (started, outcome)

-- `Gwyh::shutdown` and `Gwyh::drop`, as far as their effects go: the server is notified, and
-- `unwrap` panics where no registry was started: `none`. The wait of `shutdown` for the
-- acknowledgement, and the end of the actors by genserver, are not part of it.
unfoldable pub shutdown : Gwyh → Option (List Effect)
shutdown g = if g.registry then some (notify_one g.notify_shutdown ∷ []) else none

unfoldable pub drop : Gwyh → Option (List Effect)
drop g = if g.registry then some (notify_one g.notify_shutdown ∷ []) else none

abbrev pub broadcast_error : CallResult PacketHandlerMessage Unit → Outcome Unit
broadcast_error (CallResult.reply r) = Outcome.done r
broadcast_error (CallResult.send_error (PacketHandlerMessage.send_broadcast payload)) =
    Outcome.failed (Error.broadcast_send payload)
broadcast_error _ = Outcome.failed Error.broadcast_failed

-- `Gwyh::broadcast`, where `call` is the call of the packet handler.
unfoldable pub broadcast :
    (PacketHandlerMessage → CallResult PacketHandlerMessage Unit) → Bytes → Gwyh → Outcome Unit
broadcast call payload g =
    if g.registry
    then broadcast_error (call (PacketHandlerMessage.send_broadcast payload))
    else Outcome.failed (Error.no_registry payload)

abbrev pub subscriber_count_of :
    {Message : Type 0} → CallResult Message PeerManagerResponse → Outcome ℕ
subscriber_count_of (CallResult.reply (subscriber_count c)) = Outcome.done c
subscriber_count_of (CallResult.reply ok) = Outcome.failed Error.unexpected_response
subscriber_count_of _ = Outcome.failed Error.gen_server_err

-- `Gwyh::get_subscriber_count`; `none` is the panic of a node that was not started.
unfoldable pub get_subscriber_count :
    {Message : Type 0} → CallResult Message PeerManagerResponse → Gwyh → Option (Outcome ℕ)
get_subscriber_count called g = if g.registry then some (subscriber_count_of called) else none

pub record GwyhBuilder : Type 0 where
  pub bind_addr : Text
  pub keys : List Text
  pub peers : List Text
  pub peer_subscriptions : ℕ
  pub broadcast_handler : Option Handle
  pub zone : Option Text
  pub distribution_strategy : DistributionStrategy

-- "127.0.0.1:6969" and "insecure".
unfoldable pub builder : GwyhBuilder
builder = record {
  bind_addr = 49 ∷ 50 ∷ 55 ∷ 46 ∷ 48 ∷ 46 ∷ 48 ∷ 46 ∷ 49 ∷ 58 ∷ 54 ∷ 57 ∷ 54 ∷ 57 ∷ [];
  keys = (105 ∷ 110 ∷ 115 ∷ 101 ∷ 99 ∷ 117 ∷ 114 ∷ 101 ∷ []) ∷ [];
  peers = [];
  peer_subscriptions = 5;
  broadcast_handler = none;
  zone = none;
  distribution_strategy = uniform;
}

unfoldable pub with_bind_addr : Text → GwyhBuilder → GwyhBuilder
with_bind_addr bind_addr b = record b { bind_addr = bind_addr }

unfoldable pub with_keys : List Text → GwyhBuilder → GwyhBuilder
with_keys keys b = record b { keys = keys }

unfoldable pub with_peers : List Text → GwyhBuilder → GwyhBuilder
with_peers peers b = record b { peers = peers }

unfoldable pub with_zone : Text → GwyhBuilder → GwyhBuilder
with_zone zone b = record b { zone = some zone }

unfoldable pub with_distribution_strategy : DistributionStrategy → GwyhBuilder → GwyhBuilder
with_distribution_strategy strategy b = record b { distribution_strategy = strategy }

unfoldable pub with_handler : Handle → GwyhBuilder → GwyhBuilder
with_handler handler b = record b { broadcast_handler = some handler }

-- `build`; the id and the handle are the new ones that it makes.
unfoldable pub build : Uuid → Handle → GwyhBuilder → Gwyh
unfolding new_node_info
build id notify_shutdown b = record {
  nodeinfo =
      new_node_info id b.bind_addr b.keys b.peers b.peer_subscriptions b.zone
        b.distribution_strategy;
  broadcast_handler = b.broadcast_handler;
  registry = false;
  notify_shutdown = notify_shutdown;
}
