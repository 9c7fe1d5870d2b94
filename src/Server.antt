-- ===== src/Server.antt =====
-- server.rs: the start of the actors, and their end.
pub mod Startup
mod Tests
use gwyh.Base.{Option, none, some, List, [], ◌∷◌, ◌++◌, ◌>>=◌}
use gwyh.External.{Text, Handle}
use gwyh.NodeInfo.{NodeInfo}
use gwyh.Actor.{
  Effect, cast, call, to_packet_handler, to_handshaker, to_peer_manager, notify_one, bootstrap,
  set_notify, set_broadcast_handler, PacketHandlerMessage, PeerManagerRequest,
}

pub record Server : Type 0 where
  pub socket : Handle
  pub nodeinfo : NodeInfo
  pub notify_ready : Option Handle
  pub broadcast_handler : Option Handle
  pub notify_shutdown : Handle

-- `Server::new`, where `bind` is `UdpSocket::bind`; `none` for its error.
unfoldable pub new :
    (Text → Option Handle) → NodeInfo → Handle → Option Handle → Handle → Option Server
new bind nodeinfo notify_ready broadcast_handler notify_shutdown = do
  socket ← bind nodeinfo.bind_addr
  some (record {
    socket = socket;
    nodeinfo = nodeinfo;
    notify_ready = some notify_ready;
    broadcast_handler = broadcast_handler;
    notify_shutdown = notify_shutdown;
  })

-- What `run` sends, in order; `none` is the panic of the `unwrap`. The second `take` of the handler
-- finds it taken.
unfoldable pub run : Server → Option (List Effect)
run s = do
  notify_ready ← s.notify_ready
  some (
      to_peer_manager cast (set_notify notify_ready)
      ∷ to_packet_handler cast (set_broadcast_handler s.broadcast_handler none)
      ∷ to_packet_handler cast (PacketHandlerMessage.start s.socket)
      ∷ to_handshaker cast bootstrap
      ∷ to_peer_manager cast PeerManagerRequest.start_heartbeats
      ∷ [])

-- What the task of `run` does once it is notified of the shutdown.
unfoldable pub run_shutdown : Server → List Effect
run_shutdown s =
    to_peer_manager call PeerManagerRequest.shutdown ∷ notify_one s.notify_shutdown ∷ []
