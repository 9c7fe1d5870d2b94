-- ===== src/Server/Startup.antt =====
-- server.rs: the state of the actors once they have handled what `run` sends.
use gwyh.Base.{◌≡◌, refl, Option, some, List, [], ◌∷◌, ◌>>=◌, is_some, true}
use gwyh.External.{Text, Handle, Timestamp, Entropy}
use gwyh.NodeInfo.{NodeInfo}
use gwyh.Actor.{Effect, to_packet_handler, to_peer_manager}
use gwyh.PeerManager.State.{PeerManager, start_heartbeats, new as new_manager}
use gwyh.PeerManager.Choose.{Chooser}
use gwyh.PeerManager.Handle.{handle_message as manage}
use gwyh.PacketHandler.State.{PacketHandler, Lru, Crypto, new as new_packet_handler}
use gwyh.PacketHandler.Recv.{handle_message}
use gwyh.Server.{Server, new, run}

module _ (ent : Entropy) (ch : Chooser) where
  -- The messages among the effects that go to the peer manager, handled in order.
  unfoldable pub manager_after : List Effect → PeerManager → Option PeerManager
  unfolding manage
  manager_after [] m = some m
  manager_after (to_peer_manager d message ∷ out) m = do
    r ← manage ent ch message m
    manager_after out r.0
  manager_after (_ ∷ out) m = manager_after out m

module _ {Seen : Type 0} (crypto : Crypto) (lru : Lru Seen) (ent : Entropy) (now : Timestamp) where
  -- Those that go to the packet handler.
  unfoldable pub packet_handler_after : List Effect → PacketHandler Seen → PacketHandler Seen
  unfolding handle_message
  packet_handler_after [] s = s
  packet_handler_after (to_packet_handler d message ∷ out) s =
      packet_handler_after out (handle_message crypto lru ent now message s)
  packet_handler_after (_ ∷ out) s = packet_handler_after out s

  -- If the address can be bound, the server runs without a panic, and once the new actors have
  -- handled what it sends, the packet handler has the socket and the given handler, the peer
  -- manager has the notification and its heartbeat runs.
  pub run-starts :
      (ch : Chooser) (bind : Text → Option Handle) (nodeinfo : NodeInfo)
      (ready stop socket : Handle) (handler : Option Handle)
      → bind nodeinfo.bind_addr ≡ some socket
      → (server : Server) × (out : List Effect) × (m : PeerManager) × (new bind nodeinfo ready
            handler stop
          ≡ some server)
        × (run server ≡ some out)
        × (manager_after ent ch out (new_manager nodeinfo) ≡ some m)
        × (m.notify_ready ≡ some ready)
        × (is_some m.heartbeat ≡ true)
        × (let s = packet_handler_after out (new_packet_handler lru nodeinfo) in
            (s.socket ≡ some socket) × (s.broadcast_handler_async ≡ handler))
  unfolding new run manager_after packet_handler_after new_manager new_packet_handler
      start_heartbeats
  run-starts ch bind nodeinfo ready stop socket handler e =
      let server : Server = record {
        socket = socket;
        nodeinfo = nodeinfo;
        notify_ready = some ready;
        broadcast_handler = handler;
        notify_shutdown = stop;
      } in
      (server, _, _, rw (e, new) refl, refl, refl, refl, refl, (refl, refl))
