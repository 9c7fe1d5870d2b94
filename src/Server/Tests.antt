-- ===== src/Server/Tests.antt =====
-- server.rs: a start with a handler, at an address that can be bound.
use gwyh.Base.{◌≡◌, refl, some, List, is_some, true}
use gwyh.Actor.{Effect}
use gwyh.Samples.{entropy, node}
use gwyh.Samples.Wire.{lru, crypto, chooser}
use gwyh.PeerManager.State.{PeerManager, new as new_manager}
use gwyh.PacketHandler.State.{new as new_packet_handler}
use gwyh.Server.{Server, new, run}
use gwyh.Server.Startup.{manager_after, packet_handler_after, run-starts}

run-starts_example :
    (server : Server) × (out : List Effect) × (m : PeerManager) × (new
        (λ addr. some 5)
        (node 1)
        6
        (some 3)
        7
      ≡ some server)
    × (run server ≡ some out)
    × (manager_after entropy chooser out (new_manager (node 1)) ≡ some m)
    × (m.notify_ready ≡ some 6)
    × (is_some m.heartbeat ≡ true)
    × (let s = packet_handler_after crypto lru entropy 1000 out (new_packet_handler lru (node 1)) in
        (s.socket ≡ some 5) × (s.broadcast_handler_async ≡ some 3))
run-starts_example =
    run-starts crypto lru entropy 1000 chooser (λ addr. some 5) (node 1) 6 7 5 (some 3) refl
