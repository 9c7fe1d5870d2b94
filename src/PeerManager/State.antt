-- ===== src/PeerManager/State.antt =====
-- peer_manager.rs: the state of the peer manager, its messages to the other servers, its timers and
-- its heartbeat watchdogs.
use gwyh.Base.{
  ℕ, ◌*◌, Option, none, some, List, [], ◌∷◌, ℕ_discrete, ltb, if◌then◌else◌, is_some, length,
}
use gwyh.Base.Dict.{Dict, lookup}
use gwyh.Base.Dict
use gwyh.Base.Set
use gwyh.External.{Uuid, Handle, Entropy}
use gwyh.NodeInfo.{NodeInfo}
use gwyh.Peer.{Peer}
use gwyh.Message.{Body, PeerRequest, down}
use gwyh.Actor.{
  Io, Delayed, Interval, Delivery, cast, emit, draw, to_packet_handler, to_peer_manager,
  send_message, request, reassign, send_heartbeat,
}

abbrev pub reassign_delay_high_millis : ℕ
reassign_delay_high_millis = 5000

abbrev pub reassign_delay_low_millis : ℕ
reassign_delay_low_millis = 25

abbrev pub heartbeat_interval_millis : ℕ
heartbeat_interval_millis = 5000

abbrev pub heartbeat_missed_interval_millis : ℕ
heartbeat_missed_interval_millis = 3 * heartbeat_interval_millis

pub record PeerManager : Type 0 where
  pub nodeinfo : NodeInfo
  pub known : Dict Uuid Peer
  pub subscribers : List Uuid
  pub subscribed_to : List Uuid
  pub reassign_timer : Option Delayed
  pub notify_ready : Option Handle
  pub heartbeat : Option Interval
  pub heartbeat_watchdogs : Dict Uuid Delayed
  pub io : Io

-- `PeerManager::new`; the random generator is the supply that `io` counts.
unfoldable pub new : NodeInfo → PeerManager
new nodeinfo = record {
  nodeinfo = nodeinfo;
  known = [];
  subscribers = [];
  subscribed_to = [];
  reassign_timer = none;
  notify_ready = none;
  heartbeat = none;
  heartbeat_watchdogs = [];
  io = record { out = []; draws = 0 };
}

-- The watchdog of a peer tells this peer manager that the peer is down.
abbrev pub watchdog_for : NodeInfo → Peer → Delayed
watchdog_for nodeinfo peer = record {
  duration = heartbeat_missed_interval_millis;
  fires =
      to_peer_manager cast
        (request nodeinfo.id (PeerRequest.peer_status (record { peer = peer; state = down })))
      ∷ [];
}

unfoldable pub stop_heartbeat_watchdog : Uuid → PeerManager → PeerManager
stop_heartbeat_watchdog id m = record m {
  heartbeat_watchdogs = Dict.remove ℕ_discrete id m.heartbeat_watchdogs;
}

unfoldable pub reset_heartbeat_watchdog : Uuid → PeerManager → PeerManager
unfolding stop_heartbeat_watchdog
reset_heartbeat_watchdog id m =
    if Set.contains ℕ_discrete id m.subscribed_to
    then elim (lookup ℕ_discrete id m.known) [
      | some peer ↦ record m {
        heartbeat_watchdogs =
            Dict.insert ℕ_discrete id (watchdog_for m.nodeinfo peer) m.heartbeat_watchdogs;
      }
      | none ↦ stop_heartbeat_watchdog id m
    ]
    else stop_heartbeat_watchdog id m

unfoldable pub start_heartbeats : PeerManager → PeerManager
start_heartbeats m = if is_some m.heartbeat then m else record m {
  heartbeat = some (record {
    period = heartbeat_interval_millis;
    ticks = to_peer_manager cast send_heartbeat ∷ [];
  });
}

module _ (ent : Entropy) where
  -- The `SendMessage` that carries a request to a peer, under a new message id.
  unfoldable pub send_request : Delivery → Uuid → PeerRequest → Io → Io
  unfolding emit draw
  send_request d to body io = draw (
      emit
        (to_packet_handler d
          (send_message to (record { id = ent.new_v4 io.draws; body = Body.peer_request body })))
        io)

  -- One request for each id, in the order of iteration.
  unfoldable pub send_each : Delivery → PeerRequest → List Uuid → Io → Io
  unfolding send_request
  send_each d body [] io = io
  send_each d body (id ∷ ids) io = send_each d body ids (send_request d id body io)

  unfoldable pub start_reassign_timer : PeerManager → PeerManager
  unfolding draw
  start_reassign_timer m =
      if ltb (length m.subscribed_to) m.nodeinfo.peer_subscriptions
      then record m {
        reassign_timer = some (record {
          duration = ent.gen_range m.io.draws reassign_delay_low_millis reassign_delay_high_millis;
          fires = to_peer_manager cast reassign ∷ [];
        });
        io = draw m.io;
      }
      else m
