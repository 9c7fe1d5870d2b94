-- ===== src/Node/State.antt =====
-- registry.rs, and `handle_call` and `handle_cast` of the three servers: the state of a node and
-- what can happen next.
use gwyh.Base.{
  Bool, true, if◌then◌else◌, ℕ, zero, suc, Option, none, some, List, [], ◌∷◌, ◌++◌, ◌>>=◌,
}
use gwyh.External.{Bytes, Handle, Text, SocketAddr, Timestamp, Entropy}
use gwyh.NodeInfo.{NodeInfo}
use gwyh.Actor.{
  Effect, PacketHandlerMessage, HandshakerMessage, PeerManagerRequest, Io, Delivery, cast, call,
  task, to_packet_handler, to_handshaker, to_peer_manager, handle_broadcast,
}
use gwyh.PacketHandler.State.{PacketHandler, Lru, Crypto, new as new_packet_handler}
use gwyh.PacketHandler.Recv.{handle_message as handle_packets}
use gwyh.Handshaker.Hmac.{Hashing}
use gwyh.Handshaker.State.{Handshaker, new as new_handshaker}
use gwyh.Handshaker.Handle.{handle_message as handle_handshakes}
use gwyh.PeerManager.State.{PeerManager, new as new_manager}
use gwyh.PeerManager.Choose.{Chooser}
use gwyh.PeerManager.Handle.{handle_message as handle_peers}
use gwyh.Node.Control.{
  ActorName, Request, Phase, idle, sending, waiting, Control, Controls, get, push, put, set_phase,
  target, delivery,
}

pub record States (Seen : Type 0) : Type 0 where
  pub packet_handler : PacketHandler Seen
  pub handshaker : Handshaker
  pub peer_manager : PeerManager

-- `tasks` were spawned and have not made their call yet; `out` is what has left the node, in order.
pub record Node (Seen : Type 0) : Type 0 where
  pub states : States Seen
  pub controls : Controls
  pub tasks : List Effect
  pub out : List Effect

-- A handler starts with nothing sent.
abbrev pub fresh : Io → Io
fresh io = record io { out = [] }

-- What other crates supply to the servers, each of which draws from its own randomness, and whether
-- the user's handler returns for a payload.
pub record Outside (Seen : Type 0) : Type 0 where
  pub crypto : Crypto
  pub lru : Lru Seen
  pub hashing : Hashing
  pub resolve : Text → Option SocketAddr
  pub chooser : Chooser
  pub entropy : ActorName → Entropy
  pub returns : Handle → Bytes → Bool

abbrev pub control_new : Control
control_new = record { queue = []; phase = idle }

-- `Registry::start`: every server is new and idle.
unfoldable pub start : {Seen : Type 0} → Outside Seen → NodeInfo → Node Seen
unfolding new_packet_handler new_handshaker new_manager
start ext nodeinfo = record {
  states = record {
    packet_handler = new_packet_handler ext.lru nodeinfo;
    handshaker = new_handshaker nodeinfo;
    peer_manager = new_manager nodeinfo;
  };
  controls = record {
    packet_handler = control_new;
    handshaker = control_new;
    peer_manager = control_new;
  };
  tasks = [];
  out = [];
}

module _ {Seen : Type 0} (ext : Outside Seen) where
  -- `handle_call` and `handle_cast` of the packet handler: what it sends, and its state after.
  unfoldable pub packets_call :
      Timestamp → PacketHandlerMessage → PacketHandler Seen → List Effect × PacketHandler Seen
  unfolding handle_packets
  packets_call now message s =
      let s' =
        handle_packets ext.crypto ext.lru (ext.entropy ActorName.packet_handler) now message
          (record s { io = fresh s.io }) in
      (s'.io.out, s')

  -- The same of the handshaker; `none` is a panic.
  unfoldable pub handshakes_call :
      Timestamp → HandshakerMessage → Handshaker → Option (List Effect × Handshaker)
  unfolding handle_handshakes
  handshakes_call now message s = do
    s' ←
        handle_handshakes (ext.entropy ActorName.handshaker) ext.hashing ext.resolve now message
          (record s { io = fresh s.io })
    some (s'.io.out, s')

  -- The same of the peer manager, whose replies are not read inside of the node.
  unfoldable pub peers_call : PeerManagerRequest → PeerManager → Option (List Effect × PeerManager)
  unfolding handle_peers
  peers_call message m = do
    r ←
        handle_peers (ext.entropy ActorName.peer_manager) ext.chooser message
          (record m { io = fresh m.io })
    some (r.0.io.out, r.0)

  -- The server that a message is for handles it: what it sends, and the states after.
  unfoldable pub perform : Timestamp → Effect → States Seen → Option (List Effect × States Seen)
  unfolding packets_call handshakes_call peers_call
  perform now (to_packet_handler _ message) st =
      let r = packets_call now message st.packet_handler in
      some (r.0, record st { packet_handler = r.1 })
  perform now (to_handshaker _ message) st = do
    r ← handshakes_call now message st.handshaker
    some (r.0, record st { handshaker = r.1 })
  perform now (to_peer_manager _ message) st = do
    r ← peers_call message st.peer_manager
    some (r.0, record st { peer_manager = r.1 })
  perform now _ st = some ([], st)

  -- A server that is idle takes the first message of its queue.
  unfoldable pub begin_with :
      Timestamp → ActorName → Phase → List Request → Node Seen → Option (Node Seen)
  unfolding perform
  begin_with now a idle (r ∷ rest) n = do
    (out, states) ← perform now r.body n.states
    some (record n {
      states = states;
      controls = put a (record { queue = rest; phase = sending r out }) n.controls;
    })
  begin_with now a _ _ n = none

  -- A message joins the queue of its server, or leaves the node.
  abbrev pub post_to : Option ActorName → Option ActorName → Effect → Node Seen → Node Seen
  post_to none reply_to e n = record n { out = n.out ++ e ∷ [] }
  post_to (some a) reply_to e n = record n {
    controls = push a (record { body = e; reply_to = reply_to }) n.controls;
  }

  abbrev pub post : Option ActorName → Effect → Node Seen → Node Seen
  post reply_to e n = post_to (target e) reply_to e n

  abbrev pub to_phase : ActorName → Phase → Node Seen → Node Seen
  to_phase a phase n = record n { controls = set_phase a phase n.controls }

  -- A cast goes on, a call waits, a task is left to itself.
  abbrev pub send_by : Delivery → ActorName → Request → Effect → List Effect → Node Seen → Node Seen
  send_by cast a r e rest n = to_phase a (sending r rest) (post none e n)
  send_by call a r e rest n = to_phase a (waiting r rest) (post (some a) e n)
  send_by (task _) a r e rest n =
      to_phase a (sending r rest) (record n { tasks = n.tasks ++ e ∷ [] })

  -- The reply of a call: its caller goes on.
  abbrev pub resumed : Phase → Phase
  resumed (waiting r rest) = sending r rest
  resumed phase = phase

  abbrev pub answer : Option ActorName → Node Seen → Node Seen
  answer none n = n
  answer (some a) n = to_phase a (resumed (get a n.controls).phase) n

  -- The packet handler awaits the user's handler of a broadcast before it goes on.
  abbrev pub is_awaited : Effect → Bool
  is_awaited (handle_broadcast handler payload) = ext.returns handler payload
  is_awaited _ = true

  -- A server sends the next of its messages, or when there is none left, is done with its request.
  -- One that awaits a handler which does not return goes no further.
  unfoldable pub advance_from : ActorName → Phase → Node Seen → Option (Node Seen)
  advance_from a (sending r (e ∷ rest)) n =
      if is_awaited e then some (send_by (delivery e) a r e rest n) else none
  advance_from a (sending r []) n = some (to_phase a idle (answer r.reply_to n))
  advance_from a _ n = none

  -- The k-th of the spawned tasks makes its call.
  abbrev pub take_out : {A : Type 0} → ℕ → List A → Option (A × List A)
  take_out k [] = none
  take_out zero (x ∷ xs) = some (x, xs)
  take_out (suc k) (x ∷ xs) = do (y, ys) ← take_out k xs; some (y, x ∷ ys)

  unfoldable pub run_task : ℕ → Node Seen → Option (Node Seen)
  run_task k n = do (e, tasks) ← take_out k n.tasks; some (post none e (record n { tasks = tasks }))
