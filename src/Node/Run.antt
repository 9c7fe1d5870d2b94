-- ===== src/Node/Run.antt =====
-- The runs of a node: what happens in it, and what its timers and the world put in.
use gwyh.Base.{◌≡◌, ℕ_discrete, ℕ, zero, suc, Option, none, some, List, [], ◌∷◌, ◌>>=◌}
use gwyh.Base.Dict.{lookup}
use gwyh.External.{Uuid, Timestamp, Pair-discrete}
use gwyh.NodeInfo.{NodeInfo}
use gwyh.Actor.{Effect, Delayed, Interval}
use gwyh.Handshaker.State.{HandshakeState, Stage, Key}
use gwyh.Node.Control.{ActorName, get}
use gwyh.Node.State.{States, Node, Outside, start, begin_with, advance_from, run_task, post}

-- The timers that the servers may hold: those of handshakes stand under their keys, the watchdogs
-- under the ids of the peers.
pub data TimerName : Type 0 where
  rate_control bootstrap heartbeat reassign : TimerName
  hello ohai okboss : Key → TimerName
  watchdog : Uuid → TimerName

-- What a timer that fires once sends.
abbrev pub fires_of : Option Delayed → List Effect
fires_of none = []
fires_of (some timer) = timer.fires

-- What an interval sends when it ticks.
abbrev pub ticks_of : Option Interval → List Effect
ticks_of none = []
ticks_of (some timer) = timer.ticks

abbrev pub handshake_timer : {stage : Stage} → Option (HandshakeState stage) → List Effect
handshake_timer none = []
handshake_timer (some h) = fires_of h.timer

-- What a timer sends, if it is held. When it does so is left open: a timer may fire, or tick again,
-- at any time while it is held.
unfoldable pub timer_of : {Seen : Type 0} → TimerName → States Seen → List Effect
timer_of TimerName.rate_control st = st.packet_handler.rate_control_timer.ticks
timer_of TimerName.bootstrap st = fires_of st.handshaker.bootstrap_timer
timer_of (TimerName.hello key) st = handshake_timer (lookup Pair-discrete key st.handshaker.hellos)
timer_of (TimerName.ohai key) st = handshake_timer (lookup Pair-discrete key st.handshaker.ohais)
timer_of (TimerName.okboss key) st =
    handshake_timer (lookup Pair-discrete key st.handshaker.okbosses)
timer_of TimerName.heartbeat st = ticks_of st.peer_manager.heartbeat
timer_of TimerName.reassign st = fires_of st.peer_manager.reassign_timer
timer_of (TimerName.watchdog id) st =
    fires_of (lookup ℕ_discrete id st.peer_manager.heartbeat_watchdogs)

abbrev pub nth : {A : Type 0} → ℕ → List A → Option A
nth k [] = none
nth zero (x ∷ xs) = some x
nth (suc k) (x ∷ xs) = nth k xs

-- What a server or a spawned task does next.
pub data Choice : Type 0 where
  begin : Timestamp → ActorName → Choice
  advance : ActorName → Choice
  task : ℕ → Choice

-- What comes from outside of the servers: the k-th message of a timer, or a message of the receive loop, of `Server::run`
-- or of a caller of the public methods.
pub data Input : Type 0 where
  timer : TimerName → ℕ → Input
  message : Effect → Input

module _ {Seen : Type 0} (ext : Outside Seen) where
  unfoldable pub step : Choice → Node Seen → Option (Node Seen)
  unfolding begin_with advance_from run_task
  step (begin now a) n = begin_with ext now a (get a n.controls).phase (get a n.controls).queue n
  step (advance a) n = advance_from ext a (get a n.controls).phase n
  step (task k) n = run_task ext k n

  unfoldable pub enter : Input → Node Seen → Option (Node Seen)
  unfolding timer_of
  enter (timer name k) n = do e ← nth k (timer_of name n.states); some (post ext none e n)
  enter (message e) n = some (post ext none e n)

  -- The nodes that come about from a start.
  pub data Reach (nodeinfo : NodeInfo) : Node Seen → Type 0 where
    started : Reach nodeinfo (start ext nodeinfo)
    stepped :
        {n m : Node Seen} → Reach nodeinfo n → (c : Choice) → step c n ≡ some m → Reach nodeinfo m
    entered :
        {n m : Node Seen} → Reach nodeinfo n → (i : Input) → enter i n ≡ some m → Reach nodeinfo m

  -- The runs of a node that is left to itself.
  pub data Run : Node Seen → Node Seen → Type 0 where
    here : {n : Node Seen} → Run n n
    further : {n m k : Node Seen} (c : Choice) → step c n ≡ some m → Run m k → Run n k
