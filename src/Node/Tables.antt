-- ===== src/Node/Tables.antt =====
-- registry.rs: at rest the packet handler has the keys of the peers that the peer manager knows.
use gwyh.Base.{
  ◌≡◌, refl, zero, suc, ℕ, Option, none, some, List, [], ◌∷◌, ◌⊎◌, inl, inr, OnSome, All, All-map,
  subst, ap, sym, ◌∙◌, ◌>>=◌, ℕ_discrete, Option-cases,
}
use gwyh.Base.Dict.{lookup}
use gwyh.External.{Uuid, Pair-discrete}
use gwyh.NodeInfo.{NodeInfo}
use gwyh.Actor.{Effect, Delayed, Interval, cast, PeerManagerRequest, to_peer_manager}
use gwyh.PeerManager.Keys.{keys_with}
use gwyh.Message.{PeerRequest}
use gwyh.PeerManager.Timers.{IsAlarm, new-IsTimed}
use gwyh.PacketHandler.State.{new as new_packet_handler}
use gwyh.Handshaker.State.{new as new_handshaker}
use gwyh.PeerManager.State.{new as new_manager}
use gwyh.PeerManager.KeyTables.{table_after}
use gwyh.Waiting.{IsPlain}
use gwyh.Node.Control.{ActorName}
use gwyh.Node.State.{Node, Outside, start}
use gwyh.Node.Run.{
  TimerName, timer_of, nth, fires_of, ticks_of, handshake_timer, timer, message, enter, Reach,
  started, stepped, entered,
}
use gwyh.Node.Waiters.{everywhere}
use gwyh.Node.Invariant.{Inv, unsent}
use gwyh.Node.Steps.{Reach-Inv}
use gwyh.Node.Progress.{IsQuiet}
use gwyh.Node.Plain.{FiresPlain, DecodesPublic}
use gwyh.Node.Tidy.{Pure, bodies, Tidy, post-Tidy}
use gwyh.Node.Begun.{step-Tidy}
use gwyh.Handshaker.State.{HandshakeState, Stage, Key}
use gwyh.Handshaker.Invariant.{death}

-- Every message that was put in holds neither a key table nor peers with secrets.
module _ {Seen : Type 0} {ext : Outside Seen} {nodeinfo : NodeInfo} where
  unfoldable pub InputsPlain : {n : Node Seen} → Reach ext nodeinfo n → Type 0
  InputsPlain started = Unit
  InputsPlain (stepped r c e) = InputsPlain r
  InputsPlain (entered r (message e) _) = IsPlain e × InputsPlain r
  InputsPlain (entered r (timer _ _) _) = InputsPlain r

IsAlarm-IsPlain : (e : Effect) → IsAlarm e → IsPlain e
IsAlarm-IsPlain (to_peer_manager cast PeerManagerRequest.send_heartbeat) h = tt
IsAlarm-IsPlain (to_peer_manager cast PeerManagerRequest.reassign) h = tt
IsAlarm-IsPlain (to_peer_manager cast (PeerManagerRequest.request _ (PeerRequest.peer_status _)))
      h =
    tt
IsAlarm-IsPlain e h = absurd h

alarms-Plain : (es : List Effect) → All IsAlarm es → All IsPlain es
alarms-Plain es h = All-map IsAlarm-IsPlain es h

fires_of-Plain : (t : Option Delayed) → FiresPlain t → All IsPlain (fires_of t)
fires_of-Plain none h = tt
fires_of-Plain (some d) h = h

alarm-Plain : (t : Option Delayed) → OnSome (λ d. All IsAlarm d.fires) t → All IsPlain (fires_of t)
alarm-Plain none h = tt
alarm-Plain (some d) h = alarms-Plain d.fires h

ticks_of-Plain :
    (t : Option Interval) → OnSome (λ i. All IsAlarm i.ticks) t → All IsPlain (ticks_of t)
ticks_of-Plain none h = tt
ticks_of-Plain (some i) h = alarms-Plain i.ticks h

handshake_timer-Plain :
    {stage : Stage} (h : Option (HandshakeState stage))
    → OnSome (λ h. FiresPlain h.timer) h
    → All IsPlain (handshake_timer h)
handshake_timer-Plain none v = tt
handshake_timer-Plain (some h) v = fires_of-Plain h.timer v

death-Plain : (key : Key) → FiresPlain (some (death key.0 key.1))
death-Plain key = (tt, tt)

-- A handshake that is found has no timer, or the one that ends it.
found-Plain :
    {stage : Stage} (h : Option (HandshakeState stage)) (key : Key)
    → ((x : HandshakeState stage)
        → h ≡ some x
        → (x.timer ≡ none) ⊎ (x.timer ≡ some (death key.0 key.1)))
    → All IsPlain (handshake_timer h)
found-Plain none key good = tt
found-Plain (some x) key good = elim (good x refl) [
  | inl e ↦ fires_of-Plain x.timer (subst FiresPlain (sym e) tt)
  | inr e ↦ fires_of-Plain x.timer (subst FiresPlain (sym e) (death-Plain key))
]

module _ {Seen : Type 0} (ext : Outside Seen) where
  start-Tidy : (nodeinfo : NodeInfo) → Tidy (start ext nodeinfo)
  unfolding start new_packet_handler new_handshaker new_manager lookup
  start-Tidy nodeinfo = record {
    pure = everywhere Pure (start ext nodeinfo).controls tt tt (tt, tt);
    tasks = tt;
    timed = ((tt, tt), tt, new-IsTimed nodeinfo);
    follows = λ id. refl;
  }

  timer_of-Plain :
      (name : TimerName) (n : Node Seen) → Inv n → Tidy n → All IsPlain (timer_of name n.states)
  unfolding timer_of
  timer_of-Plain TimerName.rate_control n inv v = v.timed.0
  timer_of-Plain TimerName.bootstrap n inv v =
      fires_of-Plain n.states.handshaker.bootstrap_timer v.timed.1
  timer_of-Plain (TimerName.hello key) n inv v =
      found-Plain (lookup Pair-discrete key n.states.handshaker.hellos) key
        (λ x e. inr (inv.sound.1.hellos key x e).timed)
  timer_of-Plain (TimerName.ohai key) n inv v =
      found-Plain (lookup Pair-discrete key n.states.handshaker.ohais) key
        (λ x e. inr (inv.sound.1.ohais key x e).timed)
  timer_of-Plain (TimerName.okboss key) n inv v =
      found-Plain (lookup Pair-discrete key n.states.handshaker.okbosses) key
        (λ x e. inl (inv.sound.1.okbosses key x e).untimed)
  timer_of-Plain TimerName.heartbeat n inv v =
      ticks_of-Plain n.states.peer_manager.heartbeat v.timed.2.0
  timer_of-Plain TimerName.reassign n inv v =
      alarm-Plain n.states.peer_manager.reassign_timer v.timed.2.1
  timer_of-Plain (TimerName.watchdog id) n inv v =
      alarm-Plain (lookup ℕ_discrete id n.states.peer_manager.heartbeat_watchdogs) (v.timed.2.2 id)

  nth-Plain : (k : ℕ) (es : List Effect) → All IsPlain es → OnSome IsPlain (nth k es)
  nth-Plain k [] h = tt
  nth-Plain zero (e ∷ es) h = h.0
  nth-Plain (suc k) (e ∷ es) h = nth-Plain k es h.1

  enter_timer-Tidy :
      (name : TimerName) (k : ℕ) (n : Node Seen)
      → Inv n
      → Tidy n
      → OnSome Tidy (enter ext (timer name k) n)
  unfolding enter
  enter_timer-Tidy name k n inv v = elim (Option-cases (nth k (timer_of name n.states))) [
    | inl e ↦ rw (enter, e) tt
    | inr (x, e) ↦
        rw (enter, e)
          (post-Tidy ext none x n
            (subst (OnSome IsPlain) e
              (nth-Plain k (timer_of name n.states) (timer_of-Plain name n inv v)))
            v)
  ]

  enter_message-Tidy :
      (e : Effect) (n : Node Seen) → IsPlain e → Tidy n → OnSome Tidy (enter ext (message e) n)
  unfolding enter
  enter_message-Tidy e n h v = post-Tidy ext none e n h v

  Reach-Tidy :
      {nodeinfo : NodeInfo} {n : Node Seen}
      → DecodesPublic ext.crypto
      → (r : Reach ext nodeinfo n) → InputsPlain r
      → Tidy n
  unfolding InputsPlain
  Reach-Tidy {nodeinfo} decodes started h = start-Tidy nodeinfo
  Reach-Tidy decodes (stepped {n} r c e) h =
      subst (OnSome Tidy) e (step-Tidy ext c n decodes (Reach-Inv ext r) (Reach-Tidy decodes r h))
  Reach-Tidy decodes (entered {n} r (message x) e) h =
      subst (OnSome Tidy) e (enter_message-Tidy x n h.0 (Reach-Tidy decodes r h.1))
  Reach-Tidy decodes (entered {n} r (timer name k) e) h =
      subst (OnSome Tidy) e (enter_timer-Tidy name k n (Reach-Inv ext r) (Reach-Tidy decodes r h))

  -- If peers that are decoded hold no key pair, then in every node that comes about from a start
  -- without an input that is a key table or a list of peers with key pairs, and that is at rest, the
  -- packet handler has keys for exactly the peers that the peer manager knows with both keys: their
  -- address, this node's key pair for them and their public key.
  pub Reach-same_keys :
      {nodeinfo : NodeInfo} (n : Node Seen)
      → DecodesPublic ext.crypto
      → (r : Reach ext nodeinfo n) → InputsPlain r
      → IsQuiet n
      → (id : Uuid)
      → lookup ℕ_discrete id n.states.packet_handler.keys
        ≡ (lookup ℕ_discrete id n.states.peer_manager.known >>= keys_with)
  Reach-same_keys n decodes r h quiet id =
      let v = Reach-Tidy decodes r h in
      let keys = n.states.packet_handler.keys in
      let peers =
        ap
          (λ c.
            table_after (unsent c.phase)
              (table_after (bodies n.controls.packet_handler.queue) keys))
          (quiet.0 ActorName.peer_manager) in
      let packets =
        ap (λ c. table_after (bodies c.queue) keys) (quiet.0 ActorName.packet_handler) in
      ap (lookup ℕ_discrete id) (sym (peers ∙ packets)) ∙ v.follows id
