-- ===== src/Node/Progress.antt =====
-- registry.rs: the servers of a node never wait for each other in a circle.
use gwyh.Base.{
  ◌≡◌, refl, true, ℕ, zero, suc, ◌<◌, some, List, [], ◌∷◌, ◌++◌, ◌⊎◌, inl, inr, Any, arith, ap, sym,
  subst, length,
}
use gwyh.NodeInfo.{NodeInfo}
use gwyh.External.{Handle, Bytes, Timestamp}
use gwyh.Actor.{
  Effect, handle_broadcast, to_packet_handler, to_handshaker, to_peer_manager, send_to, notify_one,
}
use gwyh.Node.Control.{ActorName, Request, Phase, idle, sending, waiting, get, rank}
use gwyh.Node.State.{Node, control_new, Outside, begin_with, is_awaited, advance_from, run_task}
use gwyh.Node.Run.{Choice, begin, advance, step, Reach}
use gwyh.Node.Waiters.{current, IsWaiting, everywhere}
use gwyh.Node.Invariant.{Inv, Addressed}
use gwyh.Node.Steps.{Reach-Inv}
use gwyh.Node.Panics.{WeighsPositive, IsDone, Panics, perform-IsDone}

-- Nothing is queued, handled or to be sent.
abbrev pub IsQuiet : {Seen : Type 0} → Node Seen → Type 0
IsQuiet n = ((a : ActorName) → get a n.controls ≡ control_new) × (n.tasks ≡ [])

-- A server or a task has a next step.
abbrev pub Moves : {Seen : Type 0} → Outside Seen → Node Seen → Type 0
Moves ext n = (c : Choice) × IsDone (step ext c n)

-- The first message of an idle server has it panic, at the given time.
abbrev pub Panicking : {Seen : Type 0} → Outside Seen → Timestamp → Node Seen → Type 0
Panicking ext now n =
    (a : ActorName) × (r : Request) × (rest : List Request) × (get a n.controls
      ≡ record { queue = r ∷ rest; phase = idle })
    × Panics ext now n.states r.body

-- The user's handler of broadcasts returns.
abbrev pub HandlerReturns : {Seen : Type 0} → Outside Seen → Type 0
HandlerReturns ext = (handler : Handle) (payload : Bytes) → ext.returns handler payload ≡ true

rank-bound : (a : ActorName) → rank a < 3
rank-bound ActorName.packet_handler = omega arith
rank-bound ActorName.handshaker = omega arith
rank-bound ActorName.peer_manager = omega arith

module _ {Seen : Type 0} (ext : Outside Seen) (now : Timestamp)
    (weighs : WeighsPositive ext.chooser) (back : HandlerReturns ext) where
  abbrev Goes : Node Seen → Type 0
  Goes n = Moves ext n ⊎ Panicking ext now n

  awaited-returns : (e : Effect) → is_awaited ext e ≡ true
  awaited-returns (handle_broadcast handler payload) = back handler payload
  awaited-returns (to_packet_handler _ _) = refl
  awaited-returns (to_handshaker _ _) = refl
  awaited-returns (to_peer_manager _ _) = refl
  awaited-returns (send_to _ _ _) = refl
  awaited-returns (notify_one _) = refl

  begin-Moves :
      (a : ActorName) (r : Request) (rest : List Request) (n : Node Seen)
      → get a n.controls ≡ record { queue = r ∷ rest; phase = idle }
      → Inv n
      → Goes n
  unfolding step begin_with
  begin-Moves a r rest n e v =
      elim (perform-IsDone ext weighs now a r.body n.states
        (subst (Addressed a) e (v.addressed a)).0 v.sound) [
          | inl (out, done) ↦ inl (
            begin now a,
            subst (λ c. IsDone (begin_with ext now a c.phase c.queue n)) (sym e)
                (rw (begin_with, done) (_, refl)),
          )
          | inr panics ↦ inr (a, r, rest, e, panics)
        ]

  advance-Moves :
      (a : ActorName) (r : Request) (out : List Effect) (n : Node Seen)
      → (get a n.controls).phase ≡ sending r out
      → Goes n
  unfolding step advance_from
  advance-Moves a r [] n e =
      inl (advance a, subst (λ p. IsDone (advance_from ext a p n)) (sym e) (_, refl))
  advance-Moves a r (s ∷ _) n e = inl (
    advance a,
    subst (λ p. IsDone (advance_from ext a p n)) (sym e)
        (rw (awaited-returns s, advance_from) (_, refl)),
  )

  Any-length : {A : Type 0} (P : A → Type 0) (xs : List A) → Any P xs → 0 < length xs
  Any-length P [] h = absurd h
  Any-length P (x ∷ xs) h = omega arith

  -- A server that has a request moves, or waits for one of lower rank that has.
  busy-Moves :
      (k : ℕ) (a : ActorName) (queue : List Request) (phase : Phase) (n : Node Seen)
      → get a n.controls ≡ record { queue = queue; phase = phase }
      → rank a < k
      → 0 < length (current phase ++ queue)
      → Inv n
      → Goes n
  busy-Moves zero a queue phase n e lt busy v = absurd (omega arith)
  busy-Moves (suc k) a [] idle n e lt busy v = absurd (omega arith)
  busy-Moves (suc k) a (r ∷ rest) idle n e lt busy v = begin-Moves a r rest n e v
  busy-Moves (suc k) a queue (sending r out) n e lt busy v =
      advance-Moves a r out n (ap (λ c. c.phase) e)
  busy-Moves (suc k) a queue (waiting r out) n e lt busy v =
      let (b, below, owed) = v.awaited a (subst (λ c. IsWaiting c.phase) (sym e) tt) in
      let c = get b n.controls in
      busy-Moves k b c.queue c.phase n refl (omega arith)
        (Any-length (λ r. r.reply_to ≡ some a) (current c.phase ++ c.queue) owed) v

  server-Moves :
      (a : ActorName) (queue : List Request) (phase : Phase) (n : Node Seen)
      → get a n.controls ≡ record { queue = queue; phase = phase }
      → Inv n
      → (get a n.controls ≡ control_new) ⊎ Goes n
  server-Moves a [] idle n e v = inl e
  server-Moves a (r ∷ rest) idle n e v = inr (begin-Moves a r rest n e v)
  server-Moves a queue (sending r out) n e v = inr (advance-Moves a r out n (ap (λ c. c.phase) e))
  server-Moves a queue (waiting r out) n e v =
      inr (busy-Moves 3 a queue (waiting r out) n e (rank-bound a) (omega arith) v)

  tasks-Moves :
      (tasks : List Effect) (n : Node Seen)
      → n.tasks ≡ tasks
      → ((a : ActorName) → get a n.controls ≡ control_new)
      → IsQuiet n ⊎ Goes n
  unfolding step run_task
  tasks-Moves [] n e rest = inl (rest, e)
  tasks-Moves (_ ∷ _) n e rest = inr (inl (Choice.task 0, rw (run_task, e) (_, refl)))

  Inv-Moves : (n : Node Seen) → Inv n → IsQuiet n ⊎ Goes n
  Inv-Moves n v =
      let each : (a : ActorName) → (get a n.controls ≡ control_new) ⊎ Goes n =
        λ a. server-Moves a (get a n.controls).queue (get a n.controls).phase n refl v in
      elim (each ActorName.packet_handler) [
        | inr m ↦ inr m
        | inl p ↦ elim (each ActorName.handshaker) [
          | inr m ↦ inr m
          | inl h ↦ elim (each ActorName.peer_manager) [
            | inr m ↦ inr m
            | inl q ↦
                tasks-Moves n.tasks n refl (everywhere (λ a c. c ≡ control_new) n.controls p h q)
          ]
        ]
      ]

  -- If the weighted choice does not fail for positive weights and the user's handler of broadcasts
  -- returns, then in every node that comes about from a start, whatever the time, either nothing is
  -- queued, handled, to be sent or spawned, or a server or a task has a next step, or the handshaker
  -- is idle and panics at the next message, since it has to hash a timestamp that is in the window
  -- but has no nanoseconds.
  pub Reach-Moves :
      {nodeinfo : NodeInfo} (n : Node Seen)
      → Reach ext nodeinfo n
      → IsQuiet n ⊎ (Moves ext n ⊎ Panicking ext now n)
  Reach-Moves n r = Inv-Moves n (Reach-Inv ext r)
