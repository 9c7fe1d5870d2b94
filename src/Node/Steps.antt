-- ===== src/Node/Steps.antt =====
-- registry.rs: every step of a node, and whatever is put in, keeps its invariant.
use gwyh.Base.{
  OnSome-if, ◌≡◌, refl, Option, none, some, List, [], ◌∷◌, ◌++◌, All, inl, inr, ℕ, OnSome, Any,
  All-map, subst, Option-cases, ◌∙◌, ap, sym,
}
use gwyh.NodeInfo.{NodeInfo}
use gwyh.External.{Timestamp}
use gwyh.Actor.{
  Effect, Delivery, cast, call, task, to_packet_handler, to_handshaker, to_peer_manager,
}
use gwyh.Waiting.{CallsBelow}
use gwyh.Node.Control.{
  ActorName, Request, Phase, idle, sending, waiting, Control, get, rank, target, delivery,
}
use gwyh.Node.State.{
  is_awaited, Node, Outside, perform, begin_with, post, to_phase, send_by, resumed, answer,
  advance_from, take_out, run_task,
}
use gwyh.Node.Run.{
  Choice, begin, advance, Input, timer, message, nth, timer_of, step, enter, Reach, started,
  stepped, entered,
}
use gwyh.Node.Perform.{Kept, perform-Kept}
use gwyh.Node.Waiters.{
  current, IsWaiting, Awaits, put_lem, get-put, put-Awaited, push-Awaits, take-Awaited,
}
use gwyh.Node.Invariant.{
  Inv, unsent, Addressed, Lower, start-Inv, post-Inv, post-phase, to_phase-Inv,
}

module _ {Seen : Type 0} (ext : Outside Seen) where
  -- A call has its target below the caller.
  call-Awaits :
      (a : ActorName) (e : Effect) (n : Node Seen)
      → CallsBelow (rank a) e
      → delivery e ≡ call
      → Awaits a (post ext (some a) e n).controls
  call-Awaits a (to_packet_handler call m) n low d =
      push-Awaits a ActorName.packet_handler
        (record { body = to_packet_handler call m; reply_to = some a }) n.controls low refl
  call-Awaits a (to_handshaker call m) n low d =
      push-Awaits a ActorName.handshaker (record { body = to_handshaker call m; reply_to = some a })
        n.controls low refl
  call-Awaits a (to_peer_manager call m) n low d =
      push-Awaits a ActorName.peer_manager
        (record { body = to_peer_manager call m; reply_to = some a }) n.controls low refl
  call-Awaits a e n low d = absurd (cc d)

  send_by-Inv :
      (d : Delivery) (a : ActorName) (r : Request) (e : Effect) (rest : List Effect) (n : Node Seen)
      → delivery e ≡ d
      → (get a n.controls).phase ≡ sending r (e ∷ rest)
      → Inv n
      → Inv (send_by ext d a r e rest n)
  send_by-Inv cast a r e rest n d at v =
      let low : All (CallsBelow (rank a)) (e ∷ rest) =
        subst (λ p. All (CallsBelow (rank a)) (unsent p)) at (v.lower a) in
      to_phase-Inv ext a (sending r rest) (post ext none e n)
        (sym (ap current (post-phase ext (target e) none e n a ∙ at))) absurd low.1
        (post-Inv ext none e n v)
  send_by-Inv call a r e rest n d at v =
      let low : All (CallsBelow (rank a)) (e ∷ rest) =
        subst (λ p. All (CallsBelow (rank a)) (unsent p)) at (v.lower a) in
      to_phase-Inv ext a (waiting r rest) (post ext (some a) e n)
        (sym (ap current (post-phase ext (target e) (some a) e n a ∙ at)))
        (λ w. call-Awaits a e n low.0 d) low.1 (post-Inv ext (some a) e n v)
  send_by-Inv (task k) a r e rest n d at v =
      let low : All (CallsBelow (rank a)) (e ∷ rest) =
        subst (λ p. All (CallsBelow (rank a)) (unsent p)) at (v.lower a) in
      to_phase-Inv ext a (sending r rest) (record n { tasks = n.tasks ++ e ∷ [] })
        (sym (ap current at)) absurd low.1
        (record { addressed = v.addressed; lower = v.lower; awaited = v.awaited; sound = v.sound })

  resumed-current : (phase : Phase) → current (resumed ext phase) ≡ current phase
  resumed-current idle = refl
  resumed-current (sending r out) = refl
  resumed-current (waiting r out) = refl

  pub resumed-unsent : (phase : Phase) → unsent (resumed ext phase) ≡ unsent phase
  resumed-unsent idle = refl
  resumed-unsent (sending r out) = refl
  resumed-unsent (waiting r out) = refl

  resumed-not-IsWaiting : (phase : Phase) → ¬ IsWaiting (resumed ext phase)
  resumed-not-IsWaiting idle w = w
  resumed-not-IsWaiting (sending r out) w = w
  resumed-not-IsWaiting (waiting r out) w = w

  answer-Inv : (reply_to : Option ActorName) (n : Node Seen) → Inv n → Inv (answer ext reply_to n)
  answer-Inv none n v = v
  answer-Inv (some a) n v =
      to_phase-Inv ext a (resumed ext (get a n.controls).phase) n
        (resumed-current (get a n.controls).phase)
        (λ w. absurd (resumed-not-IsWaiting (get a n.controls).phase w))
        (subst (All (CallsBelow (rank a))) (sym (resumed-unsent (get a n.controls).phase))
          (v.lower a))
        v

  -- A reply wakes who waits for it, and leaves the server that replies as it is.
  answer-awake :
      (reply_to : Option ActorName) (n : Node Seen) (y : ActorName)
      → reply_to ≡ some y
      → ¬ IsWaiting (get y (answer ext reply_to n).controls).phase
  answer-awake none n y e w = cc e
  answer-awake (some a) n y e w =
      let phase = (get a n.controls).phase in
      let same : a ≡ y = cc e in
      subst (λ y. ¬ IsWaiting (get y (answer ext (some a) n).controls).phase) same
        (λ w. resumed-not-IsWaiting phase (
          subst (λ c. IsWaiting c.phase)
            (get-put a (record (get a n.controls) { phase = resumed ext phase }) n.controls) w))
        w

  pub answer-sending :
      (reply_to : Option ActorName) (n : Node Seen) (a : ActorName) (r : Request)
      (out : List Effect)
      → (get a n.controls).phase ≡ sending r out
      → (get a (answer ext reply_to n).controls).phase ≡ sending r out
  answer-sending none n a r out e = e
  answer-sending (some b) n a r out e =
      put_lem (λ a k. (get a n.controls).phase ≡ sending r out → k.phase ≡ sending r out) b _
        n.controls (λ e. ap (resumed ext) e) (λ a e. e) a e

  finish-Inv :
      (a : ActorName) (r : Request) (n : Node Seen)
      → (get a n.controls).phase ≡ sending r []
      → Inv n
      → Inv (to_phase ext a idle (answer ext r.reply_to n))
  finish-Inv a r n at v =
      let n' = answer ext r.reply_to n in
      let v' = answer-Inv r.reply_to n v in
      let c : Control = record (get a n'.controls) { phase = idle } in
      record {
        addressed = put_lem Addressed a c n'.controls (v'.addressed a) v'.addressed;
        lower = put_lem Lower a c n'.controls tt v'.lower;
        awaited =
            put-Awaited a c n'.controls absurd
              (λ y w o.
                elim (subst
                  (λ p. Any (λ r. r.reply_to ≡ some y) (current p ++ (get a n'.controls).queue))
                  (answer-sending r.reply_to n a r [] at) o) [
                    | inl e ↦ absurd (
                        answer-awake r.reply_to n y e (
                          put_lem (λ y k. IsWaiting k.phase → IsWaiting (get y n'.controls).phase) a
                            c n'.controls absurd (λ y w. w) y w))
                    | inr o ↦ o
                  ])
              v'.awaited;
        sound = v'.sound;
      }

  advance_from-Inv :
      (a : ActorName) (phase : Phase) (n : Node Seen)
      → (get a n.controls).phase ≡ phase
      → Inv n
      → OnSome Inv (advance_from ext a phase n)
  unfolding advance_from
  advance_from-Inv a idle n at v = tt
  advance_from-Inv a (waiting r out) n at v = tt
  advance_from-Inv a (sending r (e ∷ out)) n at v =
      OnSome-if Inv (is_awaited ext e) (send_by-Inv (delivery e) a r e out n refl at v)
  advance_from-Inv a (sending r []) n at v = finish-Inv a r n at v

  begin_with-Inv :
      (now : Timestamp) (a : ActorName) (phase : Phase) (queue : List Request) (n : Node Seen)
      → get a n.controls ≡ record { queue = queue; phase = phase }
      → Inv n
      → OnSome Inv (begin_with ext now a phase queue n)
  unfolding begin_with
  begin_with-Inv now a idle [] n at v = tt
  begin_with-Inv now a (sending r out) queue n at v = tt
  begin_with-Inv now a (waiting r out) queue n at v = tt
  begin_with-Inv now a idle (r ∷ rest) n at v =
      let here : Addressed a (record { queue = r ∷ rest; phase = idle }) =
        subst (Addressed a) at (v.addressed a) in
      let kept = perform-Kept ext now a r.body n.states here.0 v.sound in
      elim (Option-cases (perform ext now r.body n.states)) [
        | inl e ↦ rw (begin_with, e) tt
        | inr ((out, states), e) ↦
            rw (begin_with, e)
              (let k = subst (Kept a r.body) e kept in
                let c : Control = record { queue = rest; phase = sending r out } in
                record {
                  addressed = put_lem Addressed a c n.controls here.1 v.addressed;
                  lower = put_lem Lower a c n.controls (All-map (λ e h. h.0) out k.0) v.lower;
                  awaited = take-Awaited a r rest out n.controls at v.awaited;
                  sound = k.1;
                })
      ]

  run_task-Inv : (k : ℕ) (n : Node Seen) → Inv n → OnSome Inv (run_task ext k n)
  unfolding run_task
  run_task-Inv k n v = elim (Option-cases (take_out ext k n.tasks)) [
    | inl e ↦ rw (run_task, e) tt
    | inr ((e, tasks), eq) ↦
        rw (run_task, eq)
          (post-Inv ext none e (record n { tasks = tasks })
            (record {
              addressed = v.addressed;
              lower = v.lower;
              awaited = v.awaited;
              sound = v.sound;
            }))
  ]

  pub step-Inv : (c : Choice) (n : Node Seen) → Inv n → OnSome Inv (step ext c n)
  unfolding step
  step-Inv (begin now a) n v =
      begin_with-Inv now a (get a n.controls).phase (get a n.controls).queue n refl v
  step-Inv (advance a) n v = advance_from-Inv a (get a n.controls).phase n refl v
  step-Inv (Choice.task k) n v = run_task-Inv k n v

  enter-Inv : (i : Input) (n : Node Seen) → Inv n → OnSome Inv (enter ext i n)
  unfolding enter
  enter-Inv (message e) n v = post-Inv ext none e n v
  enter-Inv (timer name k) n v = elim (Option-cases (nth k (timer_of name n.states))) [
    | inl e ↦ rw (enter, e) tt
    | inr (e, eq) ↦ rw (enter, eq) (post-Inv ext none e n v)
  ]

  -- In every node that comes about from a start, in whatever order its servers, tasks and timers run
  -- and whatever messages are put in: each queue holds messages for its server, what a server still
  -- has to send calls servers of lower rank only, a server that waits for a reply waits for one of
  -- lower rank that handles or has queued its call, and the invariants of the peer manager and the
  -- handshaker hold.
  pub Reach-Inv : {nodeinfo : NodeInfo} {n : Node Seen} → Reach ext nodeinfo n → Inv n
  Reach-Inv {nodeinfo} started = start-Inv ext nodeinfo
  Reach-Inv (stepped {n} r c e) = subst (OnSome Inv) e (step-Inv c n (Reach-Inv r))
  Reach-Inv (entered {n} r i e) = subst (OnSome Inv) e (enter-Inv i n (Reach-Inv r))
