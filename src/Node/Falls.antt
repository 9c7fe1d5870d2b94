-- ===== src/Node/Falls.antt =====
-- registry.rs: after every step of a node less is left to do.
use gwyh.Base.{
  OnSome-if, ◌≡◌, refl, ℕ, zero, suc, ◌+◌, ◌*◌, ◌<◌, ◌≤◌, Option, none, some, List, [], ◌∷◌, ◌++◌,
  arith, OnSome, subst, Option-cases, inl, inr, ap, ◌∙◌,
}
use gwyh.External.{Timestamp}
use gwyh.Actor.{
  Effect, PacketHandlerMessage, HandshakerMessage, PeerManagerRequest, to_packet_handler,
  to_handshaker, to_peer_manager, Delivery, cast, call, task,
}
use gwyh.Waiting.{level, packet_level, handshake_level, peer_level, CallsBelow}
use gwyh.Node.Control.{
  ActorName, Request, Phase, idle, sending, waiting, Control, get, put, target, delivery, rank,
}
use gwyh.Node.State.{
  is_awaited, Node, Outside, perform, begin_with, post_to, post, to_phase, send_by, resumed, answer,
  advance_from, take_out, run_task,
}
use gwyh.Node.Run.{Choice, begin, advance, step}
use gwyh.Node.Perform.{Kept, perform-Kept}
use gwyh.Node.Invariant.{Inv, unsent, Addressed, post-phase}
use gwyh.Node.Steps.{answer-sending}
use gwyh.Node.Score.{
  hit, hit-same, score, Less, effects_score, control_score, busy_score, put-score,
  effects_score-append, requests_score-append, effects_score-lower,
}

packet_level-bound : (m : PacketHandlerMessage) → packet_level m < 5
packet_level-bound (PacketHandlerMessage.recv _ _) = omega arith
packet_level-bound m = omega arith

handshake_level-bound : (m : HandshakerMessage) → handshake_level m < 5
handshake_level-bound (HandshakerMessage.packet _ _ _) = omega arith
handshake_level-bound m = omega arith

peer_level-bound : (m : PeerManagerRequest) → peer_level m < 5
peer_level-bound PeerManagerRequest.reassign = omega arith
peer_level-bound PeerManagerRequest.send_heartbeat = omega arith
peer_level-bound m = omega arith

level-bound : (e : Effect) → level e < 5
level-bound (to_packet_handler _ m) = packet_level-bound m
level-bound (to_handshaker _ m) = handshake_level-bound m
level-bound (to_peer_manager _ m) = peer_level-bound m
level-bound e = omega arith

module _ {Seen : Type 0} (ext : Outside Seen) where
  phase-score :
      (k : ℕ) (a : ActorName) (phase : Phase) (n : Node Seen)
      → score (suc k) (to_phase ext a phase n) + effects_score k 3 (unsent (get a n.controls).phase)
        ≡ score (suc k) n + effects_score k 3 (unsent phase)
  phase-score k a phase n =
      omega (arith, put-score (suc k) a (record (get a n.controls) { phase = phase }) n.controls)

  post_to-score :
      (k : ℕ) (t reply_to : Option ActorName) (e : Effect) (n : Node Seen)
      → score (suc k) (post_to ext t reply_to e n) ≤ score (suc k) n + hit k (level e)
  post_to-score k none reply_to e n = omega arith
  post_to-score k (some a) reply_to e n =
      let r : Request = record { body = e; reply_to = reply_to } in
      omega (
        arith,
        put-score (suc k) a
            (record (get a n.controls) { queue = (get a n.controls).queue ++ r ∷ [] }) n.controls,
        requests_score-append k (get a n.controls).queue (r ∷ []),
      )

  -- After a message is sent it counts for less.
  send_by-score :
      (k : ℕ) (d : Delivery) (a : ActorName) (r : Request) (e : Effect) (rest : List Effect)
      (n : Node Seen)
      → (get a n.controls).phase ≡ sending r (e ∷ rest)
      → score (suc k) (send_by ext d a r e rest n) + hit k (level e) ≤ score (suc k) n
  send_by-score k cast a r e rest n at =
      let n' = post ext none e n in
      let now = ap unsent (post-phase ext (target e) none e n a ∙ at) in
      omega (
        arith,
        phase-score k a (sending r rest) n',
        post_to-score k (target e) none e n,
        ap (effects_score k 3) now,
      )
  send_by-score k call a r e rest n at =
      let n' = post ext (some a) e n in
      let now = ap unsent (post-phase ext (target e) (some a) e n a ∙ at) in
      omega (
        arith,
        phase-score k a (waiting r rest) n',
        post_to-score k (target e) (some a) e n,
        ap (effects_score k 3) now,
      )
  send_by-score k (task _) a r e rest n at =
      let n' : Node Seen = record n { tasks = n.tasks ++ e ∷ [] } in
      omega (
        arith,
        phase-score k a (sending r rest) n',
        effects_score-append k 2 n.tasks (e ∷ []),
        ap (effects_score k 3) (ap unsent at),
      )

  Less-at :
      (l : ℕ) (m n : Node Seen)
      → l < 5
      → ((k : ℕ) → l ≤ k → score (suc k) m + hit k l ≤ score (suc k) n)
      → Less m n
  Less-at l m n lt falls =
      (suc l, omega arith, omega (arith, falls l (omega arith), hit-same l), rest)
    where
      rest : (k : ℕ) → suc l < k → score k m ≤ score k n
      rest zero above = absurd (omega arith)
      rest (suc k) above = omega (arith, falls k (omega arith))

  resumed-score :
      (k : ℕ) (queue : List Request) (phase : Phase)
      → control_score k (record { queue = queue; phase = resumed ext phase })
        ≡ control_score k (record { queue = queue; phase = phase })
  resumed-score k queue idle = refl
  resumed-score k queue (sending r out) = refl
  resumed-score zero queue (waiting r out) = refl
  resumed-score (suc k) queue (waiting r out) = refl

  answer-score :
      (k : ℕ) (reply_to : Option ActorName) (n : Node Seen)
      → score k (answer ext reply_to n) ≡ score k n
  answer-score k none n = refl
  answer-score k (some a) n =
      let c = get a n.controls in
      omega (
        arith,
        resumed-score k c.queue c.phase,
        put-score k a (record c { phase = resumed ext c.phase }) n.controls,
      )

  finish-Less :
      (a : ActorName) (r : Request) (n : Node Seen)
      → (get a n.controls).phase ≡ sending r []
      → Less (to_phase ext a idle (answer ext r.reply_to n)) n
  finish-Less a r n at =
      let n' = answer ext r.reply_to n in
      let c : Control = record (get a n'.controls) { phase = idle } in
      let now = answer-sending ext r.reply_to n a r [] at in
      (
        0,
        omega arith,
        omega (arith, put-score 0 a c n'.controls, answer-score 0 r.reply_to n, ap busy_score now),
        rest,
      )
    where
      rest : (k : ℕ) → 0 < k → score k (to_phase ext a idle (answer ext r.reply_to n)) ≤ score k n
      rest zero above = absurd (omega arith)
      rest (suc k) above =
          omega (
            arith,
            phase-score k a idle (answer ext r.reply_to n),
            answer-score (suc k) r.reply_to n,
          )

  advance_from-Less :
      (a : ActorName) (phase : Phase) (n : Node Seen)
      → (get a n.controls).phase ≡ phase
      → OnSome (λ m. Less m n) (advance_from ext a phase n)
  unfolding advance_from
  advance_from-Less a idle n at = tt
  advance_from-Less a (waiting r out) n at = tt
  advance_from-Less a (sending r []) n at = finish-Less a r n at
  advance_from-Less a (sending r (e ∷ out)) n at =
      OnSome-if (λ m. Less m n) (is_awaited ext e)
        (Less-at (level e) (send_by ext (delivery e) a r e out n) n (level-bound e)
          (λ k _. send_by-score k (delivery e) a r e out n at))

  begin_with-Less :
      (now : Timestamp) (a : ActorName) (queue : List Request) (phase : Phase) (n : Node Seen)
      → get a n.controls ≡ record { queue = queue; phase = phase }
      → Inv n
      → OnSome (λ m. Less m n) (begin_with ext now a phase queue n)
  unfolding begin_with
  begin_with-Less now a [] idle n at v = tt
  begin_with-Less now a queue (sending r out) n at v = tt
  begin_with-Less now a queue (waiting r out) n at v = tt
  begin_with-Less now a (r ∷ rest) idle n at v =
      let here : Addressed a (record { queue = r ∷ rest; phase = idle }) =
        subst (Addressed a) at (v.addressed a) in
      let kept = perform-Kept ext now a r.body n.states here.0 v.sound in
      elim (Option-cases (perform ext now r.body n.states)) [
        | inl e ↦ rw (begin_with, e) tt
        | inr ((out, states), e) ↦
            rw (begin_with, e)
              (let c : Control = record { queue = rest; phase = sending r out } in
                Less-at (level r.body) (record n { states = states; controls = put a c n.controls })
                  n (level-bound r.body)
                  (λ k le. omega (
                    arith,
                    put-score (suc k) a c n.controls,
                    ap (control_score (suc k)) at,
                    effects_score-lower k 3 (level r.body) (CallsBelow (rank a)) out (omega arith)
                        (subst (Kept a r.body) e kept).0,
                  )))
      ]

  take_out-score :
      (j k : ℕ) (tasks : List Effect)
      → OnSome
          (λ p. effects_score j 2 tasks ≡ effects_score j 2 p.1 + hit j (level p.0) * 2)
          (take_out ext k tasks)
  take_out-score j k [] = tt
  take_out-score j zero (x ∷ xs) = omega arith
  take_out-score j (suc k) (x ∷ xs) = elim (Option-cases (take_out ext k xs)) [
    | inl h ↦ rw h tt
    | inr ((y, ys), h) ↦
        let rest =
          subst (OnSome (λ p. effects_score j 2 xs ≡ effects_score j 2 p.1 + hit j (level p.0) * 2))
            h (take_out-score j k xs) in
        rw h (omega (arith, rest))
  ]

  run_task-Less : (k : ℕ) (n : Node Seen) → OnSome (λ m. Less m n) (run_task ext k n)
  unfolding run_task
  run_task-Less k n = elim (Option-cases (take_out ext k n.tasks)) [
    | inl e ↦ rw (run_task, e) tt
    | inr ((e, tasks), eq) ↦
        rw (run_task, eq)
          (let n' : Node Seen = record n { tasks = tasks } in
            Less-at (level e) (post ext none e n') n (level-bound e) (λ j _. omega (
              arith,
              post_to-score j (target e) none e n',
              subst
                  (OnSome (λ p.
                    effects_score j 2 n.tasks ≡ effects_score j 2 p.1 + hit j (level p.0) * 2))
                  eq (take_out-score j k n.tasks),
            )))
  ]

  pub step-Less : (c : Choice) (n : Node Seen) → Inv n → OnSome (λ m. Less m n) (step ext c n)
  unfolding step
  step-Less (begin now a) n v =
      begin_with-Less now a (get a n.controls).queue (get a n.controls).phase n refl v
  step-Less (advance a) n v = advance_from-Less a (get a n.controls).phase n refl
  step-Less (Choice.task k) n v = run_task-Less k n
