-- ===== src/Node/Ends.antt =====
-- registry.rs: where the runs of a node that is left to itself end.
use gwyh.External.{Timestamp}
use gwyh.Base.{◌≡◌, ◌⊎◌, some, OnSome, subst, inl, inr}
use mathlib.Core.WellFounded.{Acc}
use gwyh.NodeInfo.{NodeInfo}
use gwyh.Node.State.{Node, Outside}
use gwyh.Node.Run.{Choice, step, Reach, stepped, Run, here, further}
use gwyh.Node.Invariant.{Inv}
use gwyh.Node.Steps.{step-Inv, Reach-Inv}
use gwyh.Node.Panics.{WeighsPositive}
use gwyh.Node.Progress.{IsQuiet, Panicking, HandlerReturns, Reach-Moves}
use gwyh.Node.Score.{score, Less, Drops-Acc}
use gwyh.Node.Falls.{step-Less}

module _ {Seen : Type 0} (ext : Outside Seen) where
  -- The node after a step, before the node.
  abbrev pub Next : Node Seen → Node Seen → Type 0
  Next m n = (c : Choice) × (step ext c n ≡ some m)

  Less-Next : (n : Node Seen) → Acc Less n → Inv n → Acc Next n
  Less-Next n (Acc.intro _ smaller) v = Acc.intro n (λ m (c, e).
      Less-Next m (smaller m (subst (OnSome (λ m. Less m n)) e (step-Less ext c n v)))
        (subst (OnSome Inv) e (step-Inv ext c n v)))

  -- From every node that comes about from a start, every run of its servers and tasks ends, as long
  -- as no timer fires and nothing is put in.
  pub Reach-Acc : {nodeinfo : NodeInfo} (n : Node Seen) → Reach ext nodeinfo n → Acc Next n
  Reach-Acc n r = Less-Next n (Drops-Acc score 6 n) (Reach-Inv ext r)

  -- The node rests, or panics at its next message.
  abbrev pub Stops : Timestamp → Node Seen → Type 0
  Stops now m = IsQuiet m ⊎ Panicking ext now m

  rests :
      {nodeinfo : NodeInfo} (now : Timestamp) (n : Node Seen)
      → WeighsPositive ext.chooser
      → HandlerReturns ext
      → Acc Next n
      → Reach ext nodeinfo n
      → (m : Node Seen) × Run ext n m × Stops now m
  rests now n weighs back (Acc.intro _ smaller) r = elim (Reach-Moves ext now weighs back n r) [
    | inl quiet ↦ (n, here, inl quiet)
    | inr (inr panics) ↦ (n, here, inr panics)
    | inr (inl (c, (m, e))) ↦
        let (k, run, stops) = rests now m weighs back (smaller m (c, e)) (stepped r c e) in
        (k, further c e run, stops)
  ]

  -- If the weighted choice does not fail for positive weights and the user's handler of broadcasts
  -- returns, then, whatever the time, every node that comes about from a start has a run of its
  -- servers and tasks, without a timer or an input, after which nothing is queued, handled, to be
  -- sent or spawned, or the handshaker panics at the next message, since it has to hash a timestamp
  -- that is in the window but has no nanoseconds.
  pub Reach-rests :
      {nodeinfo : NodeInfo} (now : Timestamp) (n : Node Seen)
      → WeighsPositive ext.chooser
      → HandlerReturns ext
      → Reach ext nodeinfo n
      → (m : Node Seen) × Run ext n m × Stops now m
  Reach-rests now n weighs back r = rests now n weighs back (Reach-Acc n r) r
