-- ===== src/Node/Invariant.antt =====
-- registry.rs: what holds of a node between any two of its steps.
use gwyh.Base.{◌≡◌, refl, Option, none, some, List, [], ◌∷◌, ◌++◌, All, All-append}
use gwyh.NodeInfo.{NodeInfo}
use gwyh.Actor.{Effect}
use gwyh.PeerManager.Invariant.{new-Inv as peers_start}
use gwyh.Handshaker.Invariant.{new-Inv as handshakes_start}
use gwyh.Waiting.{CallsBelow}
use gwyh.Node.Control.{
  ActorName, Request, Phase, idle, sending, waiting, Control, get, rank, target,
}
use gwyh.Node.State.{Node, Outside, start, post_to, post, to_phase}
use gwyh.Node.Perform.{Sound}
use gwyh.Node.Waiters.{
  current, IsWaiting, Awaits, Awaited, put_lem, everywhere, push-Awaited, set_phase-Awaited,
}

abbrev pub unsent : Phase → List Effect
unsent idle = []
unsent (sending _ out) = out
unsent (waiting _ out) = out

-- A message is in the queue of the server that it is for.
abbrev pub Addressed : ActorName → Control → Type 0
Addressed a c = All (λ r. target r.body ≡ some a) c.queue

-- What is still to be sent calls servers of lower rank only.
abbrev pub Lower : ActorName → Control → Type 0
Lower a c = All (CallsBelow (rank a)) (unsent c.phase)

pub record Inv {Seen : Type 0} (n : Node Seen) : Type 0 where
  pub addressed : (a : ActorName) → Addressed a (get a n.controls)
  pub lower : (a : ActorName) → Lower a (get a n.controls)
  pub awaited : Awaited n.controls
  pub sound : Sound n.states

module _ {Seen : Type 0} (ext : Outside Seen) where
  pub start-Inv : (nodeinfo : NodeInfo) → Inv (start ext nodeinfo)
  unfolding start
  start-Inv nodeinfo = record {
    addressed = everywhere Addressed (start ext nodeinfo).controls tt tt tt;
    lower = everywhere Lower (start ext nodeinfo).controls tt tt tt;
    awaited =
        everywhere (λ a c. IsWaiting c.phase → Awaits a (start ext nodeinfo).controls)
          (start ext nodeinfo).controls absurd absurd absurd;
    sound = (peers_start nodeinfo, handshakes_start nodeinfo);
  }

  post_to-Inv :
      (t reply_to : Option ActorName) (e : Effect) (n : Node Seen)
      → target e ≡ t
      → Inv n
      → Inv (post_to ext t reply_to e n)
  post_to-Inv none reply_to e n h v = record {
    addressed = v.addressed;
    lower = v.lower;
    awaited = v.awaited;
    sound = v.sound;
  }
  post_to-Inv (some a) reply_to e n h v =
      let r : Request = record { body = e; reply_to = reply_to } in
      let c : Control = record (get a n.controls) { queue = (get a n.controls).queue ++ r ∷ [] } in
      record {
        addressed =
            put_lem Addressed a c n.controls
              (All-append (λ r. target r.body ≡ some a) (get a n.controls).queue (r ∷ [])
                (v.addressed a) (h, tt))
              v.addressed;
        lower = put_lem Lower a c n.controls (v.lower a) v.lower;
        awaited = push-Awaited a r n.controls v.awaited;
        sound = v.sound;
      }

  pub post-Inv :
      (reply_to : Option ActorName) (e : Effect) (n : Node Seen)
      → Inv n
      → Inv (post ext reply_to e n)
  post-Inv reply_to e n v = post_to-Inv (target e) reply_to e n refl v

  pub post-phase :
      (t reply_to : Option ActorName) (e : Effect) (n : Node Seen) (a : ActorName)
      → (get a (post_to ext t reply_to e n).controls).phase ≡ (get a n.controls).phase
  post-phase none reply_to e n a = refl
  post-phase (some b) reply_to e n a =
      put_lem (λ a k. k.phase ≡ (get a n.controls).phase) b _ n.controls refl (λ a. refl) a

  pub to_phase-Inv :
      (a : ActorName) (phase : Phase) (n : Node Seen)
      → current phase ≡ current (get a n.controls).phase
      → (IsWaiting phase → Awaits a n.controls)
      → All (CallsBelow (rank a)) (unsent phase)
      → Inv n
      → Inv (to_phase ext a phase n)
  to_phase-Inv a phase n same waits low v =
      let c : Control = record (get a n.controls) { phase = phase } in
      record {
        addressed = put_lem Addressed a c n.controls (v.addressed a) v.addressed;
        lower = put_lem Lower a c n.controls low v.lower;
        awaited = set_phase-Awaited a phase n.controls same waits v.awaited;
        sound = v.sound;
      }
