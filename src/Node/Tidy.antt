-- ===== src/Node/Tidy.antt =====
-- registry.rs: where key tables and peers with secrets can be in a node.
use gwyh.Base.{
  ◌≡◌, refl, Option, none, some, List, [], ◌∷◌, ◌++◌, All, All-append, subst, ap, sym, ◌∙◌,
}
use gwyh.Actor.{Effect}
use gwyh.PeerManager.Timers.{IsTimed}
use gwyh.PeerManager.KeyTables.{
  KeyTable, table_after, Follows, table_after-append, table_after-IsPlain,
}
use gwyh.Waiting.{IsPlain}
use gwyh.Node.Control.{ActorName, Request, Phase, Control, Controls, get, push, set_phase, target}
use gwyh.Node.State.{States, Node, Outside, post_to, post, to_phase}
use gwyh.Node.Waiters.{put_lem}
use gwyh.Node.Invariant.{unsent}
use gwyh.Node.Plain.{PlainOrUpdate, TicksPlain, FiresPlain}

-- What a server may have to send and to handle.
abbrev pub Pure : ActorName → Control → Type 0
Pure ActorName.peer_manager c =
    All PlainOrUpdate (unsent c.phase) × All (λ r. IsPlain r.body) c.queue
Pure _ c = All IsPlain (unsent c.phase)

abbrev pub bodies : List Request → List Effect
bodies [] = []
bodies (r ∷ rs) = r.body ∷ bodies rs

-- The table of the packet handler once it has handled its queue, and what the peer manager still has
-- to send.
abbrev pub view : Controls → KeyTable → KeyTable
view cs keys =
    table_after (unsent cs.peer_manager.phase) (table_after (bodies cs.packet_handler.queue) keys)

abbrev pub Timed : {Seen : Type 0} → States Seen → Type 0
Timed st =
    TicksPlain st.packet_handler.rate_control_timer
    × FiresPlain st.handshaker.bootstrap_timer
    × IsTimed st.peer_manager

pub record Tidy {Seen : Type 0} (n : Node Seen) : Type 0 where
  pub pure : (a : ActorName) → Pure a (get a n.controls)
  pub tasks : All IsPlain n.tasks
  pub timed : Timed n.states
  pub follows : Follows (view n.controls n.states.packet_handler.keys) n.states.peer_manager.known

bodies-append : (q : List Request) (r : Request) → bodies (q ++ r ∷ []) ≡ bodies q ++ r.body ∷ []
bodies-append [] r = refl
bodies-append (x ∷ q) r = ap (◌∷◌ x.body) (bodies-append q r)

pub bodies-push :
    (q : List Request) (r : Request) (table : KeyTable)
    → table_after (bodies (q ++ r ∷ [])) table
      ≡ table_after (r.body ∷ []) (table_after (bodies q) table)
bodies-push q r table =
    ap (λ es. table_after es table) (bodies-append q r)
    ∙ table_after-append (bodies q) (r.body ∷ []) table

push-Pure :
    (a : ActorName) (r : Request) (c : Control)
    → IsPlain r.body
    → Pure a c
    → Pure a (record c { queue = c.queue ++ r ∷ [] })
push-Pure ActorName.packet_handler r c h v = v
push-Pure ActorName.handshaker r c h v = v
push-Pure ActorName.peer_manager r c h v =
    (v.0, All-append (λ r. IsPlain r.body) c.queue (r ∷ []) v.1 (h, tt))

push-view :
    (a : ActorName) (r : Request) (cs : Controls) (keys : KeyTable)
    → IsPlain r.body
    → view (push a r cs) keys ≡ view cs keys
push-view ActorName.packet_handler r cs keys h = ap (table_after (unsent cs.peer_manager.phase)) (
    bodies-push cs.packet_handler.queue r keys
    ∙ table_after-IsPlain (r.body ∷ []) (table_after (bodies cs.packet_handler.queue) keys) (h, tt))
push-view ActorName.handshaker r cs keys h = refl
push-view ActorName.peer_manager r cs keys h = refl

phase-Pure :
    (a : ActorName) (phase : Phase) (c : Control)
    → unsent phase ≡ unsent c.phase
    → Pure a c
    → Pure a (record c { phase = phase })
phase-Pure ActorName.packet_handler phase c same v = subst (All IsPlain) (sym same) v
phase-Pure ActorName.handshaker phase c same v = subst (All IsPlain) (sym same) v
phase-Pure ActorName.peer_manager phase c same v = (subst (All PlainOrUpdate) (sym same) v.0, v.1)

phase-view :
    (a : ActorName) (phase : Phase) (cs : Controls) (keys : KeyTable)
    → unsent phase ≡ unsent (get a cs).phase
    → view (set_phase a phase cs) keys ≡ view cs keys
phase-view ActorName.packet_handler phase cs keys same = refl
phase-view ActorName.handshaker phase cs keys same = refl
phase-view ActorName.peer_manager phase cs keys same =
    ap (λ out. table_after out (table_after (bodies cs.packet_handler.queue) keys)) same

drop-Pure :
    (a : ActorName) (e : Effect) (phase : Phase) (c : Control)
    → unsent c.phase ≡ e ∷ unsent phase
    → Pure a c
    → Pure a (record c { phase = phase })
drop-Pure ActorName.packet_handler e phase c at v = (subst (All IsPlain) at v).1
drop-Pure ActorName.handshaker e phase c at v = (subst (All IsPlain) at v).1
drop-Pure ActorName.peer_manager e phase c at v = ((subst (All PlainOrUpdate) at v.0).1, v.1)

table_after-skip :
    (e : Effect) (es : List Effect) (table : KeyTable)
    → IsPlain e
    → table_after (e ∷ es) table ≡ table_after es table
table_after-skip e es table h =
    table_after-append (e ∷ []) es table
    ∙ ap (table_after es) (table_after-IsPlain (e ∷ []) table (h, tt))

drop-view :
    (a : ActorName) (e : Effect) (phase : Phase) (cs : Controls) (keys : KeyTable)
    → unsent (get a cs).phase ≡ e ∷ unsent phase
    → IsPlain e
    → view (set_phase a phase cs) keys ≡ view cs keys
drop-view ActorName.packet_handler e phase cs keys at h = refl
drop-view ActorName.handshaker e phase cs keys at h = refl
drop-view ActorName.peer_manager e phase cs keys at h =
    let table = table_after (bodies cs.packet_handler.queue) keys in
    sym (ap (λ out. table_after out table) at ∙ table_after-skip e (unsent phase) table h)

module _ {Seen : Type 0} (ext : Outside Seen) where
  post_to-Tidy :
      (t reply_to : Option ActorName) (e : Effect) (n : Node Seen)
      → IsPlain e
      → Tidy n
      → Tidy (post_to ext t reply_to e n)
  post_to-Tidy none reply_to e n h v = record {
    pure = v.pure;
    tasks = v.tasks;
    timed = v.timed;
    follows = v.follows;
  }
  post_to-Tidy (some a) reply_to e n h v =
      let r : Request = record { body = e; reply_to = reply_to } in
      let c : Control = record (get a n.controls) { queue = (get a n.controls).queue ++ r ∷ [] } in
      record {
        pure = put_lem Pure a c n.controls (push-Pure a r (get a n.controls) h (v.pure a)) v.pure;
        tasks = v.tasks;
        timed = v.timed;
        follows =
            subst (λ t. Follows t n.states.peer_manager.known)
              (sym (push-view a r n.controls n.states.packet_handler.keys h)) v.follows;
      }

  pub post-Tidy :
      (reply_to : Option ActorName) (e : Effect) (n : Node Seen)
      → IsPlain e
      → Tidy n
      → Tidy (post ext reply_to e n)
  post-Tidy reply_to e n = post_to-Tidy (target e) reply_to e n

  -- The messages that are still to be sent stay.
  pub to_phase-Tidy :
      (a : ActorName) (phase : Phase) (n : Node Seen)
      → unsent phase ≡ unsent (get a n.controls).phase
      → Tidy n
      → Tidy (to_phase ext a phase n)
  to_phase-Tidy a phase n same v = record {
    pure =
        put_lem Pure a (record (get a n.controls) { phase = phase }) n.controls
          (phase-Pure a phase (get a n.controls) same (v.pure a)) v.pure;
    tasks = v.tasks;
    timed = v.timed;
    follows =
        subst (λ t. Follows t n.states.peer_manager.known)
          (sym (phase-view a phase n.controls n.states.packet_handler.keys same)) v.follows;
  }

  -- A plain message less is still to be sent.
  pub drop-Tidy :
      (a : ActorName) (e : Effect) (phase : Phase) (n : Node Seen)
      → unsent (get a n.controls).phase ≡ e ∷ unsent phase
      → IsPlain e
      → Tidy n
      → Tidy (to_phase ext a phase n)
  drop-Tidy a e phase n at h v = record {
    pure =
        put_lem Pure a (record (get a n.controls) { phase = phase }) n.controls
          (drop-Pure a e phase (get a n.controls) at (v.pure a)) v.pure;
    tasks = v.tasks;
    timed = v.timed;
    follows =
        subst (λ t. Follows t n.states.peer_manager.known)
          (sym (drop-view a e phase n.controls n.states.packet_handler.keys at h)) v.follows;
  }
