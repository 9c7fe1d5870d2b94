-- ===== src/Node/Sent.antt =====
-- registry.rs: what a server sends leaves the node tidy.
use gwyh.Base.{
  OnSome-if, ◌≡◌, refl, Option, none, some, List, [], ◌∷◌, ◌++◌, ◌⊎◌, inl, inr, OnSome, All,
  All-append, subst, ap, sym, ◌∙◌,
}
use gwyh.Actor.{Effect, Delivery, cast, call, task, to_packet_handler, keys_updated}
use gwyh.PeerManager.KeyTables.{KeyTable, table_after, Follows}
use gwyh.Waiting.{IsPlain}
use gwyh.Node.Control.{
  ActorName, Request, Phase, idle, sending, waiting, Control, get, target, delivery,
}
use gwyh.Node.State.{is_awaited, Node, Outside, post, send_by, resumed, answer, advance_from}
use gwyh.Node.Waiters.{everywhere}
use gwyh.Node.Invariant.{unsent, post-phase}
use gwyh.Node.Steps.{resumed-unsent, answer-sending}
use gwyh.Node.Plain.{IsUpdate, PlainOrUpdate}
use gwyh.Node.Tidy.{Pure, bodies, bodies-push, view, Tidy, post-Tidy, to_phase-Tidy, drop-Tidy}

Pure-head :
    (a : ActorName) (e : Effect) (rest : List Effect) (c : Control)
    → unsent c.phase ≡ e ∷ rest
    → Pure a c
    → IsPlain e ⊎ ((a ≡ ActorName.peer_manager) × IsUpdate e)
Pure-head ActorName.packet_handler e rest c at v = inl (subst (All IsPlain) at v).0
Pure-head ActorName.handshaker e rest c at v = inl (subst (All IsPlain) at v).0
Pure-head ActorName.peer_manager e rest c at v = elim (subst (All PlainOrUpdate) at v.0).0 [
  | inl p ↦ inl p
  | inr u ↦ inr (refl, u)
]

module _ {Seen : Type 0} (ext : Outside Seen) where
  send_plain-Tidy :
      (d : Delivery) (a : ActorName) (r : Request) (e : Effect) (rest : List Effect) (n : Node Seen)
      → (get a n.controls).phase ≡ sending r (e ∷ rest)
      → IsPlain e
      → Tidy n
      → Tidy (send_by ext d a r e rest n)
  send_plain-Tidy cast a r e rest n at h v =
      drop-Tidy ext a e (sending r rest) (post ext none e n)
        (ap unsent (post-phase ext (target e) none e n a ∙ at)) h (post-Tidy ext none e n h v)
  send_plain-Tidy call a r e rest n at h v =
      drop-Tidy ext a e (waiting r rest) (post ext (some a) e n)
        (ap unsent (post-phase ext (target e) (some a) e n a ∙ at)) h
        (post-Tidy ext (some a) e n h v)
  send_plain-Tidy (task k) a r e rest n at h v =
      drop-Tidy ext a e (sending r rest) (record n { tasks = n.tasks ++ e ∷ [] }) (ap unsent at) h
        (record {
          pure = v.pure;
          tasks = All-append IsPlain n.tasks (e ∷ []) v.tasks (h, tt);
          timed = v.timed;
          follows = v.follows;
        })

  -- The peer manager sends a key table.
  send_update-Tidy :
      (keys : KeyTable) (r : Request) (rest : List Effect) (n : Node Seen)
      → n.controls.peer_manager.phase
        ≡ sending r (to_packet_handler call (keys_updated keys) ∷ rest)
      → Tidy n
      → Tidy (
          send_by ext call ActorName.peer_manager r
            (to_packet_handler call (keys_updated keys))
            rest
            n)
  send_update-Tidy keys r rest n at v =
      let e = to_packet_handler call (keys_updated keys) in
      let mine = v.pure ActorName.peer_manager in
      let n' = send_by ext call ActorName.peer_manager r e rest n in
      let q = n.controls.packet_handler.queue in
      let now : view n'.controls n.states.packet_handler.keys
          ≡ view n.controls n.states.packet_handler.keys =
        ap (table_after rest) (
          bodies-push q (record { body = e; reply_to = some ActorName.peer_manager })
            n.states.packet_handler.keys)
        ∙ sym (
            ap (λ p. table_after (unsent p) (table_after (bodies q) n.states.packet_handler.keys))
              at) in
      record {
        pure =
            everywhere Pure n'.controls (v.pure ActorName.packet_handler)
              (v.pure ActorName.handshaker)
              ((subst (λ p. All PlainOrUpdate (unsent p)) at mine.0).1, mine.1);
        tasks = v.tasks;
        timed = v.timed;
        follows = subst (λ t. Follows t n.states.peer_manager.known) (sym now) v.follows;
      }

  send_update_by-Tidy :
      (a : ActorName) (r : Request) (e : Effect) (rest : List Effect) (n : Node Seen)
      → IsUpdate e
      → a ≡ ActorName.peer_manager
      → (get a n.controls).phase ≡ sending r (e ∷ rest)
      → Tidy n
      → Tidy (send_by ext (delivery e) a r e rest n)
  send_update_by-Tidy ActorName.peer_manager r (to_packet_handler call (keys_updated keys)) rest n u
        same at v =
      send_update-Tidy keys r rest n at v
  send_update_by-Tidy ActorName.peer_manager r e rest n u same at v = absurd u
  send_update_by-Tidy ActorName.packet_handler r e rest n u same at v = absurd (cc same)
  send_update_by-Tidy ActorName.handshaker r e rest n u same at v = absurd (cc same)

  send_by-Tidy :
      (a : ActorName) (r : Request) (e : Effect) (rest : List Effect) (n : Node Seen)
      → (get a n.controls).phase ≡ sending r (e ∷ rest)
      → Tidy n
      → Tidy (send_by ext (delivery e) a r e rest n)
  send_by-Tidy a r e rest n at v =
      elim (Pure-head a e rest (get a n.controls) (ap unsent at) (v.pure a)) [
        | inl h ↦ send_plain-Tidy (delivery e) a r e rest n at h v
        | inr (same, u) ↦ send_update_by-Tidy a r e rest n u same at v
      ]

  answer-Tidy :
      (reply_to : Option ActorName) (n : Node Seen) → Tidy n → Tidy (answer ext reply_to n)
  answer-Tidy none n v = v
  answer-Tidy (some a) n v =
      to_phase-Tidy ext a (resumed ext (get a n.controls).phase) n
        (resumed-unsent ext (get a n.controls).phase) v

  pub advance_from-Tidy :
      (a : ActorName) (phase : Phase) (n : Node Seen)
      → (get a n.controls).phase ≡ phase
      → Tidy n
      → OnSome Tidy (advance_from ext a phase n)
  unfolding advance_from
  advance_from-Tidy a idle n at v = tt
  advance_from-Tidy a (waiting r out) n at v = tt
  advance_from-Tidy a (sending r []) n at v =
      to_phase-Tidy ext a idle (answer ext r.reply_to n)
        (sym (ap unsent (answer-sending ext r.reply_to n a r [] at))) (answer-Tidy r.reply_to n v)
  advance_from-Tidy a (sending r (e ∷ out)) n at v =
      OnSome-if Tidy (is_awaited ext e) (send_by-Tidy a r e out n at v)
