-- ===== src/Node/Begun.antt =====
-- registry.rs: every step of a node leaves it tidy.
use gwyh.Base.{
  ◌≡◌, refl, zero, suc, ℕ, Option, none, some, List, [], ◌∷◌, inl, inr, OnSome, All, subst, ap, sym,
  ◌∙◌, Option-cases,
}
use gwyh.External.{Timestamp}
use gwyh.Actor.{
  Effect, Delivery, cast, PacketHandlerMessage, HandshakerMessage, PeerManagerRequest,
  to_packet_handler, to_handshaker, to_peer_manager,
}
use gwyh.PeerManager.Timers.{IsTimed}
use gwyh.PeerManager.KeyTables.{table_after, Follows, table_after-append}
use gwyh.Waiting.{IsPlain}
use gwyh.Node.Control.{ActorName, Request, Phase, idle, sending, waiting, Control, get, target}
use gwyh.Node.State.{
  Node, Outside, perform, packets_call, handshakes_call, peers_call, begin_with, take_out, run_task,
}
use gwyh.Node.Run.{Choice, begin, advance, step}
use gwyh.Node.Waiters.{put_lem}
use gwyh.Node.Invariant.{Inv, Addressed, unsent}
use gwyh.Node.Plain.{
  FiresPlain, DecodesPublic, PlainOrUpdate, packets_call-Plain, handshakes_call-Plain,
  peers_call-Plain,
}
use gwyh.Node.Tidy.{Pure, bodies, view, Tidy, post-Tidy}
use gwyh.Node.Sent.{advance_from-Tidy}

IsPlain-cast :
    (d : Delivery) (m : PeerManagerRequest)
    → IsPlain (to_peer_manager d m)
    → IsPlain (to_peer_manager cast m)
IsPlain-cast d (PeerManagerRequest.request _ body) h = h
IsPlain-cast d m h = tt

module _ {Seen : Type 0} (ext : Outside Seen) where
  begin_packets-Tidy :
      (now : Timestamp) (d : Delivery) (m : PacketHandlerMessage) (reply_to : Option ActorName)
      (rest : List Request) (n : Node Seen)
      → n.controls.packet_handler ≡ record {
        queue = record { body = to_packet_handler d m; reply_to = reply_to } ∷ rest;
        phase = idle;
      }
      → DecodesPublic ext.crypto
      → Tidy n
      → OnSome Tidy (
          begin_with ext now ActorName.packet_handler idle
            (record { body = to_packet_handler d m; reply_to = reply_to } ∷ rest)
            n)
  unfolding begin_with perform
  begin_packets-Tidy now d m reply_to rest n at decodes v =
      let e = to_packet_handler d m in
      let r : Request = record { body = e; reply_to = reply_to } in
      let st = n.states in
      let (plain, keys, ticks) =
        packets_call-Plain ext now d m st.packet_handler decodes v.timed.0 in
      let result = packets_call ext now m st.packet_handler in
      let c : Control = record { queue = rest; phase = sending r result.0 } in
      let same : view n.controls st.packet_handler.keys
          ≡ table_after (unsent n.controls.peer_manager.phase)
              (table_after (bodies rest) result.1.keys) =
        ap
          (λ c.
            table_after (unsent n.controls.peer_manager.phase)
              (table_after (bodies c.queue) st.packet_handler.keys))
          at
        ∙ ap (table_after (unsent n.controls.peer_manager.phase)) (
            table_after-append (e ∷ []) (bodies rest) st.packet_handler.keys
            ∙ ap (table_after (bodies rest)) (sym keys)) in
      record {
        pure = put_lem Pure ActorName.packet_handler c n.controls plain v.pure;
        tasks = v.tasks;
        timed = (ticks, v.timed.1, v.timed.2);
        follows = subst (λ t. Follows t st.peer_manager.known) same v.follows;
      }

  begin_handshakes-Tidy :
      (now : Timestamp) (d : Delivery) (m : HandshakerMessage) (reply_to : Option ActorName)
      (rest : List Request) (n : Node Seen)
      → Tidy n
      → OnSome Tidy (
          begin_with ext now ActorName.handshaker idle
            (record { body = to_handshaker d m; reply_to = reply_to } ∷ rest)
            n)
  unfolding begin_with perform
  begin_handshakes-Tidy now d m reply_to rest n v =
      let r : Request = record { body = to_handshaker d m; reply_to = reply_to } in
      let plain = handshakes_call-Plain ext now m n.states.handshaker v.timed.1 in
      elim (Option-cases (handshakes_call ext now m n.states.handshaker)) [
        | inl e ↦ rw (begin_with, perform, e) tt
        | inr ((out, s'), e) ↦
            let p =
              subst (OnSome (λ r. All IsPlain r.0 × FiresPlain r.1.bootstrap_timer)) e plain in
            rw (begin_with, perform, e)
              (record {
                pure =
                    put_lem Pure ActorName.handshaker
                      (record { queue = rest; phase = sending r out }) n.controls p.0 v.pure;
                tasks = v.tasks;
                timed = (v.timed.0, p.1, v.timed.2);
                follows = v.follows;
              })
      ]

  begin_peers-Tidy :
      (now : Timestamp) (d : Delivery) (m : PeerManagerRequest) (reply_to : Option ActorName)
      (rest : List Request) (n : Node Seen)
      → n.controls.peer_manager ≡ record {
        queue = record { body = to_peer_manager d m; reply_to = reply_to } ∷ rest;
        phase = idle;
      }
      → Inv n
      → Tidy n
      → OnSome Tidy (
          begin_with ext now ActorName.peer_manager idle
            (record { body = to_peer_manager d m; reply_to = reply_to } ∷ rest)
            n)
  unfolding begin_with perform
  begin_peers-Tidy now d m reply_to rest n at inv v =
      let r : Request = record { body = to_peer_manager d m; reply_to = reply_to } in
      let table =
        table_after (bodies n.controls.packet_handler.queue) n.states.packet_handler.keys in
      let mine = subst (Pure ActorName.peer_manager) at (v.pure ActorName.peer_manager) in
      let before : Follows table n.states.peer_manager.known =
        subst (λ c. Follows (table_after (unsent c.phase) table) n.states.peer_manager.known) at
          v.follows in
      let result =
        peers_call-Plain ext m n.states.peer_manager table inv.sound.0 (IsPlain-cast d m mine.1.0)
          v.timed.2 before in
      elim (Option-cases (peers_call ext m n.states.peer_manager)) [
        | inl e ↦ rw (begin_with, perform, e) tt
        | inr ((out, m'), e) ↦
            let p =
              subst
                (OnSome (λ r.
                  All PlainOrUpdate r.0 × IsTimed r.1 × Follows (table_after r.0 table) r.1.known))
                e result in
            rw (begin_with, perform, e)
              (record {
                pure =
                    put_lem Pure ActorName.peer_manager
                      (record { queue = rest; phase = sending r out }) n.controls (p.0, mine.1.1)
                      v.pure;
                tasks = v.tasks;
                timed = (v.timed.0, v.timed.1, p.1);
                follows = p.2;
              })
      ]

  begin_idle-Tidy :
      (now : Timestamp) (a : ActorName) (e : Effect) (reply_to : Option ActorName)
      (rest : List Request) (n : Node Seen)
      → target e ≡ some a
      → get a n.controls
        ≡ record { queue = record { body = e; reply_to = reply_to } ∷ rest; phase = idle }
      → DecodesPublic ext.crypto
      → Inv n
      → Tidy n
      → OnSome Tidy (begin_with ext now a idle (record { body = e; reply_to = reply_to } ∷ rest) n)
  begin_idle-Tidy now ActorName.packet_handler (to_packet_handler d m) reply_to rest n t at decodes
        inv v =
      begin_packets-Tidy now d m reply_to rest n at decodes v
  begin_idle-Tidy now ActorName.handshaker (to_handshaker d m) reply_to rest n t at decodes inv v =
      begin_handshakes-Tidy now d m reply_to rest n v
  begin_idle-Tidy now ActorName.peer_manager (to_peer_manager d m) reply_to rest n t at decodes inv
        v =
      begin_peers-Tidy now d m reply_to rest n at inv v
  begin_idle-Tidy now a e reply_to rest n t at decodes inv v = absurd (cc t)

  begin_with-Tidy :
      (now : Timestamp) (a : ActorName) (phase : Phase) (queue : List Request) (n : Node Seen)
      → get a n.controls ≡ record { queue = queue; phase = phase }
      → DecodesPublic ext.crypto
      → Inv n
      → Tidy n
      → OnSome Tidy (begin_with ext now a phase queue n)
  unfolding begin_with
  begin_with-Tidy now a idle [] n at decodes inv v = tt
  begin_with-Tidy now a (sending r out) queue n at decodes inv v = tt
  begin_with-Tidy now a (waiting r out) queue n at decodes inv v = tt
  begin_with-Tidy now a idle (r ∷ rest) n at decodes inv v =
      begin_idle-Tidy now a r.body r.reply_to rest n (subst (Addressed a) at (inv.addressed a)).0 at
        decodes inv v

  take_out-Plain :
      (k : ℕ) (es : List Effect)
      → All IsPlain es
      → OnSome (λ p. IsPlain p.0 × All IsPlain p.1) (take_out ext k es)
  take_out-Plain k [] h = tt
  take_out-Plain zero (e ∷ es) h = h
  take_out-Plain (suc k) (e ∷ es) h = elim (Option-cases (take_out ext k es)) [
    | inl eq ↦ rw eq tt
    | inr ((x, xs), eq) ↦
        let p = subst (OnSome (λ p. IsPlain p.0 × All IsPlain p.1)) eq (take_out-Plain k es h.1) in
        rw eq (p.0, (h.0, p.1))
  ]

  run_task-Tidy : (k : ℕ) (n : Node Seen) → Tidy n → OnSome Tidy (run_task ext k n)
  unfolding run_task
  run_task-Tidy k n v = elim (Option-cases (take_out ext k n.tasks)) [
    | inl e ↦ rw (run_task, e) tt
    | inr ((e, tasks), eq) ↦
        let p =
          subst (OnSome (λ p. IsPlain p.0 × All IsPlain p.1)) eq
            (take_out-Plain k n.tasks v.tasks) in
        rw (run_task, eq)
          (post-Tidy ext none e (record n { tasks = tasks }) p.0
            (record { pure = v.pure; tasks = p.1; timed = v.timed; follows = v.follows }))
  ]

  pub step-Tidy :
      (c : Choice) (n : Node Seen)
      → DecodesPublic ext.crypto
      → Inv n
      → Tidy n
      → OnSome Tidy (step ext c n)
  unfolding step
  step-Tidy (begin now a) n decodes inv v =
      begin_with-Tidy now a (get a n.controls).phase (get a n.controls).queue n refl decodes inv v
  step-Tidy (advance a) n decodes inv v = advance_from-Tidy ext a (get a n.controls).phase n refl v
  step-Tidy (Choice.task k) n decodes inv v = run_task-Tidy k n v
