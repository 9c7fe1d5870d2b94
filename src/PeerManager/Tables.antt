-- ===== src/PeerManager/Tables.antt =====
-- peer_manager.rs: the key table of the packet handler follows the known peers.
use gwyh.Base.{
  ◌≡◌, ◌≢◌, ◌==◌, refl, List, [], ◌∷◌, ℕ_discrete, ltb, is_some, length, OnSome, arith, All,
  Bool-cases, Option-cases, inl, inr, subst, sym, ap, ◌∙◌,
}
use gwyh.Base.Dict.{Dict, lookup, insert, lookup-insert, contains_key, Distinct, insert-Distinct}
use gwyh.Base.Dict
use gwyh.Base.Set
use gwyh.External.{Uuid, Entropy}
use gwyh.Peer.{Peer}
use gwyh.Message.{PeerRequest, PeerStatus, PeerState, up, down}
use gwyh.Actor.{
  PeerManagerRequest, request, cast, call, to_packet_handler, to_peer_manager, keys_updated,
  broadcast_peer_status, emit, draw,
}
use gwyh.PeerManager.State.{
  PeerManager, reset_heartbeat_watchdog, stop_heartbeat_watchdog, start_heartbeats,
  start_reassign_timer,
}
use gwyh.PeerManager.Choose.{Chooser, choose_peers}
use gwyh.PeerManager.Subscriptions.{
  keys_of, update_keys, update_subscribers, merge_peer, add_unknown, end_subscription,
  subscription_started, add_peer, remove_peer, update_peers, send_peerlist, send_heartbeat,
  start_subscription, start_added, end_removed, trigger_reassignment, shutdown,
}
use gwyh.PeerManager.Handle.{
  notify, forward_status, apply_status, handle_request, reassign_peers, handle_message,
}
use gwyh.PeerManager.Invariant.{Inv}
use gwyh.PeerManager.Keys.{lookup-keys_of}
use gwyh.PeerManager.Preserve.{handle_message-Inv}
use gwyh.Waiting.{IsPublic, IsPlain, AllOut, peer_level}
use gwyh.Waiting.Peers.{handle_message-Keeps}
use gwyh.PeerManager.KeyTables.{
  KeyTable, table_after, Follows, table_after-append, table_after-IsPlain, add_unknown-Follows,
}

-- What the packet handler will have once it has handled what was sent.
abbrev sent_table : PeerManager → KeyTable → KeyTable
sent_table m table = table_after m.io.out table

update_keys-table :
    (m : PeerManager) (table : KeyTable) → sent_table (update_keys m) table ≡ keys_of m.known
unfolding update_keys emit
update_keys-table m table =
    table_after-append m.io.out (to_packet_handler call (keys_updated (keys_of m.known)) ∷ []) table

module _ (ent : Entropy) where
  timer-same :
      (m : PeerManager)
      → ((start_reassign_timer ent m).io.out ≡ m.io.out)
        × ((start_reassign_timer ent m).known ≡ m.known)
  unfolding start_reassign_timer draw
  timer-same m = elim (Bool-cases (ltb (length m.subscribed_to) m.nodeinfo.peer_subscriptions)) [
    | inl e ↦ rw (e, start_reassign_timer) (refl, refl)
    | inr e ↦ rw (e, start_reassign_timer) (refl, refl)
  ]

  timed-table :
      (m : PeerManager) (table : KeyTable)
      → sent_table (start_reassign_timer ent (update_keys m)) table
        ≡ keys_of (start_reassign_timer ent (update_keys m)).known
  unfolding update_keys
  timed-table m table =
      let (out, known) = timer-same (update_keys m) in
      ap (λ out. table_after out table) out ∙ update_keys-table m table ∙ sym (ap keys_of known)

  status-table :
      (state : PeerState) (status : PeerStatus) (m : PeerManager) (table : KeyTable)
      → sent_table (apply_status ent state status m) table
        ≡ keys_of (apply_status ent state status m).known
  unfolding apply_status add_peer remove_peer
  status-table up status m table =
      timed-table (record m { known = merge_peer status.peer m.known }) table
  status-table down status m table =
      let stopped = stop_heartbeat_watchdog status.peer.id (update_subscribers m) in
      timed-table
        (record stopped {
          subscribed_to = Set.remove ℕ_discrete status.peer.id stopped.subscribed_to;
          subscribers = Set.remove ℕ_discrete status.peer.id stopped.subscribers;
          known = Dict.remove ℕ_discrete status.peer.id stopped.known;
        })
        table

  forward-table :
      (from_id : Uuid) (status : PeerStatus) (m : PeerManager) (table : KeyTable)
      → sent_table m table ≡ keys_of m.known
      → sent_table (forward_status from_id status m) table
        ≡ keys_of (forward_status from_id status m).known
  unfolding forward_status emit
  forward-table from_id status m table v = elim (Bool-cases (from_id == m.nodeinfo.id)) [
    | inl e ↦
        rw (e, forward_status)
          (table_after-append m.io.out (to_packet_handler cast (broadcast_peer_status status) ∷ [])
              table
            ∙ v)
    | inr e ↦ rw (e, forward_status) v
  ]

  peers-Follows :
      (peers : List Peer) (m : PeerManager) (table : KeyTable)
      → All IsPublic peers
      → Follows table m.known
      → Follows table (update_peers ent peers m).known
  unfolding update_peers
  peers-Follows peers m table h v =
      let rest = add_unknown-Follows peers m.known table h v in
      elim (Bool-cases (ltb 0 (add_unknown peers m.known).0)) [
        | inl e ↦
            rw (e, update_peers)
              (subst (Follows table)
                (sym (timer-same (record m { known = (add_unknown peers m.known).1 })).1) rest)
        | inr e ↦ rw (e, update_peers) rest
      ]

reset-known : (id : Uuid) (m : PeerManager) → (reset_heartbeat_watchdog id m).known ≡ m.known
unfolding reset_heartbeat_watchdog stop_heartbeat_watchdog
reset-known id m = elim (Bool-cases (Set.contains ℕ_discrete id m.subscribed_to)) [
  | inl e ↦ elim (Option-cases (lookup ℕ_discrete id m.known)) [
    | inl absent ↦ rw (e, absent, reset_heartbeat_watchdog) refl
    | inr (p, found) ↦ rw (e, found, reset_heartbeat_watchdog) refl
  ]
  | inr e ↦ rw (e, reset_heartbeat_watchdog) refl
]

notify-known : (m : PeerManager) → (notify m).known ≡ m.known
unfolding notify
notify-known m = elim (Option-cases m.notify_ready) [
  | inl e ↦ rw (e, notify) refl
  | inr (n, e) ↦ rw (e, notify) refl
]

heartbeats-known : (m : PeerManager) → (start_heartbeats m).known ≡ m.known
unfolding start_heartbeats
heartbeats-known m = elim (Bool-cases (is_some m.heartbeat)) [
  | inl e ↦ rw (e, start_heartbeats) refl
  | inr e ↦ rw (e, start_heartbeats) refl
]

removed-known :
    (ent : Entropy) (ids : List Uuid) (m : PeerManager) → (end_removed ent ids m).known ≡ m.known
unfolding end_removed stop_heartbeat_watchdog
removed-known ent [] m = refl
removed-known ent (id ∷ ids) m = removed-known ent ids _

module _ (ent : Entropy) (ch : Chooser) (table : KeyTable) where
  -- All but the reports on peers send no key table.
  plain-Follows :
      (message : PeerManagerRequest) (m : PeerManager)
      → ((from_id : Uuid) (status : PeerStatus)
          → message ≢ request from_id (PeerRequest.peer_status status))
      → AllOut IsPlain m.io
      → OnSome (λ r. Follows table r.0.known) (handle_message ent ch message m)
      → OnSome (λ r. Follows (sent_table r.0 table) r.0.known) (handle_message ent ch message m)
  plain-Follows message m other plain v =
      let sent =
        handle_message-Keeps ent ch IsPlain (peer_level message) (λ e h p. p) message
          (λ from_id status e. absurd (other from_id status e)) (omega arith) m plain in
      elim (Option-cases (handle_message ent ch message m)) [
        | inl e ↦ rw e tt
        | inr (r, e) ↦ rw e (
            subst (λ t. Follows t r.0.known)
              (sym (
                table_after-IsPlain r.0.io.out table
                  (subst (OnSome (λ r. AllOut IsPlain r.0.io)) e sent)))
              (subst (OnSome (λ r. Follows table r.0.known)) e v))
      ]

  status-Follows :
      (from_id : Uuid) (status : PeerStatus) (m : PeerManager)
      → Inv m
      → OnSome
          (λ r. Follows (sent_table r.0 table) r.0.known)
          (handle_message ent ch (request from_id (PeerRequest.peer_status status)) m)
  unfolding handle_message handle_request
  status-Follows from_id status m v =
      let m' = handle_request ent from_id (PeerRequest.peer_status status) m in
      let inv : Inv m' =
        handle_message-Inv ent ch (request from_id (PeerRequest.peer_status status)) m v in
      let same =
        forward-table ent from_id status (apply_status ent status.state status m) table
          (status-table ent status.state status m table) in
      λ id. ap (lookup ℕ_discrete id) same ∙ lookup-keys_of id m'.known inv.distinct inv.keyed

  -- In its invariant, with nothing but plain messages sent and a message whose peers, if it lists
  -- any, hold no key pair: if the key table has an entry for exactly the known peers with both keys,
  -- then so it is for the table after the updates that are sent and the peers known after the
  -- message, unless the peer manager panics.
  pub handle_message-Follows :
      (message : PeerManagerRequest) (m : PeerManager)
      → Inv m
      → IsPlain (to_peer_manager cast message)
      → AllOut IsPlain m.io
      → Follows table m.known
      → OnSome
          (λ r. Follows (table_after r.0.io.out table) r.0.known)
          (handle_message ent ch message m)
  unfolding handle_message reassign_peers trigger_reassignment shutdown send_heartbeat
      handle_request subscription_started end_subscription send_peerlist start_subscription
      update_subscribers
  handle_message-Follows (PeerManagerRequest.request from_id (PeerRequest.peer_status status)) m v
        public plain f =
      status-Follows from_id status m v
  handle_message-Follows (PeerManagerRequest.request from_id (PeerRequest.peers list)) m v public
        plain f =
      plain-Follows (request from_id (PeerRequest.peers list)) m (λ i s e. cc e) plain
        (peers-Follows ent list m table public f)
  handle_message-Follows PeerManagerRequest.reassign m v public plain f =
      plain-Follows PeerManagerRequest.reassign m (λ i s e. cc e) plain
        (elim (Option-cases (choose_peers ch m.nodeinfo m.known)) [
          | inl e ↦ rw (e, handle_message, reassign_peers) tt
          | inr (chosen, e) ↦
              rw (e, handle_message, reassign_peers)
                (let added = Set.difference ℕ_discrete chosen m.subscribed_to in
                  subst (Follows table)
                    (sym (
                      removed-known ent (Set.difference ℕ_discrete m.subscribed_to chosen)
                        (record m { io = start_added ent m.known added m.io })))
                    f)
        ])
  handle_message-Follows (PeerManagerRequest.request from_id PeerRequest.subscription_started) m v
        public plain f =
      let entered : PeerManager = record m {
        subscribed_to = Set.insert ℕ_discrete from_id m.subscribed_to;
      } in
      plain-Follows (request from_id PeerRequest.subscription_started) m (λ i s e. cc e) plain
        (subst (Follows table)
          (sym
            (notify-known (reset_heartbeat_watchdog from_id entered) ∙ reset-known from_id entered))
          f)
  handle_message-Follows (PeerManagerRequest.request from_id PeerRequest.heartbeat) m v public plain
        f =
      plain-Follows (request from_id PeerRequest.heartbeat) m (λ i s e. cc e) plain
        (subst (Follows table) (sym (reset-known from_id m)) f)
  handle_message-Follows (PeerManagerRequest.request from_id PeerRequest.start_subscription) m v
        public plain f =
      plain-Follows (request from_id PeerRequest.start_subscription) m (λ i s e. cc e) plain
        (subst (Follows table) (sym (heartbeats-known _)) f)
  handle_message-Follows PeerManagerRequest.start_heartbeats m v public plain f =
      plain-Follows PeerManagerRequest.start_heartbeats m (λ i s e. cc e) plain
        (subst (Follows table) (sym (heartbeats-known m)) f)
  handle_message-Follows message m v public plain f =
      plain-Follows message m (λ i s e. cc e) plain f
