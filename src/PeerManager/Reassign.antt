-- ===== src/PeerManager/Reassign.antt =====
-- peer_manager.rs: what a reassignment does to the subscriptions, and what it asks of the peers.
use gwyh.Base.{
  ◌≡◌, refl, sym, ap, ◌∙◌, not, ◌&&◌, Option, none, some, List, [], ◌∷◌, ◌++◌, map, ℕ_discrete,
  arith, filter_map, append_assoc, append-nil, if◌then◌else◌, Option-cases, Bool-cases, inl, inr,
}
use gwyh.Base.Dict.{Dict, lookup, contains_key, lookup-remove}
use gwyh.Base.Set
use gwyh.Base.Set.{contains-remove, contains-filter, contains-difference}
use gwyh.External.{Uuid, SocketAddr, Entropy}
use gwyh.Peer.{Peer, is_handshaken}
use gwyh.Message.{Body, PeerRequest}
use gwyh.Actor.{
  Effect, AndThen, Io, to_packet_handler, to_handshaker, PacketHandlerMessage, HandshakerMessage,
}
use gwyh.PeerManager.State.{PeerManager}
use gwyh.PeerManager.Choose.{Chooser, choose_peers}
use gwyh.PeerManager.Subscriptions.{start_one, start_added, end_removed, trigger_reassignment}
use gwyh.PeerManager.Handle.{reassign_peers}

-- The requests among the messages that were sent, with their targets and without message ids.
abbrev request_body : Uuid → Body → Option (Uuid × PeerRequest)
request_body to (Body.peer_request r) = some (to, r)
request_body to _ = none

abbrev request_message : PacketHandlerMessage → Option (Uuid × PeerRequest)
request_message (PacketHandlerMessage.send_message to message) = request_body to message.body
request_message _ = none

abbrev pub request_sent : Effect → Option (Uuid × PeerRequest)
request_sent (to_packet_handler _ message) = request_message message
request_sent _ = none

unfoldable pub requests : List Effect → List (Uuid × PeerRequest)
unfolding filter_map
requests out = filter_map request_sent out

-- The handshakes that were asked for.
abbrev hello_message : HandshakerMessage → Option (SocketAddr × Option AndThen)
hello_message (HandshakerMessage.send_hello addr and_then) = some (addr, and_then)
hello_message _ = none

abbrev pub hello_asked : Effect → Option (SocketAddr × Option AndThen)
hello_asked (to_handshaker _ message) = hello_message message
hello_asked _ = none

unfoldable pub hellos : List Effect → List (SocketAddr × Option AndThen)
unfolding filter_map
hellos out = filter_map hello_asked out

pub filter_map-append {ℓ κ} :
    {A : Type ℓ} {B : Type κ} (f : A → Option B) (xs ys : List A)
    → filter_map f (xs ++ ys) ≡ filter_map f xs ++ filter_map f ys
unfolding filter_map
filter_map-append f [] ys = refl
filter_map-append f (x ∷ xs) ys = elim (Option-cases (f x)) [
  | inl e ↦ rw (e, filter_map) (filter_map-append f xs ys)
  | inr (b, e) ↦ rw (e, filter_map) (ap (◌∷◌ b) (filter_map-append f xs ys))
]

-- The part of the added peers that are known and have keys, and the handshakes for the others.
abbrev pub start_now : Dict Uuid Peer → Uuid → Option (Uuid × PeerRequest)
start_now known id = elim (lookup ℕ_discrete id known) [
  | none ↦ none
  | some p ↦ if is_handshaken p then some (id, PeerRequest.start_subscription) else none
]

abbrev pub start_later : Dict Uuid Peer → Uuid → Option (SocketAddr × Option AndThen)
start_later known id = elim (lookup ℕ_discrete id known) [
  | none ↦ none
  | some p ↦
      if is_handshaken p then none else some (p.sockaddr, some (AndThen.start_subscription id))
]

abbrev to_list {ℓ} : {A : Type ℓ} → Option A → List A
to_list none = []
to_list (some a) = a ∷ []

filter_map-cons {ℓ κ} :
    {A : Type ℓ} {B : Type κ} (f : A → Option B) (x : A) (xs : List A)
    → filter_map f (x ∷ xs) ≡ to_list (f x) ++ filter_map f xs
unfolding filter_map
filter_map-cons f x xs = ground arith

module _ (ent : Entropy) (known : Dict Uuid Peer) where
  start_one-requests :
      (id : Uuid) (io : Io)
      → requests (start_one ent known id io).out ≡ requests io.out ++ to_list (start_now known id)
  unfolding start_one requests
  start_one-requests id io = elim (Option-cases (lookup ℕ_discrete id known)) [
    | inl absent ↦ rw (absent, start_one, start_now) (sym (append-nil _))
    | inr (p, found) ↦ elim (Bool-cases (is_handshaken p)) [
      | inl keyed ↦
          rw (found, start_one, start_now) (rw keyed (filter_map-append request_sent io.out _))
      | inr unkeyed ↦
          rw (found, start_one, start_now) (rw unkeyed (filter_map-append request_sent io.out _))
    ]
  ]

  start_one-hellos :
      (id : Uuid) (io : Io)
      → hellos (start_one ent known id io).out ≡ hellos io.out ++ to_list (start_later known id)
  unfolding start_one hellos
  start_one-hellos id io = elim (Option-cases (lookup ℕ_discrete id known)) [
    | inl absent ↦ rw (absent, start_one, start_later) (sym (append-nil _))
    | inr (p, found) ↦ elim (Bool-cases (is_handshaken p)) [
      | inl keyed ↦
          rw (found, start_one, start_later) (rw keyed (filter_map-append hello_asked io.out _))
      | inr unkeyed ↦
          rw (found, start_one, start_later) (rw unkeyed (filter_map-append hello_asked io.out _))
    ]
  ]

  start_added-requests :
      (ids : List Uuid) (io : Io)
      → requests (start_added ent known ids io).out
        ≡ requests io.out ++ filter_map (start_now known) ids
  unfolding start_added filter_map
  start_added-requests [] io = sym (append-nil _)
  start_added-requests (id ∷ ids) io =
      start_added-requests ids (start_one ent known id io)
      ∙ ap (λ l. l ++ filter_map (start_now known) ids) (start_one-requests id io)
      ∙ append_assoc (requests io.out) _ _
      ∙ ap (◌++◌ (requests io.out)) (sym (filter_map-cons (start_now known) id ids))

  start_added-hellos :
      (ids : List Uuid) (io : Io)
      → hellos (start_added ent known ids io).out
        ≡ hellos io.out ++ filter_map (start_later known) ids
  unfolding start_added filter_map
  start_added-hellos [] io = sym (append-nil _)
  start_added-hellos (id ∷ ids) io =
      start_added-hellos ids (start_one ent known id io)
      ∙ ap (λ l. l ++ filter_map (start_later known) ids) (start_one-hellos id io)
      ∙ append_assoc (hellos io.out) _ _
      ∙ ap (◌++◌ (hellos io.out)) (sym (filter_map-cons (start_later known) id ids))

abbrev pub ended : List Uuid → List (Uuid × PeerRequest)
ended = map (λ id. (id, PeerRequest.end_subscription))

module _ (ent : Entropy) where
  end_removed-requests :
      (ids : List Uuid) (m : PeerManager)
      → requests (end_removed ent ids m).io.out ≡ requests m.io.out ++ ended ids
  unfolding end_removed requests
  end_removed-requests [] m = sym (append-nil _)
  end_removed-requests (id ∷ ids) m =
      end_removed-requests ids _
      ∙ ap (λ l. l ++ ended ids) (filter_map-append request_sent m.io.out _)
      ∙ append_assoc (requests m.io.out) _ _

  end_removed-hellos :
      (ids : List Uuid) (m : PeerManager) → hellos (end_removed ent ids m).io.out ≡ hellos m.io.out
  unfolding end_removed hellos
  end_removed-hellos [] m = refl
  end_removed-hellos (id ∷ ids) m =
      end_removed-hellos ids _ ∙ filter_map-append hello_asked m.io.out _ ∙ append-nil _

  end_removed-subscribed_to :
      (j : Uuid) (ids : List Uuid) (m : PeerManager)
      → Set.contains ℕ_discrete j (end_removed ent ids m).subscribed_to
        ≡ Set.contains ℕ_discrete j m.subscribed_to && not (Set.contains ℕ_discrete j ids)
  unfolding end_removed Set.contains
  end_removed-subscribed_to j [] m = ground arith
  end_removed-subscribed_to j (id ∷ ids) m =
      end_removed-subscribed_to j ids _
      ∙ ground (arith, contains-remove ℕ_discrete id j m.subscribed_to)

  end_removed-watchdogs :
      (j : Uuid) (ids : List Uuid) (m : PeerManager)
      → contains_key ℕ_discrete j (end_removed ent ids m).heartbeat_watchdogs
        ≡ contains_key ℕ_discrete j m.heartbeat_watchdogs && not (Set.contains ℕ_discrete j ids)
  unfolding end_removed Set.contains
  end_removed-watchdogs j [] m = ground arith
  end_removed-watchdogs j (id ∷ ids) m =
      end_removed-watchdogs j ids _
      ∙ ground (arith, lookup-remove ℕ_discrete id j m.heartbeat_watchdogs)

  -- A reassignment to `new_assignments` keeps the subscriptions that are among them and forgets the
  -- others with their watchdogs. It asks for a subscription each newly assigned peer that is known
  -- with both keys, begins a handshake with each one that is known without, to ask it afterwards, and
  -- tells each peer that is no longer assigned. It adds no subscription by itself.
  pub reassign_peers_lem :
      (ch : Chooser) (m : PeerManager) (new_assignments : List Uuid)
      → choose_peers ch m.nodeinfo m.known ≡ some new_assignments
      → let added = Set.difference ℕ_discrete new_assignments m.subscribed_to in
        let removed = Set.difference ℕ_discrete m.subscribed_to new_assignments in
        (m' : PeerManager) × (reassign_peers ent ch m ≡ some m')
        × ((j : Uuid)
            → Set.contains ℕ_discrete j m'.subscribed_to
              ≡ Set.contains ℕ_discrete j m.subscribed_to
                && Set.contains ℕ_discrete j new_assignments)
        × ((j : Uuid)
            → contains_key ℕ_discrete j m'.heartbeat_watchdogs
              ≡ contains_key ℕ_discrete j m.heartbeat_watchdogs
                && not (
                    Set.contains ℕ_discrete j m.subscribed_to
                    && not (Set.contains ℕ_discrete j new_assignments)))
        × (requests m'.io.out
            ≡ (requests m.io.out ++ filter_map (start_now m.known) added) ++ ended removed)
        × (hellos m'.io.out ≡ hellos m.io.out ++ filter_map (start_later m.known) added)
  unfolding reassign_peers trigger_reassignment
  reassign_peers_lem ch m new_assignments e =
      let removed = Set.difference ℕ_discrete m.subscribed_to new_assignments in
      let added = Set.difference ℕ_discrete new_assignments m.subscribed_to in
      let started = record m { io = start_added ent m.known added m.io } in
      (
        end_removed ent removed started,
        rw (e, reassign_peers) refl,
        λ j. ground (
          arith,
          end_removed-subscribed_to j removed started,
          contains-difference ℕ_discrete j m.subscribed_to new_assignments,
        ),
        λ j. ground (
          arith,
          end_removed-watchdogs j removed started,
          contains-difference ℕ_discrete j m.subscribed_to new_assignments,
        ),
        end_removed-requests removed started
            ∙ ap (λ l. l ++ ended removed) (start_added-requests ent m.known added m.io),
        end_removed-hellos removed started ∙ start_added-hellos ent m.known added m.io,
      )
