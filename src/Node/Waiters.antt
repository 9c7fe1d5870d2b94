-- ===== src/Node/Waiters.antt =====
-- registry.rs: an actor that waits for a reply waits for one of lower rank, which has its call.
use gwyh.Base.{
  ◌≡◌, refl, ◌<◌, some, List, [], ◌∷◌, ◌++◌, inl, inr, Any, Any-append, subst, sym, append_assoc,
}
use gwyh.Actor.{Effect}
use gwyh.Node.Control.{
  ActorName, Request, Phase, idle, sending, waiting, Control, Controls, get, put, push, set_phase,
  rank,
}

abbrev pub current : Phase → List Request
current idle = []
current (sending r _) = r ∷ []
current (waiting r _) = r ∷ []

abbrev pub IsWaiting : Phase → Type 0
IsWaiting (waiting _ _) = Unit
IsWaiting _ = ⊥

-- The server handles or has queued a call that replies to the actor.
abbrev pub Owes : ActorName → Control → Type 0
Owes y c = Any (λ r. r.reply_to ≡ some y) (current c.phase ++ c.queue)

abbrev pub Awaits : ActorName → Controls → Type 0
Awaits y cs = (b : ActorName) × (rank b < rank y) × Owes y (get b cs)

abbrev pub Awaited : Controls → Type 0
Awaited cs = (y : ActorName) → IsWaiting (get y cs).phase → Awaits y cs

pub put_lem {κ} :
    (P : ActorName → Control → Type κ) (a : ActorName) (c : Control) (cs : Controls)
    → P a c
    → ((b : ActorName) → P b (get b cs))
    → (b : ActorName) → P b (get b (put a c cs))
put_lem P ActorName.packet_handler c cs h hs ActorName.packet_handler = h
put_lem P ActorName.packet_handler c cs h hs ActorName.handshaker = hs ActorName.handshaker
put_lem P ActorName.packet_handler c cs h hs ActorName.peer_manager = hs ActorName.peer_manager
put_lem P ActorName.handshaker c cs h hs ActorName.packet_handler = hs ActorName.packet_handler
put_lem P ActorName.handshaker c cs h hs ActorName.handshaker = h
put_lem P ActorName.handshaker c cs h hs ActorName.peer_manager = hs ActorName.peer_manager
put_lem P ActorName.peer_manager c cs h hs ActorName.packet_handler = hs ActorName.packet_handler
put_lem P ActorName.peer_manager c cs h hs ActorName.handshaker = hs ActorName.handshaker
put_lem P ActorName.peer_manager c cs h hs ActorName.peer_manager = h

pub get-put : (a : ActorName) (c : Control) (cs : Controls) → get a (put a c cs) ≡ c
get-put ActorName.packet_handler c cs = refl
get-put ActorName.handshaker c cs = refl
get-put ActorName.peer_manager c cs = refl

pub everywhere {κ} :
    (P : ActorName → Control → Type κ) (cs : Controls)
    → P ActorName.packet_handler cs.packet_handler
    → P ActorName.handshaker cs.handshaker
    → P ActorName.peer_manager cs.peer_manager
    → (a : ActorName) → P a (get a cs)
everywhere P cs h k l ActorName.packet_handler = h
everywhere P cs h k l ActorName.handshaker = k
everywhere P cs h k l ActorName.peer_manager = l

-- A change of one control that keeps what it owes to those that wait.
pub put-Awaited :
    (a : ActorName) (c : Control) (cs : Controls)
    → (IsWaiting c.phase → Awaits a cs)
    → ((y : ActorName) → IsWaiting (get y (put a c cs)).phase → Owes y (get a cs) → Owes y c)
    → Awaited cs
    → Awaited (put a c cs)
put-Awaited a c cs waits owes v y w =
    let (b, lt, o) = put_lem (λ y k. IsWaiting k.phase → Awaits y cs) a c cs waits v y w in
    (b, lt, put_lem (λ b k. Owes y (get b cs) → Owes y k) a c cs (owes y w) (λ b o. o) b o)

pub push-Awaited :
    (a : ActorName) (r : Request) (cs : Controls) → Awaited cs → Awaited (push a r cs)
push-Awaited a r cs v =
    put-Awaited a (record (get a cs) { queue = (get a cs).queue ++ r ∷ [] }) cs (v a)
      (λ y w o.
        subst (Any (λ r. r.reply_to ≡ some y))
          (append_assoc (current (get a cs).phase) (get a cs).queue (r ∷ []))
          (Any-append (λ r. r.reply_to ≡ some y) (current (get a cs).phase ++ (get a cs).queue)
            (r ∷ []) (inl o)))
      v

pub push-Awaits :
    (a b : ActorName) (r : Request) (cs : Controls)
    → rank b < rank a
    → r.reply_to ≡ some a
    → Awaits a (push b r cs)
push-Awaits a b r cs lt e = (
  b,
  lt,
  subst (Owes a) (sym (get-put b (record (get b cs) { queue = (get b cs).queue ++ r ∷ [] }) cs)) (
      Any-append (λ r. r.reply_to ≡ some a) (current (get b cs).phase) ((get b cs).queue ++ r ∷ [])
        (inr (Any-append (λ r. r.reply_to ≡ some a) (get b cs).queue (r ∷ []) (inr (inl e))))),
)

-- The phase of a server changes, and the request at hand stays.
pub set_phase-Awaited :
    (a : ActorName) (phase : Phase) (cs : Controls)
    → current phase ≡ current (get a cs).phase
    → (IsWaiting phase → Awaits a cs)
    → Awaited cs
    → Awaited (set_phase a phase cs)
set_phase-Awaited a phase cs same waits v =
    put-Awaited a (record (get a cs) { phase = phase }) cs waits
      (λ y w o.
        subst (λ now. Any (λ r. r.reply_to ≡ some y) (now ++ (get a cs).queue)) (sym same) o)
      v

-- A server takes a request from its queue.
pub take-Awaited :
    (a : ActorName) (r : Request) (rest : List Request) (out : List Effect) (cs : Controls)
    → get a cs ≡ record { queue = r ∷ rest; phase = idle }
    → Awaited cs
    → Awaited (put a (record { queue = rest; phase = sending r out }) cs)
take-Awaited a r rest out cs e v =
    put-Awaited a (record { queue = rest; phase = sending r out }) cs absurd
      (λ y w o. subst (Owes y) e o) v
