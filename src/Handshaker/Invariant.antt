-- ===== src/Handshaker/Invariant.antt =====
-- handshake.rs: the invariant of the handshaker.
use gwyh.Base.{
  ◌≡◌, ◌⊎◌, ◌*◌, subst, true, false, Option, none, some, [], ◌∷◌, arith, is_some, ◌>>=◌,
}
use gwyh.Base.Dict.{Dict, lookup, lookup-insert, lookup-remove}
use gwyh.Base.Dict
use gwyh.External.{Uuid, SocketAddr, Timestamp, nil_uuid, Pair-discrete}
use gwyh.NodeInfo.{NodeInfo}
use gwyh.Peer.{is_handshaken}
use gwyh.Handshaker.State.{Handshaker, HandshakeState, hello, ohai, okboss, Key, new}
use gwyh.Packet.{HandshakeStep, dead}
use gwyh.Actor.{Delayed, HandshakerMessage, cast, to_handshaker, packet}
use gwyh.Handshaker.Hmac.{Hashing, is_valid_timestamp_for}
use gwyh.Handshaker.Handle.{on_dead}

-- A timer that says after a minute that the handshake of an id and an address is dead.
abbrev pub death : Uuid → SocketAddr → Delayed
death id sockaddr = record {
  duration = 60 * 1000;
  fires = to_handshaker cast (packet sockaddr (record { id = id; step = dead }) nil_uuid) ∷ [];
}

-- A handshake stands under its id and the address of the other node, and has its own key pair and,
-- until the last step, a timer that ends it.
pub record GoodHello (key : Key) (h : HandshakeState hello) : Type 0 where
  pub own_key : (h.id ≡ key.0) × (h.peer.sockaddr ≡ key.1)
  pub keypair : is_some h.peer.our_keypair ≡ true
  pub timed : h.timer ≡ some (death key.0 key.1)

pub record GoodOhai (key : Key) (h : HandshakeState ohai) : Type 0 where
  pub own_key : (h.id ≡ key.0) × (h.peer.sockaddr ≡ key.1)
  pub handshaken : is_handshaken h.peer ≡ true
  pub challenged : is_some h.challenge ≡ true
  pub timed : h.timer ≡ some (death key.0 key.1)

pub record GoodOkboss (key : Key) (h : HandshakeState okboss) : Type 0 where
  pub own_key : (h.id ≡ key.0) × (h.peer.sockaddr ≡ key.1)
  pub handshaken : is_handshaken h.peer ≡ true
  pub untimed : h.timer ≡ none

module _ {S : Type 0} (Good : Key → S → Type 0) where
  abbrev pub Each : Dict Key S → Type 0
  Each m = (key : Key) (h : S) → lookup Pair-discrete key m ≡ some h → Good key h

  pub Each-insert :
      (k : Key) (v : S) (m : Dict Key S)
      → Good k v
      → Each m
      → Each (Dict.insert Pair-discrete k v m)
  Each-insert k v m g each key h e = elim (Pair-discrete k key) [
    | yes p ↦
        let same : v ≡ h = ground (arith, p, e, lookup-insert Pair-discrete k key v m) in
        subst (Good key) same (subst (λ x. Good x v) p g)
    | no n ↦ each key h (ground (arith, n, e, lookup-insert Pair-discrete k key v m))
  ]

  pub Each-remove : (k : Key) (m : Dict Key S) → Each m → Each (Dict.remove Pair-discrete k m)
  Each-remove k m each key h e = each key h (ground (arith, e, lookup-remove Pair-discrete k key m))

pub record Inv (s : Handshaker) : Type 0 where
  pub hellos : Each GoodHello s.hellos
  pub ohais : Each GoodOhai s.ohais
  pub okbosses : Each GoodOkboss s.okbosses

-- The result is a state, in which the predicate holds.
abbrev pub Returns {ℓ} : (Handshaker → Type ℓ) → Option Handshaker → Type ℓ
Returns P r = (s : Handshaker) × (r ≡ some s) × P s

-- The timestamp that is hashed to handle a message: that of a Hello, that of the hello that an Ohai
-- answers, and the clock's for a new hello.
abbrev pub stamp_of : Timestamp → HandshakerMessage → Handshaker → Option Timestamp
stamp_of now (HandshakerMessage.packet sockaddr handshake _) s = elim handshake.step [
  | HandshakeStep.hello _ _ _ timestamp ↦ some timestamp
  | HandshakeStep.ohai _ _ _ _ ↦ do
    h ← lookup Pair-discrete (handshake.id, sockaddr) s.hellos
    some h.timestamp
  | HandshakeStep.okboss _ ↦ none
  | HandshakeStep.goteam ↦ none
  | HandshakeStep.dead ↦ none
]
stamp_of now (HandshakerMessage.send_hello _ _) s = some now
stamp_of now HandshakerMessage.bootstrap s = none

-- A panic, and the timestamp is in the window but has no nanoseconds.
abbrev pub Panicked : Hashing → Option Timestamp → Timestamp → Option Handshaker → Type 0
Panicked hs stamp now r =
    (r ≡ none)
    × (timestamp : Timestamp) × (stamp ≡ some timestamp)
    × (is_valid_timestamp_for timestamp now ≡ true)
    × (hs.has_nanos timestamp ≡ false)

-- A state in which the invariant holds, or that panic.
abbrev pub Handled : Hashing → Option Timestamp → Timestamp → Option Handshaker → Type 0
Handled hs stamp now r = Returns Inv r ⊎ Panicked hs stamp now r

pub new-Inv : (nodeinfo : NodeInfo) → Inv (new nodeinfo)
unfolding new lookup
new-Inv nodeinfo = record {
  hellos = λ key h e. absurd (ground arith);
  ohais = λ key h e. absurd (ground arith);
  okbosses = λ key h e. absurd (ground arith);
}

pub on_dead-Inv :
    (sockaddr : SocketAddr) (id : Uuid) (s : Handshaker) → Inv s → Inv (on_dead sockaddr id s)
unfolding on_dead
on_dead-Inv sockaddr id s v = record {
  hellos = Each-remove GoodHello _ s.hellos v.hellos;
  ohais = Each-remove GoodOhai _ s.ohais v.ohais;
  okbosses = Each-remove GoodOkboss _ s.okbosses v.okbosses;
}
