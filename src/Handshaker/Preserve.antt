-- ===== src/Handshaker/Preserve.antt =====
-- handshake.rs: every operation of the handshaker keeps the invariant, or panics in the one way.
use gwyh.Base.{
  ◌≡◌, refl, Bool, true, false, Option, none, some, List, [], arith, Bool-cases, Option-cases, inl,
  inr, is_some, unwrap_or, ◌>>=◌,
}
use gwyh.Base.Dict.{Dict, lookup, lookup-insert, lookup-remove}
use gwyh.Base.Dict
use gwyh.External.{Uuid, SocketAddr, Bytes, Text, PublicKey, Timestamp, Entropy, Pair-discrete}
use gwyh.Peer.{is_handshaken}
use gwyh.Packet.{Hmac, HandshakeStep}
use gwyh.Actor.{HandshakerMessage}
use gwyh.Handshaker.Hmac.{Hashing, has_valid_hmac}
use gwyh.Handshaker.Hashes.{has_valid_hmac-none}
use gwyh.Handshaker.State.{Handshaker, HandshakeState, hello, ohai, Key, got_ohai, got_okboss}
use gwyh.Handshaker.Send.{send_okboss, bootstrap}
use gwyh.Handshaker.Handle.{
  answer_ohai, finish_ohai, remove_hello, remove_ohai, on_ohai, on_okboss, on_goteam,
  handle_handshake, handle_message,
}
use gwyh.Handshaker.Greetings.{send_hello-Inv, on_hello-Inv}
use gwyh.Handshaker.Invariant.{
  on_dead-Inv, GoodHello, GoodOhai, GoodOkboss, Each-insert, Each-remove, Inv, Returns, Handled,
  stamp_of,
}

bind-total :
    {A B : Type 0} (m : Option A) (f : A → Option B)
    → is_some m ≡ true
    → ((a : A) → (b : B) × (f a ≡ some b))
    → (b : B) × ((m >>= f) ≡ some b)
bind-total none f h g = absurd (ground arith)
bind-total (some a) f h g = g a

module _ (ent : Entropy) (hs : Hashing) where
  remove_hello-Inv : (key : Key) (s : Handshaker) → Inv s → Inv (remove_hello key s)
  unfolding remove_hello
  remove_hello-Inv key s v = record {
    hellos = Each-remove GoodHello key s.hellos v.hellos;
    ohais = v.ohais;
    okbosses = v.okbosses;
  }

  answer_ohai-Inv :
      (sockaddr : SocketAddr) (id : Uuid) (pk : PublicKey) (zone : Option Text) (challenge : Bytes)
      (node_id : Uuid) (handshake : HandshakeState hello) (s : Handshaker)
      → GoodHello (id, sockaddr) handshake
      → Inv s
      → Returns Inv (answer_ohai ent hs sockaddr pk zone challenge node_id handshake s)
  unfolding answer_ohai is_handshaken
  answer_ohai-Inv sockaddr id pk zone challenge node_id handshake s g v =
      let answered = got_ohai hs handshake node_id pk challenge s.nodeinfo.keys zone in
      let both : is_handshaken answered.peer ≡ true = ground (arith, g.keypair) in
      let sent = send_okboss handshake.id sockaddr (unwrap_or answered.response []) s in
      let inserted : Handshaker = record sent {
        okbosses = Dict.insert Pair-discrete (handshake.id, sockaddr) answered sent.okbosses;
      } in
      (
        inserted,
        rw both refl,
        record {
          hellos = v.hellos;
          ohais = v.ohais;
          okbosses =
              Each-insert GoodOkboss (handshake.id, sockaddr) answered s.okbosses
                (record { own_key = (refl, g.own_key.1); handshaken = both; untimed = refl })
                v.okbosses;
        },
      )

  on_ohai-Inv :
      (now : Timestamp) (sockaddr : SocketAddr) (id : Uuid) (pk : PublicKey) (zone : Option Text)
      (hmacs : List Hmac) (challenge : Bytes) (node_id : Uuid) (s : Handshaker)
      → Inv s
      → Handled hs
          (do h ← lookup Pair-discrete (id, sockaddr) s.hellos; some h.timestamp)
          now
          (on_ohai ent hs now sockaddr id pk zone hmacs challenge node_id s)
  unfolding on_ohai
  on_ohai-Inv now sockaddr id pk zone hmacs challenge node_id s v =
      let taken = remove_hello-Inv (id, sockaddr) s v in
      elim (Option-cases (lookup Pair-discrete (id, sockaddr) s.hellos)) [
        | inl absent ↦ rw (absent, on_ohai) (inl (s, refl, v))
        | inr (handshake, found) ↦
            elim (Option-cases (has_valid_hmac hs s.hashed_keys now handshake.timestamp hmacs)) [
              | inl panics ↦
                  rw (found, on_ohai)
                    (rw panics (
                      inr (
                        refl,
                        handshake.timestamp,
                        refl,
                        (has_valid_hmac-none hs s.hashed_keys now handshake.timestamp hmacs
                            panics).0,
                        (has_valid_hmac-none hs s.hashed_keys now handshake.timestamp hmacs
                            panics).1,
                      )))
              | inr (false, e) ↦
                  rw (found, on_ohai) (rw e (inl (remove_hello (id, sockaddr) s, refl, taken)))
              | inr (true, e) ↦
                  rw (found, on_ohai)
                    (rw e (
                      inl (
                        answer_ohai-Inv sockaddr id pk zone challenge node_id handshake _
                          (v.hellos _ handshake found) taken)))
            ]
      ]

  -- The effects of `finish_ohai` aside, it changes nothing.
  finish_ohai-Inv :
      (sockaddr : SocketAddr) (handshake : HandshakeState ohai) (s : Handshaker)
      → Inv s
      → Inv (finish_ohai ent hs sockaddr handshake s)
  unfolding finish_ohai
  finish_ohai-Inv sockaddr handshake s v = record {
    hellos = v.hellos;
    ohais = v.ohais;
    okbosses = v.okbosses;
  }

  remove_ohai-Inv : (key : Key) (s : Handshaker) → Inv s → Inv (remove_ohai key s)
  unfolding remove_ohai
  remove_ohai-Inv key s v = record {
    hellos = v.hellos;
    ohais = Each-remove GoodOhai key s.ohais v.ohais;
    okbosses = v.okbosses;
  }

  got_okboss-total :
      (key : Key) (handshake : HandshakeState ohai) (response : List Bytes) (keys : List Text)
      → GoodOhai key handshake
      → (accepted : Bool) × (got_okboss hs handshake response keys ≡ some accepted)
  unfolding got_okboss is_handshaken
  got_okboss-total key handshake response keys g =
      bind-total handshake.peer.our_keypair _ (ground (arith, g.handshaken))
        (λ keypair. bind-total handshake.challenge _ g.challenged (λ challenge. (_, refl)))

  on_okboss-Inv :
      (sockaddr : SocketAddr) (id : Uuid) (response : List Bytes) (s : Handshaker)
      → Inv s
      → Returns Inv (on_okboss ent hs sockaddr id response s)
  unfolding on_okboss
  on_okboss-Inv sockaddr id response s v =
      let taken = remove_ohai-Inv (id, sockaddr) s v in
      elim (Option-cases (lookup Pair-discrete (id, sockaddr) s.ohais)) [
        | inl absent ↦ rw (absent, on_okboss) (s, refl, v)
        | inr (handshake, found) ↦
            let (accepted, e) =
              got_okboss-total (id, sockaddr) handshake response s.nodeinfo.keys
                (v.ohais _ handshake found) in
            elim (Bool-cases accepted) [
              | inl yes_ ↦
                  rw (found, on_okboss)
                    (rw (e, yes_) (_, refl, finish_ohai-Inv sockaddr handshake _ taken))
              | inr no_ ↦ rw (found, on_okboss) (rw (e, no_) (_, refl, taken))
            ]
      ]

  on_goteam-Inv :
      (sockaddr : SocketAddr) (id : Uuid) (s : Handshaker)
      → Inv s
      → Returns Inv (on_goteam ent hs sockaddr id s)
  unfolding on_goteam
  on_goteam-Inv sockaddr id s v =
      elim (Option-cases (lookup Pair-discrete (id, sockaddr) s.okbosses)) [
        | inl absent ↦ rw (absent, on_goteam) (s, refl, v)
        | inr (handshake, found) ↦
            rw (found, on_goteam)
              (
                _,
                refl,
                record {
                  hellos = v.hellos;
                  ohais = v.ohais;
                  okbosses = Each-remove GoodOkboss (id, sockaddr) s.okbosses v.okbosses;
                },
              )
      ]

  handle_handshake-Inv :
      (now : Timestamp) (sockaddr : SocketAddr) (id : Uuid) (step : HandshakeStep) (node_id : Uuid)
      (s : Handshaker)
      → Inv s
      → Handled hs
          (stamp_of now
            (HandshakerMessage.packet sockaddr (record { id = id; step = step }) node_id)
            s)
          now
          (handle_handshake ent hs now sockaddr id step node_id s)
  unfolding handle_handshake
  handle_handshake-Inv now sockaddr id (HandshakeStep.hello pk zone hmacs timestamp) node_id s v =
      on_hello-Inv ent hs now sockaddr id pk zone hmacs timestamp node_id s v
  handle_handshake-Inv now sockaddr id (HandshakeStep.ohai pk zone hmacs challenge) node_id s v =
      on_ohai-Inv now sockaddr id pk zone hmacs challenge node_id s v
  handle_handshake-Inv now sockaddr id (HandshakeStep.okboss response) node_id s v =
      inl (on_okboss-Inv sockaddr id response s v)
  handle_handshake-Inv now sockaddr id HandshakeStep.goteam node_id s v =
      inl (on_goteam-Inv sockaddr id s v)
  handle_handshake-Inv now sockaddr id HandshakeStep.dead node_id s v =
      inl (_, refl, on_dead-Inv sockaddr id s v)

  -- If the invariant of a handshaker holds, it holds after every message: each handshake stands under
  -- its id and address and has this node's key pair, those that were greeted or answered carry a
  -- timer that says after 60 seconds that they are dead, the others both keys and no timer. The one
  -- way to panic is to hash a timestamp that is in the window but has no nanoseconds: that of a
  -- Hello, of the hello that an Ohai answers, or of the clock for a new hello.
  pub handle_message-Handled :
      (resolve : Text → Option SocketAddr) (now : Timestamp) (message : HandshakerMessage)
      (s : Handshaker)
      → Inv s
      → Handled hs (stamp_of now message s) now (handle_message ent hs resolve now message s)
  unfolding handle_message bootstrap
  handle_message-Handled resolve now HandshakerMessage.bootstrap s v =
      inl (_, refl, record { hellos = v.hellos; ohais = v.ohais; okbosses = v.okbosses })
  handle_message-Handled resolve now (HandshakerMessage.packet sockaddr handshake node_id) s v =
      handle_handshake-Inv now sockaddr handshake.id handshake.step node_id s v
  handle_message-Handled resolve now (HandshakerMessage.send_hello sockaddr and_then) s v =
      send_hello-Inv ent hs now sockaddr and_then s v
