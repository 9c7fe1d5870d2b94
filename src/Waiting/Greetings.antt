-- ===== src/Waiting/Greetings.antt =====
-- handshake.rs: what the first two handshake messages lead to, for any property of those sent.
use gwyh.Base.{
  ℕ, ◌≡◌, ◌<◌, ◌+◌, OnSome, Bool, true, false, Option, none, some, List, subst, ℕ_discrete, arith,
  Bool-cases, Option-cases, inl, inr, ◌==◌,
}
use gwyh.Base.Dict.{lookup}
use gwyh.Base.Set
use gwyh.External.{Uuid, SocketAddr, Bytes, Text, PublicKey, Timestamp, Entropy, Pair-discrete}
use gwyh.Peer.{is_handshaken}
use gwyh.Packet.{Hmac}
use gwyh.Actor.{
  Effect, Delayed, call, cast, task, to_packet_handler, send, send_message, Io, AndThen,
  start_subscription, draw,
}
use gwyh.Handshaker.Hmac.{Hashing, has_valid_hmac, hmac_each, compute_hmacs}
use gwyh.Handshaker.State.{Handshaker, HandshakeState, hello, got_ohai}
use gwyh.Handshaker.Send.{send_hello, send_ohai, send_okboss, call_and_then}
use gwyh.Handshaker.Handle.{accept_hello, answer_ohai, remove_hello, on_hello, on_ohai}
use gwyh.Waiting.{Fits, AllOut, IsPlain, emit-AllOut}

-- What holds of the messages sent, and of the timer of the bootstrap.
abbrev pub Holds : (Effect → Type 0) → (Option Delayed → Type 0) → Handshaker → Type 0
Holds P T s = AllOut P s.io × T s.bootstrap_timer

abbrev pub Keeps :
    (Effect → Type 0) → (Option Delayed → Type 0) → Handshaker → Option Handshaker → Type 0
Keeps P T s r = Holds P T s → OnSome (Holds P T) r

module _ (ent : Entropy) (hs : Hashing) (P : Effect → Type 0) (T : Option Delayed → Type 0)
    (top : ℕ) (fits : (e : Effect) → Fits 2 top e → IsPlain e → P e) (enough : 1 < top) where
  hmacs-Keeps :
      (hashed_keys : Option (List Bytes)) (timestamp : Timestamp) (io : Io)
      → AllOut P io
      → OnSome (λ r. AllOut P r.1) (compute_hmacs hs ent hashed_keys timestamp io)
  unfolding compute_hmacs
  hmacs-Keeps none timestamp io v = v
  hmacs-Keeps (some hashed_keys) timestamp io v =
      elim (Option-cases (hmac_each hs ent hashed_keys timestamp io.draws)) [
        | inl e ↦ rw e tt
        | inr ((hmacs, n), e) ↦ rw e v
      ]

  made-Keeps :
      (hashed_keys : Option (List Bytes)) (timestamp : Timestamp) (io : Io) (made : List Hmac × Io)
      → compute_hmacs hs ent hashed_keys timestamp io ≡ some made
      → AllOut P io
      → AllOut P made.1
  made-Keeps hashed_keys timestamp io made e v =
      subst (OnSome (λ r. AllOut P r.1)) e (hmacs-Keeps hashed_keys timestamp io v)

  pub then-Keeps :
      (and_then : Option AndThen) (io : Io) → AllOut P io → AllOut P (call_and_then ent and_then io)
  unfolding call_and_then draw
  then-Keeps none io v = v
  then-Keeps (some (start_subscription id)) io v =
      emit-AllOut P _ io (fits (to_packet_handler cast (send_message _ _)) (tt, enough) tt) v

  pub hello-Keeps :
      (now : Timestamp) (sockaddr : SocketAddr) (and_then : Option AndThen) (s : Handshaker)
      → Keeps P T s (send_hello ent hs now sockaddr and_then s)
  unfolding send_hello
  hello-Keeps now sockaddr and_then s v =
      let io : Io = record s.io { draws = s.io.draws + 2 } in
      elim (Option-cases (compute_hmacs hs ent s.hashed_keys now io)) [
        | inl panics ↦ rw (panics, send_hello) tt
        | inr (made, e) ↦
            rw (e, send_hello)
              (
                emit-AllOut P _ made.1 (fits (to_packet_handler cast (send _ _)) (tt, enough) tt)
                    (made-Keeps s.hashed_keys now io made e v.0),
                v.1,
              )
      ]

  ohai-Keeps :
      (id : Uuid) (sockaddr : SocketAddr) (pk : PublicKey) (challenge : Bytes)
      (timestamp : Timestamp) (inflight : Bool) (s : Handshaker)
      → Keeps P T s (send_ohai ent hs id sockaddr pk challenge timestamp inflight s)
  unfolding send_ohai draw
  ohai-Keeps id sockaddr pk challenge timestamp inflight s v =
      elim (Option-cases (compute_hmacs hs ent s.hashed_keys timestamp s.io)) [
        | inl panics ↦ rw (panics, send_ohai) tt
        | inr (made, e) ↦
            let kept = made-Keeps s.hashed_keys timestamp s.io made e v.0 in
            elim (Bool-cases inflight) [
              | inl waits ↦
                  rw (e, send_ohai, waits)
                    (
                      emit-AllOut P _ (draw made.1)
                          (fits (to_packet_handler (task _) (send _ _)) (tt, enough) tt) kept,
                      v.1,
                    )
              | inr at_once ↦
                  rw (e, send_ohai, at_once)
                    (
                      emit-AllOut P _ made.1
                          (fits (to_packet_handler (task 0) (send _ _)) (tt, enough) tt) kept,
                      v.1,
                    )
            ]
      ]

  accept-Keeps :
      (sockaddr : SocketAddr) (id : Uuid) (pk : PublicKey) (zone : Option Text)
      (timestamp : Timestamp) (node_id : Uuid) (s : Handshaker)
      → Keeps P T s (accept_hello ent hs sockaddr id pk zone timestamp node_id s)
  unfolding accept_hello
  accept-Keeps sockaddr id pk their_zone timestamp node_id s v =
      let drawn : Handshaker = record s { io = record s.io { draws = s.io.draws + 2 } } in
      let sent =
        send_ohai ent hs id sockaddr (ent.gen_keypair s.io.draws).public_key
          (ent.randombytes_buf (s.io.draws + 1) 69) timestamp
          (Set.contains ℕ_discrete sockaddr s.inflight) drawn in
      let kept : OnSome (Holds P T) sent =
        ohai-Keeps id sockaddr (ent.gen_keypair s.io.draws).public_key
          (ent.randombytes_buf (s.io.draws + 1) 69) timestamp
          (Set.contains ℕ_discrete sockaddr s.inflight) drawn v in
      elim (Option-cases sent) [
        | inl e ↦ rw (e, accept_hello) tt
        | inr (s', e) ↦
            let kept' = subst (OnSome (Holds P T)) e kept in rw (e, accept_hello) (kept'.0, kept'.1)
      ]

  pub on_hello-Keeps :
      (now : Timestamp) (sockaddr : SocketAddr) (id : Uuid) (pk : PublicKey) (zone : Option Text)
      (hmacs : List Hmac) (timestamp : Timestamp) (node_id : Uuid) (s : Handshaker)
      → Keeps P T s (on_hello ent hs now sockaddr id pk zone hmacs timestamp node_id s)
  unfolding on_hello accept_hello send_ohai
  on_hello-Keeps now sockaddr id pk their_zone hmacs timestamp node_id s v =
      elim (Bool-cases (node_id == s.nodeinfo.id)) [
        | inl own ↦ rw (own, on_hello) v
        | inr other ↦ elim (Option-cases (has_valid_hmac hs s.hashed_keys now timestamp hmacs)) [
          | inl panics ↦ rw (other, on_hello, panics) tt
          | inr (true, e) ↦
              rw (other, on_hello, e) (accept-Keeps sockaddr id pk their_zone timestamp node_id s v)
          | inr (false, e) ↦ rw (other, on_hello, e) v
        ]
      ]

  answer-Keeps :
      (sockaddr : SocketAddr) (pk : PublicKey) (zone : Option Text) (challenge : Bytes)
      (node_id : Uuid) (handshake : HandshakeState hello) (s : Handshaker)
      → Keeps P T s (answer_ohai ent hs sockaddr pk zone challenge node_id handshake s)
  unfolding answer_ohai got_ohai send_okboss
  answer-Keeps sockaddr pk their_zone challenge node_id handshake s v =
      elim (Bool-cases (
        is_handshaken
          (got_ohai hs handshake node_id pk challenge s.nodeinfo.keys their_zone).peer)) [
            | inl e ↦
                rw (e, answer_ohai)
                  (
                    emit-AllOut P _ s.io
                        (fits (to_packet_handler call (send _ _)) (omega arith, omega arith) tt)
                        v.0,
                    v.1,
                  )
            | inr e ↦ rw (e, answer_ohai) tt
          ]

  pub on_ohai-Keeps :
      (now : Timestamp) (sockaddr : SocketAddr) (id : Uuid) (pk : PublicKey) (zone : Option Text)
      (hmacs : List Hmac) (challenge : Bytes) (node_id : Uuid) (s : Handshaker)
      → Keeps P T s (on_ohai ent hs now sockaddr id pk zone hmacs challenge node_id s)
  unfolding on_ohai remove_hello
  on_ohai-Keeps now sockaddr id pk their_zone hmacs challenge node_id s v =
      elim (Option-cases (lookup Pair-discrete (id, sockaddr) s.hellos)) [
        | inl e ↦ rw (e, on_ohai) v
        | inr (h, e) ↦ elim (Option-cases (has_valid_hmac hs s.hashed_keys now h.timestamp hmacs)) [
          | inl panics ↦ rw (e, on_ohai, panics) tt
          | inr (true, valid) ↦
              rw (e, on_ohai, valid)
                (answer-Keeps sockaddr pk their_zone challenge node_id h
                  (remove_hello (id, sockaddr) s) v)
          | inr (false, bad) ↦ rw (e, on_ohai, bad) v
        ]
      ]
