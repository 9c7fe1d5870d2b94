-- ===== src/Handshaker/Steps.antt =====
-- handshake.rs: what each step of a handshake sends and keeps when it goes well.
use gwyh.Base.{
  ◌+◌, ◌≡◌, ◌≢◌, refl, ◌∙◌, true, Option, none, some, List, arith, Bool-cases, inl, inr, is_some,
  ℕ_discrete,
}
use gwyh.Base.Dict.{lookup, lookup-insert}
use gwyh.Base.Set
use gwyh.Base.Dict
use gwyh.External.{Uuid, SocketAddr, Bytes, Text, PublicKey, Timestamp, Entropy, Pair-discrete}
use gwyh.Peer.{Peer, is_handshaken}
use gwyh.Message.{up}
use gwyh.Packet.{Hmac, HandshakeStep}
use gwyh.Actor.{Io, AndThen}
use gwyh.Handshaker.Hmac.{Hashing, has_valid_hmac, compute_hmacs, compute_response}
use gwyh.Handshaker.State.{
  Handshaker, HandshakeState, hello, ohai, okboss, new_hello, from_hello, got_ohai, got_okboss,
}
use gwyh.Handshaker.Send.{send_hello, send_ohai, send_okboss, send_peer_up, call_and_then}
use gwyh.Handshaker.Handle.{
  accept_hello, on_hello, on_ohai, finish_ohai, on_okboss, on_goteam, remove_hello, remove_okboss,
  remove_ohai,
}
use gwyh.Handshaker.LastSent.{
  handshake_sent, status_reported, last_handshake, last_status, last_some-append,
}

module _ (ent : Entropy) (hs : Hashing) where
  pub send_hello_lem :
      (now : Timestamp) (sockaddr : SocketAddr) (and_then : Option AndThen) (s : Handshaker)
      (hmacs : List Hmac) (io : Io)
      → compute_hmacs hs ent s.hashed_keys now (record s.io { draws = s.io.draws + 2 })
        ≡ some (hmacs, io)
      → let h = new_hello ent s.io.draws sockaddr and_then now in
        (s' : Handshaker) × (send_hello ent hs now sockaddr and_then s ≡ some s')
        × (last_handshake s'.io.out
            ≡ some (record {
              id = h.id;
              step =
                  HandshakeStep.hello
                    (ent.gen_keypair (s.io.draws + 1)).public_key
                    s.nodeinfo.zone
                    hmacs
                    now;
            }))
        × (lookup Pair-discrete (h.id, sockaddr) s'.hellos ≡ some h)
        × (s'.nodeinfo ≡ s.nodeinfo)
        × (s'.hashed_keys ≡ s.hashed_keys)
  unfolding send_hello
  send_hello_lem now sockaddr and_then s hmacs io e =
      rw (e, send_hello)
        (
          _,
          refl,
          last_some-append handshake_sent _ _,
          ground (
            arith,
            lookup-insert Pair-discrete (ent.new_v4 s.io.draws, sockaddr)
                (ent.new_v4 s.io.draws, sockaddr) (new_hello ent s.io.draws sockaddr and_then now)
                s.hellos,
          ),
          refl,
          refl,
        )

  pub accept_hello-sent :
      (sockaddr : SocketAddr) (id : Uuid) (pk : PublicKey) (zone : Option Text)
      (timestamp : Timestamp) (node_id : Uuid) (s : Handshaker) (hmacs : List Hmac) (io : Io)
      → compute_hmacs hs ent s.hashed_keys timestamp (record s.io { draws = s.io.draws + 2 })
        ≡ some (hmacs, io)
      → let h = from_hello ent s.io.draws sockaddr node_id id pk timestamp zone in
        (s' : Handshaker) × (accept_hello ent hs sockaddr id pk zone timestamp node_id s ≡ some s')
        × (last_handshake s'.io.out
            ≡ some (record {
              id = id;
              step =
                  HandshakeStep.ohai
                    (ent.gen_keypair s.io.draws).public_key
                    s.nodeinfo.zone
                    hmacs
                    (ent.randombytes_buf (s.io.draws + 1) 69);
            }))
        × (lookup Pair-discrete (id, sockaddr) s'.ohais ≡ some h)
        × (s'.nodeinfo ≡ s.nodeinfo)
  unfolding accept_hello send_ohai
  accept_hello-sent sockaddr id pk zone timestamp node_id s hmacs io e =
      rw (e, accept_hello)
        (
          _,
          refl,
          elim (Bool-cases (Set.contains ℕ_discrete sockaddr s.inflight)) [
            | inl e ↦ rw e (last_some-append handshake_sent _ _)
            | inr e ↦ rw e (last_some-append handshake_sent _ _)
          ],
          ground (
            arith,
            lookup-insert Pair-discrete (id, sockaddr) (id, sockaddr)
                (from_hello ent s.io.draws sockaddr node_id id pk timestamp zone) s.ohais,
          ),
          refl,
        )

  pub on_hello_lem :
      (now : Timestamp) (sockaddr : SocketAddr) (id : Uuid) (pk : PublicKey) (zone : Option Text)
      (hmacs : List Hmac) (timestamp : Timestamp) (node_id : Uuid) (s : Handshaker)
      → node_id ≢ s.nodeinfo.id
      → has_valid_hmac hs s.hashed_keys now timestamp hmacs ≡ some true
      → on_hello ent hs now sockaddr id pk zone hmacs timestamp node_id s
        ≡ accept_hello ent hs sockaddr id pk zone timestamp node_id s
  unfolding on_hello
  on_hello_lem now sockaddr id pk their_zone hmacs timestamp node_id s other valid = ground arith

  -- The peer of the initiator after the Ohai.
  abbrev pub answered_peer : HandshakeState hello → Uuid → PublicKey → Option Text → Peer
  answered_peer h node_id pk zone = record h.peer {
    their_public_key = some pk;
    id = node_id;
    zone = zone;
  }

  pub on_ohai_lem :
      (now : Timestamp) (sockaddr : SocketAddr) (id : Uuid) (pk : PublicKey) (zone : Option Text)
      (hmacs : List Hmac) (challenge : Bytes) (node_id : Uuid) (h : HandshakeState hello)
      (s : Handshaker)
      → lookup Pair-discrete (id, sockaddr) s.hellos ≡ some h
      → has_valid_hmac hs s.hashed_keys now h.timestamp hmacs ≡ some true
      → is_some h.peer.our_keypair ≡ true
      → (s' : Handshaker) × (answered : HandshakeState okboss) × (on_ohai ent hs now sockaddr id pk
            zone hmacs challenge node_id s
          ≡ some s')
        × (last_handshake s'.io.out
            ≡ some (record {
              id = h.id;
              step = HandshakeStep.okboss (compute_response hs h.id pk challenge s.nodeinfo.keys);
            }))
        × (lookup Pair-discrete (h.id, sockaddr) s'.okbosses ≡ some answered)
        × (answered.peer ≡ answered_peer h node_id pk zone)
        × (s'.nodeinfo ≡ s.nodeinfo)
  unfolding on_ohai is_handshaken
  on_ohai_lem now sockaddr id pk zone hmacs challenge node_id h s found valid keyed =
      let answered = got_ohai hs h node_id pk challenge s.nodeinfo.keys zone in
      let sent =
        send_okboss h.id sockaddr (compute_response hs h.id pk challenge s.nodeinfo.keys)
          (remove_hello (id, sockaddr) s) in
      let s' : Handshaker = record sent {
        okbosses = Dict.insert Pair-discrete (h.id, sockaddr) answered s.okbosses;
      } in
      (
        s',
        answered,
        rw (found, on_ohai) (rw (valid, keyed) refl),
        last_some-append handshake_sent _ _,
        ground (
          arith,
          lookup-insert Pair-discrete (h.id, sockaddr) (h.id, sockaddr) answered s.okbosses,
        ),
        refl,
        refl,
      )

  call_and_then-status :
      (k : Option AndThen) (io : Io)
      → (last_status (call_and_then ent k io).out ≡ last_status io.out)
  unfolding call_and_then
  call_and_then-status none io = refl
  call_and_then-status (some (AndThen.start_subscription id)) io =
      last_some-append status_reported io.out _

  finish_ohai-sent :
      (sockaddr : SocketAddr) (h : HandshakeState ohai) (s : Handshaker)
      → h.and_then ≡ none
      → let s' = finish_ohai ent hs sockaddr h s in
        (last_handshake s'.io.out ≡ some (record { id = h.id; step = HandshakeStep.goteam }))
        × (last_status s'.io.out ≡ some (record { peer = h.peer; state = up }))
  unfolding finish_ohai
  finish_ohai-sent sockaddr h s e =
      let up_sent = send_peer_up h.peer s in
      (
        rw (e, call_and_then) (last_some-append handshake_sent up_sent.io.out _),
        rw (e, call_and_then)
            (last_some-append status_reported up_sent.io.out _
              ∙ last_some-append status_reported s.io.out _),
      )

  pub on_okboss_lem :
      (sockaddr : SocketAddr) (id : Uuid) (response : List Bytes) (h : HandshakeState ohai)
      (s : Handshaker)
      → lookup Pair-discrete (id, sockaddr) s.ohais ≡ some h
      → got_okboss hs h response s.nodeinfo.keys ≡ some true
      → h.and_then ≡ none
      → (s' : Handshaker) × (on_okboss ent hs sockaddr id response s ≡ some s')
        × (last_handshake s'.io.out ≡ some (record { id = h.id; step = HandshakeStep.goteam }))
        × (last_status s'.io.out ≡ some (record { peer = h.peer; state = up }))
  unfolding on_okboss
  on_okboss_lem sockaddr id response h s found accepted e =
      let sent = finish_ohai-sent sockaddr h (remove_ohai (id, sockaddr) s) e in
      (
        finish_ohai ent hs sockaddr h (remove_ohai (id, sockaddr) s),
        rw (found, on_okboss) (rw accepted refl),
        sent.0,
        sent.1,
      )

  pub on_goteam_lem :
      (sockaddr : SocketAddr) (id : Uuid) (h : HandshakeState okboss) (s : Handshaker)
      → lookup Pair-discrete (id, sockaddr) s.okbosses ≡ some h
      → (s' : Handshaker) × (on_goteam ent hs sockaddr id s ≡ some s')
        × (last_status s'.io.out ≡ some (record { peer = h.peer; state = up }))
  unfolding on_goteam
  on_goteam_lem sockaddr id h s found =
      let sent = send_peer_up h.peer (remove_okboss (id, sockaddr) s) in
      (
        record sent { io = call_and_then ent h.and_then sent.io },
        rw (found, on_goteam) refl,
        call_and_then-status h.and_then sent.io ∙ last_some-append status_reported s.io.out _,
      )
