-- ===== src/Handshaker/Greetings.antt =====
-- handshake.rs: a hello that is sent or comes in keeps the invariant of the handshaker, or panics.
use gwyh.Base.{
  ◌+◌, ◌≡◌, refl, true, false, Option, some, List, arith, Bool-cases, Option-cases, inl, inr, ◌==◌,
}
use gwyh.External.{Uuid, SocketAddr, Text, PublicKey, Timestamp, Entropy}
use gwyh.Peer.{is_handshaken}
use gwyh.Packet.{Hmac}
use gwyh.Actor.{Io, AndThen}
use gwyh.Handshaker.Hmac.{Hashing, is_valid_timestamp_for, has_valid_hmac, compute_hmacs}
use gwyh.Handshaker.Hashes.{has_valid_hmac-none, has_valid_hmac-in_window, compute_hmacs-none}
use gwyh.Handshaker.State.{Handshaker, from_hello}
use gwyh.Handshaker.Send.{send_hello, send_ohai}
use gwyh.Handshaker.Handle.{accept_hello, on_hello}
use gwyh.Handshaker.Invariant.{GoodHello, GoodOhai, Each-insert, Inv, Handled}

now_is_valid : (now : Timestamp) → is_valid_timestamp_for now now ≡ true
unfolding is_valid_timestamp_for
now_is_valid now = ground arith

module _ (ent : Entropy) (hs : Hashing) where
  pub send_hello-Inv :
      (now : Timestamp) (sockaddr : SocketAddr) (and_then : Option AndThen) (s : Handshaker)
      → Inv s
      → Handled hs (some now) now (send_hello ent hs now sockaddr and_then s)
  unfolding send_hello
  send_hello-Inv now sockaddr and_then s v =
      let io : Io = record s.io { draws = s.io.draws + 2 } in
      elim (Option-cases (compute_hmacs hs ent s.hashed_keys now io)) [
        | inl panics ↦
            rw (panics, send_hello)
              (inr (
                refl,
                now,
                refl,
                now_is_valid now,
                compute_hmacs-none hs ent s.hashed_keys now io panics,
              ))
        | inr (made, e) ↦
            rw (e, send_hello)
              (inl (
                _,
                refl,
                record {
                  hellos =
                      Each-insert GoodHello _ _ s.hellos
                        (record { own_key = (refl, refl); keypair = refl; timed = refl }) v.hellos;
                  ohais = v.ohais;
                  okbosses = v.okbosses;
                },
              ))
      ]

  accept_hello-Inv :
      (now : Timestamp) (sockaddr : SocketAddr) (id : Uuid) (pk : PublicKey) (zone : Option Text)
      (timestamp : Timestamp) (node_id : Uuid) (s : Handshaker)
      → is_valid_timestamp_for timestamp now ≡ true
      → Inv s
      → Handled hs
          (some timestamp)
          now
          (accept_hello ent hs sockaddr id pk zone timestamp node_id s)
  unfolding accept_hello send_ohai is_handshaken
  accept_hello-Inv now sockaddr id pk zone timestamp node_id s valid v =
      let io : Io = record s.io { draws = s.io.draws + 2 } in
      elim (Option-cases (compute_hmacs hs ent s.hashed_keys timestamp io)) [
        | inl panics ↦
            rw (panics, accept_hello)
              (inr (
                refl,
                timestamp,
                refl,
                valid,
                compute_hmacs-none hs ent s.hashed_keys timestamp io panics,
              ))
        | inr (made, e) ↦
            rw (e, accept_hello)
              (inl (
                _,
                refl,
                record {
                  hellos = v.hellos;
                  ohais =
                      Each-insert GoodOhai _
                        (from_hello ent s.io.draws sockaddr node_id id pk timestamp zone) s.ohais
                        (record {
                          own_key = (refl, refl);
                          handshaken = refl;
                          challenged = refl;
                          timed = refl;
                        })
                        v.ohais;
                  okbosses = v.okbosses;
                },
              ))
      ]

  pub on_hello-Inv :
      (now : Timestamp) (sockaddr : SocketAddr) (id : Uuid) (pk : PublicKey) (zone : Option Text)
      (hmacs : List Hmac) (timestamp : Timestamp) (node_id : Uuid) (s : Handshaker)
      → Inv s
      → Handled hs
          (some timestamp)
          now
          (on_hello ent hs now sockaddr id pk zone hmacs timestamp node_id s)
  unfolding on_hello
  on_hello-Inv now sockaddr id pk zone hmacs timestamp node_id s v =
      elim (Bool-cases (node_id == s.nodeinfo.id)) [
        | inl own ↦ rw own (inl (s, refl, v))
        | inr other ↦ elim (Option-cases (has_valid_hmac hs s.hashed_keys now timestamp hmacs)) [
          | inl panics ↦ rw other (
              rw panics (
                inr (
                  refl,
                  timestamp,
                  refl,
                  (has_valid_hmac-none hs s.hashed_keys now timestamp hmacs panics).0,
                  (has_valid_hmac-none hs s.hashed_keys now timestamp hmacs panics).1,
                )))
          | inr (true, e) ↦ rw other (
              rw e (
                accept_hello-Inv now sockaddr id pk zone timestamp node_id s
                  (has_valid_hmac-in_window hs s.hashed_keys now timestamp hmacs e) v))
          | inr (false, e) ↦ rw other (rw e (inl (s, refl, v)))
        ]
      ]
