-- ===== src/Handshaker/Agreement.antt =====
-- handshake.rs: a whole handshake between two nodes, with every message delivered.
use gwyh.Base.{ℕ, ◌+◌, ◌≡◌, ◌≢◌, refl, ap, ◌∙◌, true, Option, some, List, ◌>>=◌}
use gwyh.External.{Uuid, SocketAddr, Bytes, Text, PublicKey, Timestamp, Entropy}
use gwyh.Peer.{Peer}
use gwyh.Message.{up}
use gwyh.Actor.{AndThen}
use gwyh.Handshaker.Hmac.{Hashing, has_valid_hmac, is_valid_timestamp_for, compute_response}
use gwyh.Handshaker.State.{Handshaker, new_hello, from_hello, got_okboss}
use gwyh.Handshaker.Send.{send_hello}
use gwyh.Handshaker.Handle.{handle_handshake}
use gwyh.Handshaker.SharedKey.{Has, compute_hmacs-valid, compute_response-shared}
use gwyh.Handshaker.LastSent.{last_handshake, last_status}
use gwyh.Handshaker.Steps.{
  send_hello_lem, accept_hello-sent, on_hello_lem, on_ohai_lem, on_okboss_lem, on_goteam_lem,
}

bind {ℓ κ} :
    {A : Type ℓ} {B : Type κ} {m : Option A} {a : A} {r : Option B} (f : A → Option B)
    → m ≡ some a
    → f a ≡ r
    → (m >>= f) ≡ r
bind f e h = rw e h

-- A receiver accepts the response of an initiator that shares a key with it.
got_okboss-from_hello :
    (hs : Hashing) (ent : Entropy) (n : ℕ) (addr : SocketAddr) (node_id id : Uuid) (pk : PublicKey)
    (timestamp : Timestamp) (zone : Option Text) (key : Text) (theirs ours : List Text)
    → Has key theirs
    → Has key ours
    → got_okboss hs
        (from_hello ent n addr node_id id pk timestamp zone)
        (compute_response hs id
          (ent.gen_keypair n).public_key
          (ent.randombytes_buf (n + 1) 69)
          theirs)
        ours
      ≡ some true
unfolding got_okboss from_hello
got_okboss-from_hello hs ent n addr node_id id pk timestamp their_zone key theirs ours h g =
    ap some (
      compute_response-shared hs id (ent.gen_keypair n).public_key (ent.randombytes_buf (n + 1) 69)
        key ours theirs g h)

-- Alice says hello to Bob, and each node answers the other's last message until Alice has the GoTeam.
-- Each node is reached at the address that the other one knows; the result is the two handshakers.
module _ (ent_a ent_b : Entropy) (hs : Hashing) (addr_a addr_b : SocketAddr)
    (began now_a now_b : Timestamp) (and_then : Option AndThen) where
  pub handshake_run : Handshaker → Handshaker → Option (Handshaker × Handshaker)
  handshake_run a b = do
    a1 ← send_hello ent_a hs began addr_b and_then a
    m1 ← last_handshake a1.io.out
    b1 ← handle_handshake ent_b hs now_b addr_a m1.id m1.step a.nodeinfo.id b
    m2 ← last_handshake b1.io.out
    a2 ← handle_handshake ent_a hs now_a addr_b m2.id m2.step b.nodeinfo.id a1
    m3 ← last_handshake a2.io.out
    b2 ← handle_handshake ent_b hs now_b addr_a m3.id m3.step a.nodeinfo.id b1
    m4 ← last_handshake b2.io.out
    a3 ← handle_handshake ent_a hs now_a addr_b m4.id m4.step b.nodeinfo.id a2
    some (a3, b2)

  -- What each node reports of the other one.
  abbrev pub peer_of_bob : Handshaker → Handshaker → Peer
  peer_of_bob a b = record {
    our_keypair = some (ent_a.gen_keypair (a.io.draws + 1));
    their_public_key = some (ent_b.gen_keypair b.io.draws).public_key;
    handshake_timestamp = some began;
    sockaddr = addr_b;
    id = b.nodeinfo.id;
    zone = b.nodeinfo.zone;
  }

  abbrev pub peer_of_alice : Handshaker → Handshaker → Peer
  peer_of_alice a b = record {
    our_keypair = some (ent_b.gen_keypair b.io.draws);
    their_public_key = some (ent_a.gen_keypair (a.io.draws + 1)).public_key;
    handshake_timestamp = some began;
    sockaddr = addr_a;
    id = a.nodeinfo.id;
    zone = a.nodeinfo.zone;
  }

  -- Two different nodes whose pre-shared keys have one in common, in clear and hashed, complete the
  -- handshake if the timestamp has nanoseconds and is in the window of both. Then each reports the other one as up, with
  -- its own key pair and the public key of the key pair that the other one reports for it, and both
  -- with the timestamp of the hello.
  pub handshake_run_agrees :
      (a b : Handshaker) (hashed_a hashed_b : List Bytes) (hashed : Bytes) (key : Text)
      → a.nodeinfo.id ≢ b.nodeinfo.id
      → a.hashed_keys ≡ some hashed_a
      → b.hashed_keys ≡ some hashed_b
      → Has hashed hashed_a
      → Has hashed hashed_b
      → Has key a.nodeinfo.keys
      → Has key b.nodeinfo.keys
      → is_valid_timestamp_for began now_a ≡ true
      → is_valid_timestamp_for began now_b ≡ true
      → hs.has_nanos began ≡ true
      → (a' b' : Handshaker) × (handshake_run a b ≡ some (a', b'))
        × (last_status a'.io.out ≡ some (record { peer = peer_of_bob a b; state = up }))
        × (last_status b'.io.out ≡ some (record { peer = peer_of_alice a b; state = up }))
  unfolding handshake_run handle_handshake new_hello from_hello
  handshake_run_agrees a b hashed_a hashed_b hashed key other ea eb ha hb ka kb va vb nanos =
      let na = a.io.draws in
      let nb = b.io.draws in
      let h = new_hello ent_a na addr_b and_then began in
      let (hmacs_a, io_a, made_a, found_a) =
        compute_hmacs-valid hs ent_a hashed_a hashed_b hashed began now_b
          (record a.io { draws = na + 2 }) ha hb vb nanos in
      let (a1, s1, m1, f1, i1, j1) =
        send_hello_lem ent_a hs began addr_b and_then a hmacs_a io_a (rw ea made_a) in
      let valid_b : has_valid_hmac hs b.hashed_keys now_b began hmacs_a ≡ some true =
        rw eb found_a in
      let pk_a = (ent_a.gen_keypair (na + 1)).public_key in
      let accept =
        on_hello_lem ent_b hs now_b addr_a h.id pk_a a.nodeinfo.zone hmacs_a began a.nodeinfo.id b
          other valid_b in
      let (hmacs_b, io_b, made_b, found_b) =
        compute_hmacs-valid hs ent_b hashed_b hashed_a hashed began now_a
          (record b.io { draws = nb + 2 }) hb ha va nanos in
      let (b1, s2, m2, f2, i2) =
        accept_hello-sent ent_b hs addr_a h.id pk_a a.nodeinfo.zone began a.nodeinfo.id b hmacs_b
          io_b (rw eb made_b) in
      let pk_b = (ent_b.gen_keypair nb).public_key in
      let challenge = ent_b.randombytes_buf (nb + 1) 69 in
      let valid_a : has_valid_hmac hs a1.hashed_keys now_a began hmacs_b ≡ some true =
        rw (j1, ea) found_b in
      let (a2, answered, s3, m3, f3, p3, i3) =
        on_ohai_lem ent_a hs now_a addr_b h.id pk_b b.nodeinfo.zone hmacs_b challenge b.nodeinfo.id
          h a1 f1 valid_a refl in
      let keys1 : List Text = a1.nodeinfo.keys in
      let shared1 : Has key keys1 = rw i1 ka in
      let shared2 : Has key b1.nodeinfo.keys = rw i2 kb in
      let response = compute_response hs h.id pk_b challenge keys1 in
      let (b2, s4, m4, p4) =
        on_okboss_lem ent_b hs addr_a h.id response
          (from_hello ent_b nb addr_a a.nodeinfo.id h.id pk_a began a.nodeinfo.zone) b1 f2
          (got_okboss-from_hello hs ent_b nb addr_a a.nodeinfo.id h.id pk_a began a.nodeinfo.zone
            key keys1 b1.nodeinfo.keys shared1 shared2)
          refl in
      let (a3, s5, p5) = on_goteam_lem ent_a hs addr_b h.id answered a2 f3 in
      (
        a3,
        b2,
        bind _ s1 (
            bind _ m1 (
              bind _ (accept ∙ s2)
                (bind _ m2 (bind _ s3 (bind _ m3 (bind _ s4 (bind _ m4 (bind _ s5 refl)))))))),
        p5 ∙ ap (λ p. some (record { peer = p; state = up })) p3,
        p4,
      )
