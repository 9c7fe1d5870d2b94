-- ===== src/Handshaker/SharedKey.antt =====
-- handshake.rs: two nodes that share a key accept each other's HMACs, and the receiver accepts the
-- initiator's response.
use gwyh.Base.{
  ℕ, ◌+◌, ◌≡◌, ◌∙◌, refl, ap, true, none, some, List, [], ◌∷◌, ◌++◌, any, arith, if_pos,
}
use gwyh.Base.Set.{contains, contains-from_iter, contains-filter, from_iter, intersection}
use gwyh.External.{Uuid, Bytes, Text, PublicKey, Timestamp, Entropy, Bytes-discrete}
use gwyh.Packet.{Hmac}
use gwyh.Actor.{Io}
use gwyh.Handshaker.State.{is_nonempty}
use gwyh.Handshaker.Hmac.{
  Hashing, same_bytes, is_valid_timestamp_for, has_valid_hmac, compute_response, compute_hmacs,
}
use gwyh.Handshaker.Hashes.{
  hash_at, matches, hmac_at, hmacs_at, hmac_each-hmacs_at, has_valid_hmac-matches,
}

abbrev pub Has : Bytes → List Bytes → Type 0
Has k l = contains Bytes-discrete k l ≡ true

same_bytes_refl : (a : Bytes) → same_bytes a a ≡ true
unfolding same_bytes
same_bytes_refl a = ground arith

is_nonempty-Has : (r : Bytes) (l : List Bytes) → Has r l → is_nonempty l ≡ true
unfolding contains
is_nonempty-Has r [] h = h
is_nonempty-Has r (x ∷ l) h = refl

module _ (hs : Hashing) where
  any-same_bytes :
      (hmac : Hmac) (timestamp : Timestamp) (k : Bytes) (keys : List Bytes)
      → Has k keys
      → same_bytes (hash_at hs k hmac.message timestamp) hmac.hmac ≡ true
      → matches hs timestamp keys hmac ≡ true
  unfolding any contains
  any-same_bytes hmac timestamp k [] h v = h
  any-same_bytes hmac timestamp k (j ∷ keys) h v =
      ground (arith, any-same_bytes hmac timestamp k keys)

  module _ (ent : Entropy) where
    hmacs_at-match :
        (ours theirs : List Bytes) (k : Bytes) (timestamp : Timestamp) (n : ℕ)
        → Has k ours
        → Has k theirs
        → any (matches hs timestamp theirs) (hmacs_at hs ent ours timestamp n).0 ≡ true
    unfolding contains any
    hmacs_at-match [] theirs k timestamp n h g = absurd (ground arith)
    hmacs_at-match (j ∷ ours) theirs k timestamp n h g =
        let hmac = hmac_at hs ent (n + 1) j timestamp (ent.gen_range n 69 420) in
        ground (
          arith,
          h,
          any-same_bytes hmac timestamp k theirs g,
          same_bytes_refl (hash_at hs j hmac.message timestamp),
          hmacs_at-match ours theirs k timestamp (n + 2),
        )

    -- The HMACs that a node computes for a timestamp that has nanoseconds are valid for any node that
    -- shares one of its hashed keys, as long as the timestamp is valid there.
    pub compute_hmacs-valid :
        (ours theirs : List Bytes) (k : Bytes) (timestamp now : Timestamp) (io : Io)
        → Has k ours
        → Has k theirs
        → is_valid_timestamp_for timestamp now ≡ true
        → hs.has_nanos timestamp ≡ true
        → (hmacs : List Hmac) × (io' : Io) × (compute_hmacs hs ent (some ours) timestamp io
            ≡ some (hmacs, io'))
          × (has_valid_hmac hs (some theirs) now timestamp hmacs ≡ some true)
    unfolding compute_hmacs
    compute_hmacs-valid ours theirs k timestamp now io h g valid nanos =
        let (hmacs, n) = hmacs_at hs ent ours timestamp io.draws in
        (
          hmacs,
          record io { draws = n },
          rw (hmac_each-hmacs_at hs ent ours timestamp io.draws nanos) refl,
          has_valid_hmac-matches hs theirs now timestamp hmacs nanos valid
              ∙ ap some (hmacs_at-match ours theirs k timestamp io.draws h g),
        )

  -- The answer to a challenge by one key.
  abbrev pub response_by : Uuid → PublicKey → Bytes → Text → Bytes
  response_by id public_key challenge key =
      hs.generic_hash none
        (key ++ (challenge ++ (hs.public_key_bytes public_key ++ hs.uuid_bytes id)))

  compute_response-Has :
      (id : Uuid) (public_key : PublicKey) (challenge : Bytes) (key : Text) (keys : List Text)
      → Has key keys
      → Has
          (response_by id public_key challenge key)
          (compute_response hs id public_key challenge keys)
  unfolding compute_response contains
  compute_response-Has id public_key challenge key [] h = absurd (ground arith)
  compute_response-Has id public_key challenge key (j ∷ keys) h = elim (Bytes-discrete j key) [
    | yes e ↦
        if_pos
          (Bytes-discrete (response_by id public_key challenge j)
            (response_by id public_key challenge key))
          (ap (response_by id public_key challenge) e) _ _
    | no n ↦ ground (arith, h, n, compute_response-Has id public_key challenge key keys)
  ]

  -- The response that a node computes to a challenge has an element in common with the one that any
  -- node expects which shares one of its keys.
  pub compute_response-shared :
      (id : Uuid) (public_key : PublicKey) (challenge : Bytes) (key : Text)
      (ours theirs : List Text)
      → Has key ours
      → Has key theirs
      → is_nonempty (
          intersection Bytes-discrete
            (from_iter Bytes-discrete (compute_response hs id public_key challenge ours))
            (from_iter Bytes-discrete (compute_response hs id public_key challenge theirs)))
        ≡ true
  unfolding intersection
  compute_response-shared id public_key challenge key ours theirs h g =
      let r = response_by id public_key challenge key in
      let expected = compute_response hs id public_key challenge ours in
      let received = compute_response hs id public_key challenge theirs in
      is_nonempty-Has r _ (
        ground (
          arith,
          contains-filter Bytes-discrete
              (λ k. contains Bytes-discrete k (from_iter Bytes-discrete received)) r
              (from_iter Bytes-discrete expected),
          contains-from_iter Bytes-discrete r expected,
          contains-from_iter Bytes-discrete r received,
          compute_response-Has id public_key challenge key ours h,
          compute_response-Has id public_key challenge key theirs g,
        ))
