-- ===== src/Handshaker/Hashes.antt =====
-- handshake.rs: the HMACs at a timestamp that has nanoseconds, where no hash panics.
use gwyh.Base.{
  ℕ, ◌+◌, ◌≡◌, refl, Bool, true, false, Option, none, some, List, [], ◌∷◌, ◌++◌, any, arith,
  Bool-cases, inl, inr,
}
use gwyh.External.{Bytes, Timestamp, Entropy}
use gwyh.Packet.{Hmac}
use gwyh.Actor.{Io}
use gwyh.Handshaker.Hmac.{
  Hashing, same_bytes, is_valid_timestamp_for, any_or_panic, calculate_hmac, valid_for_key,
  has_valid_hmac, new_hmac, hmac_each, compute_hmacs,
}

any_or_panic-some :
    {A : Type 0} (f : A → Option Bool) (g : A → Bool) (xs : List A)
    → ((x : A) → f x ≡ some (g x))
    → any_or_panic f xs ≡ some (any g xs)
unfolding any_or_panic any
any_or_panic-some f g [] e = refl
any_or_panic-some f g (x ∷ xs) e = elim (Bool-cases (g x)) [
  | inl h ↦ rw (e x, h) refl
  | inr h ↦ rw (e x, h) (any_or_panic-some f g xs e)
]

module _ (hs : Hashing) where
  abbrev pub hash_at : Bytes → Bytes → Timestamp → Bytes
  hash_at hashed_key message timestamp =
      hs.generic_hash (some hashed_key) (message ++ hs.nanos_text timestamp)

  abbrev pub matches : Timestamp → List Bytes → Hmac → Bool
  matches timestamp hashed_keys hmac =
      any (λ k. same_bytes (hash_at k hmac.message timestamp) hmac.hmac) hashed_keys

  pub has_valid_hmac-matches :
      (hashed_keys : List Bytes) (now timestamp : Timestamp) (hmacs : List Hmac)
      → hs.has_nanos timestamp ≡ true
      → is_valid_timestamp_for timestamp now ≡ true
      → has_valid_hmac hs (some hashed_keys) now timestamp hmacs
        ≡ some (any (matches timestamp hashed_keys) hmacs)
  unfolding has_valid_hmac valid_for_key calculate_hmac
  has_valid_hmac-matches hashed_keys now timestamp hmacs nanos valid = rw valid (
      any_or_panic-some _ (matches timestamp hashed_keys) hmacs
        (λ hmac. any_or_panic-some _ _ hashed_keys (λ k. rw nanos refl)))

  pub has_valid_hmac-none :
      (hashed_keys : Option (List Bytes)) (now timestamp : Timestamp) (hmacs : List Hmac)
      → has_valid_hmac hs hashed_keys now timestamp hmacs ≡ none
      → (is_valid_timestamp_for timestamp now ≡ true) × (hs.has_nanos timestamp ≡ false)
  unfolding has_valid_hmac
  has_valid_hmac-none none now timestamp hmacs h = absurd (ground arith)
  has_valid_hmac-none (some hashed_keys) now timestamp hmacs h =
      let valid : is_valid_timestamp_for timestamp now ≡ true = ground (arith, h) in
      elim (Bool-cases (hs.has_nanos timestamp)) [
        | inl nanos ↦
            let found = has_valid_hmac-matches hashed_keys now timestamp hmacs nanos valid in
            absurd (cc (h, found))
        | inr nanos ↦ (valid, nanos)
      ]

  pub has_valid_hmac-in_window :
      (hashed_keys : Option (List Bytes)) (now timestamp : Timestamp) (hmacs : List Hmac)
      → has_valid_hmac hs hashed_keys now timestamp hmacs ≡ some true
      → is_valid_timestamp_for timestamp now ≡ true
  unfolding has_valid_hmac
  has_valid_hmac-in_window none now timestamp hmacs h = absurd (ground arith)
  has_valid_hmac-in_window (some hashed_keys) now timestamp hmacs h = ground (arith, h)

  module _ (ent : Entropy) where
    abbrev pub hmac_at : ℕ → Bytes → Timestamp → ℕ → Hmac
    hmac_at n hashed_key timestamp len =
        let message = ent.randombytes_buf n len in
        record { hmac = hash_at hashed_key message timestamp; message = message }

    abbrev pub hmacs_at : List Bytes → Timestamp → ℕ → List Hmac × ℕ
    hmacs_at [] timestamp n = ([], n)
    hmacs_at (key ∷ keys) timestamp n =
        let (rest, n') = hmacs_at keys timestamp (n + 2) in
        (hmac_at (n + 1) key timestamp (ent.gen_range n 69 420) ∷ rest, n')

    pub hmac_each-hmacs_at :
        (keys : List Bytes) (timestamp : Timestamp) (n : ℕ)
        → hs.has_nanos timestamp ≡ true
        → hmac_each hs ent keys timestamp n ≡ some (hmacs_at keys timestamp n)
    unfolding hmac_each new_hmac calculate_hmac
    hmac_each-hmacs_at [] timestamp n nanos = refl
    hmac_each-hmacs_at (key ∷ keys) timestamp n nanos =
        rw (nanos, hmac_each-hmacs_at keys timestamp (n + 2) nanos) refl

    pub compute_hmacs-none :
        (hashed_keys : Option (List Bytes)) (timestamp : Timestamp) (io : Io)
        → compute_hmacs hs ent hashed_keys timestamp io ≡ none
        → hs.has_nanos timestamp ≡ false
    unfolding compute_hmacs
    compute_hmacs-none none timestamp io h = absurd (ground arith)
    compute_hmacs-none (some keys) timestamp io h = elim (Bool-cases (hs.has_nanos timestamp)) [
      | inl nanos ↦
          let made = hmac_each-hmacs_at keys timestamp io.draws nanos in
          absurd (ground (arith, h, made))
      | inr nanos ↦ nanos
    ]
