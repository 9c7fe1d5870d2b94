-- ===== src/Handshaker/Hmac.antt =====
-- handshake.rs: the time-locked HMACs and the response to a challenge.
use gwyh.Base.{
  ℕ, ◌+◌, ◌-◌, ◌*◌, ◌^◌, Bool, true, false, ◌&&◌, Option, none, some, List, [], ◌∷◌, ◌++◌, map, ltb,
  leb, ◌==◌, if◌then◌else◌, ◌>>=◌,
}
use gwyh.External.{Uuid, Bytes, Text, PublicKey, Timestamp, Entropy, Bytes-discrete}
use gwyh.Packet.{Hmac}
use gwyh.Actor.{Io}

abbrev pub handshake_timeout_millis : ℕ
handshake_timeout_millis = 60000

abbrev pub handshake_bootstrap_delay_millis_min : ℕ
handshake_bootstrap_delay_millis_min = 10

abbrev pub handshake_bootstrap_delay_millis_max : ℕ
handshake_bootstrap_delay_millis_max = 150

-- The crates dryoc, chrono and uuid. `generic_hash` hashes what the updates of a hasher add up to,
-- with a key or without; `hash_key` is the one-shot hash of a pre-shared key, `none` for its error.
-- `has_nanos` says whether `timestamp_nanos_opt` has an answer, which it has in the years 1677 to
-- 2262, and `nanos_text` is the decimal text of that answer.
pub record Hashing : Type 0 where
  pub generic_hash : Option Bytes → Bytes → Bytes
  pub hash_key : Text → Option Bytes
  pub has_nanos : Timestamp → Bool
  pub nanos_text : Timestamp → Bytes
  pub public_key_bytes : PublicKey → Bytes
  pub uuid_bytes : Uuid → Bytes

unfoldable pub same_bytes : Bytes → Bytes → Bool
unfolding Bytes-discrete
same_bytes a b = elim (Bytes-discrete a b) [ yes _ ↦ true | no _ ↦ false ]

-- The difference in nanoseconds is an i64 (no answer outside its range), and `abs` of the least i64
-- is itself, which is negative.
unfoldable pub is_valid_timestamp_for : Timestamp → Timestamp → Bool
is_valid_timestamp_for timestamp now =
    let window = 1000 * handshake_timeout_millis in
    if leb timestamp now
    then ltb (now - timestamp) (2 ^ 63) && ltb (now - timestamp) window
    else if timestamp - now == 2 ^ 63
    then true
    else ltb (timestamp - now) (2 ^ 63) && ltb (timestamp - now) window

-- `any` of the iterators, with a test that may panic.
unfoldable pub any_or_panic : {A : Type 0} → (A → Option Bool) → List A → Option Bool
any_or_panic f [] = some false
any_or_panic f (x ∷ xs) =
    let rest = any_or_panic f xs in do found ← f x; if found then some true else rest

module _ (hs : Hashing) where
  -- `none` is the panic of the `expect`.
  unfoldable pub calculate_hmac : Bytes → Bytes → Timestamp → Option Bytes
  calculate_hmac hashed_key message timestamp =
      if hs.has_nanos timestamp
      then some (hs.generic_hash (some hashed_key) (message ++ hs.nanos_text timestamp))
      else none

  unfoldable pub valid_for_key : Hmac → Timestamp → Bytes → Option Bool
  unfolding calculate_hmac same_bytes
  valid_for_key hmac timestamp hashed_key = do
    calculated ← calculate_hmac hashed_key hmac.message timestamp
    some (same_bytes calculated hmac.hmac)

  -- `Handshaker::has_valid_hmac`, over its `hashed_keys`; `now` is what `Utc::now` returns.
  unfoldable pub has_valid_hmac :
      Option (List Bytes) → Timestamp → Timestamp → List Hmac → Option Bool
  unfolding is_valid_timestamp_for valid_for_key any_or_panic
  has_valid_hmac none now timestamp hmacs = some false
  has_valid_hmac (some hashed_keys) now timestamp hmacs =
      if is_valid_timestamp_for timestamp now
      then any_or_panic (λ hmac. any_or_panic (valid_for_key hmac timestamp) hashed_keys) hmacs
      else some false

  unfoldable pub compute_response : Uuid → PublicKey → Bytes → List Text → List Bytes
  compute_response id public_key challenge = map (λ key.
      hs.generic_hash none
        (key ++ (challenge ++ (hs.public_key_bytes public_key ++ hs.uuid_bytes id))))

  module _ (ent : Entropy) where
    -- `Hmac::new`; the draw is that of the random message.
    unfoldable pub new_hmac : ℕ → Bytes → Timestamp → ℕ → Option Hmac
    unfolding calculate_hmac
    new_hmac n hashed_key timestamp len = do
      let message = ent.randombytes_buf n len
      hmac ← calculate_hmac hashed_key message timestamp
      some (record { hmac = hmac; message = message })

    -- One HMAC for each key, of a message of random length.
    unfoldable pub hmac_each : List Bytes → Timestamp → ℕ → Option (List Hmac × ℕ)
    unfolding new_hmac
    hmac_each [] timestamp n = some ([], n)
    hmac_each (key ∷ keys) timestamp n =
        let others = hmac_each keys timestamp (n + 2) in
        do
          hmac ← new_hmac (n + 1) key timestamp (ent.gen_range n 69 420)
          (rest, n') ← others
          some (hmac ∷ rest, n')

    -- `Handshaker::compute_hmacs`.
    unfoldable pub compute_hmacs : Option (List Bytes) → Timestamp → Io → Option (List Hmac × Io)
    unfolding hmac_each
    compute_hmacs none timestamp io = some ([], io)
    compute_hmacs (some hashed_keys) timestamp io = do
      (hmacs, n) ← hmac_each hashed_keys timestamp io.draws
      some (hmacs, record io { draws = n })
