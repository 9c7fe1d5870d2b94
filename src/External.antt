-- ===== src/External.antt =====
-- What the crates outside the repository supply. Identifiers, addresses, keys, nonces, instants and
-- handles are opaque values that the code only copies and compares: they stand as numbers. Texts
-- and byte strings are lists of bytes. Randomness is a supply that is read draw by draw.
use gwyh.Base.{ℕ, ◌≤◌, ◌<◌, ◌%◌, ◌^◌, List, Option, ℕ_discrete}

abbrev pub Bytes : Type 0
Bytes = List ℕ

-- `String`, as its UTF-8 bytes.
abbrev pub Text : Type 0
Text = List ℕ

abbrev pub Uuid : Type 0
Uuid = ℕ

abbrev pub SocketAddr : Type 0
SocketAddr = ℕ

abbrev pub PublicKey : Type 0
PublicKey = ℕ

abbrev pub SecretKey : Type 0
SecretKey = ℕ

abbrev pub Nonce : Type 0
Nonce = ℕ

-- `DateTime<Utc>` and `Instant`, in nanoseconds since the earliest representable one.
abbrev pub Timestamp : Type 0
Timestamp = ℕ

-- Handles of shared objects: `Arc<UdpSocket>`, `Arc<Notify>`, `Arc<dyn GwyhHandler>`.
abbrev pub Handle : Type 0
Handle = ℕ

-- `dryoc::dryocbox::KeyPair`.
pub record KeyPair : Type 0 where
  pub public_key : PublicKey
  pub secret_key : SecretKey

-- `Uuid::nil()`.
abbrev pub nil_uuid : Uuid
nil_uuid = 0

-- `Uuid::as_u64_pair().1`: the low 64 bits.
abbrev pub uuid_lsb : Uuid → ℕ
uuid_lsb id = id % 2 ^ 64

-- The random sources (`Uuid::new_v4`, `KeyPair::gen`, `Nonce::gen`, `randombytes_buf`,
-- `Rng::gen_range`). The first argument of each is the number of the draw.
pub record Entropy : Type 0 where
  pub new_v4 : ℕ → Uuid
  pub gen_keypair : ℕ → KeyPair
  pub gen_nonce : ℕ → Nonce
  pub randombytes_buf : ℕ → ℕ → Bytes
  pub gen_range : ℕ → ℕ → ℕ → ℕ

-- `rng.gen_range(low..high)` stays in the half-open range.
abbrev pub GenRangeInBounds : Entropy → Type 0
GenRangeInBounds ent =
    (n low high : ℕ)
    → low < high
    → (low ≤ ent.gen_range n low high) × (ent.gen_range n low high < high)

unfoldable pub Bytes-discrete : Discrete Bytes
unfolding ℕ_discrete
Bytes-discrete = hlevel ℕ_discrete

unfoldable pub Zone-discrete : Discrete (Option Text)
unfolding ℕ_discrete
Zone-discrete = hlevel ℕ_discrete

unfoldable pub Pair-discrete : Discrete (ℕ × ℕ)
unfolding ℕ_discrete
Pair-discrete = hlevel ℕ_discrete
