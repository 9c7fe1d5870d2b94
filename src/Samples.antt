-- ===== src/Samples.antt =====
-- Test data: two nodes, a source of randomness and hashes that only concatenate.
pub mod Wire
pub mod Handshakers
use gwyh.Base.{ℕ, zero, suc, ◌+◌, true, Option, none, some, List, [], ◌∷◌, ◌++◌}
use gwyh.External.{Uuid, SocketAddr, Bytes, Text, Timestamp, KeyPair, Entropy}
use gwyh.NodeInfo.{NodeInfo, uniform}
use gwyh.Peer.{Peer}
use gwyh.Handshaker.Hmac.{Hashing}

abbrev pub pair : ℕ → KeyPair
pair n = record { public_key = n; secret_key = n }

abbrev pub entropy : Entropy
entropy = record {
  new_v4 = λ n. 100 + n;
  gen_keypair = pair;
  gen_nonce = λ n. n;
  randombytes_buf = λ n len. n ∷ [];
  gen_range = λ n low high. low;
}

abbrev hash_with : Option Bytes → Bytes → Bytes
hash_with none message = message
hash_with (some key) message = key ++ message

abbrev pub hashing : Hashing
hashing = record {
  generic_hash = hash_with;
  hash_key = λ key. some key;
  has_nanos = λ t. true;
  nanos_text = λ t. t ∷ [];
  public_key_bytes = λ k. k ∷ [];
  uuid_bytes = λ id. id ∷ [];
}

abbrev pub password : Text
password = 7 ∷ []

abbrev pub node : Uuid → NodeInfo
node id = record {
  bind_addr = [];
  keys = password ∷ [];
  peers = [];
  id = id;
  peer_subscriptions = 1;
  zone = none;
  distribution_strategy = uniform;
}

-- A peer at an address, with both keys since the given instant.
abbrev pub peer : Uuid → SocketAddr → Timestamp → Peer
peer id addr t = record {
  our_keypair = some (pair 8);
  their_public_key = some 9;
  handshake_timestamp = some t;
  sockaddr = addr;
  id = id;
  zone = none;
}

-- The first elements of a list.
abbrev pub first {ℓ} : {A : Type ℓ} → ℕ → List A → List A
first zero l = []
first (suc n) [] = []
first (suc n) (x ∷ l) = x ∷ first n l
