-- ===== src/Handshaker/State.antt =====
-- handshake.rs: the state of one handshake and of the handshaker.
use gwyh.Base.{ℕ, ◌+◌, Bool, true, false, Option, none, some, List, [], ◌∷◌, ◌>>=◌}
use gwyh.Base.Dict.{Dict}
use gwyh.Base.Set
use gwyh.External.{
  Uuid, SocketAddr, Bytes, Text, PublicKey, Timestamp, Entropy, nil_uuid, Bytes-discrete,
}
use gwyh.NodeInfo.{NodeInfo}
use gwyh.Peer.{Peer, new_peer, set_their_public_key, set_id, set_zone}
use gwyh.Packet.{dead}
use gwyh.Actor.{Io, Delayed, AndThen, cast, to_handshaker, packet}
use gwyh.Handshaker.Hmac.{Hashing, handshake_timeout_millis, compute_response}

-- The phantom parameter of `HandshakeState`: what was sent last.
pub data Stage : Type 0 where
  hello ohai okboss : Stage

pub record HandshakeState (stage : Stage) : Type 0 where
  pub id : Uuid
  pub peer : Peer
  pub challenge : Option Bytes
  pub response : Option (List Bytes)
  pub timer : Option Delayed
  pub and_then : Option AndThen
  pub timestamp : Timestamp

-- The key of a handshake: its id and the address of the other node.
abbrev pub Key : Type 0
Key = ℕ × ℕ

pub record Handshaker : Type 0 where
  pub nodeinfo : NodeInfo
  pub hellos : Dict Key (HandshakeState hello)
  pub ohais : Dict Key (HandshakeState ohai)
  pub okbosses : Dict Key (HandshakeState okboss)
  pub inflight : List SocketAddr
  pub hashed_keys : Option (List Bytes)
  pub bootstrap_timer : Option Delayed
  pub io : Io

-- `Handshaker::new`.
unfoldable pub new : NodeInfo → Handshaker
new nodeinfo = record {
  nodeinfo = nodeinfo;
  hellos = [];
  ohais = [];
  okbosses = [];
  inflight = [];
  hashed_keys = none;
  bootstrap_timer = none;
  io = record { out = []; draws = 0 };
}

-- A timer that ends the handshake.
unfoldable pub start_timer : Uuid → SocketAddr → Delayed
start_timer id sockaddr = record {
  duration = handshake_timeout_millis;
  fires = to_handshaker cast (packet sockaddr (record { id = id; step = dead }) nil_uuid) ∷ [];
}

module _ (ent : Entropy) where
  -- `HandshakeState<Hello>::new`: the draws from `n` on are an id and a key pair.
  unfoldable pub new_hello : ℕ → SocketAddr → Option AndThen → Timestamp → HandshakeState hello
  unfolding new_peer start_timer
  new_hello n sockaddr and_then now =
      let id = ent.new_v4 n in
      record {
        id = id;
        peer = new_peer (ent.gen_keypair (n + 1)) none sockaddr nil_uuid (some now) none;
        challenge = none;
        response = none;
        timer = some (start_timer id sockaddr);
        and_then = and_then;
        timestamp = now;
      }

  -- `HandshakeState<Ohai>::from`: the draws from `n` on are a key pair and a challenge.
  unfoldable pub from_hello :
      ℕ → SocketAddr → Uuid → Uuid → PublicKey → Timestamp → Option Text → HandshakeState ohai
  unfolding new_peer start_timer
  from_hello n sockaddr node_id id their_public_key timestamp zone = record {
    id = id;
    peer =
        new_peer (ent.gen_keypair n) (some their_public_key) sockaddr node_id (some timestamp) zone;
    challenge = some (ent.randombytes_buf (n + 1) 69);
    response = none;
    timer = some (start_timer id sockaddr);
    and_then = none;
    timestamp = timestamp;
  }

abbrev pub is_nonempty : List Bytes → Bool
is_nonempty [] = false
is_nonempty (_ ∷ _) = true

module _ (hs : Hashing) where
  unfoldable pub got_ohai :
      HandshakeState hello
      → Uuid
      → PublicKey
      → Bytes
      → List Text
      → Option Text
      → HandshakeState okboss
  unfolding set_their_public_key set_id set_zone compute_response
  got_ohai self node_id public_key challenge keys zone = record {
    id = self.id;
    peer = set_zone zone (set_id node_id (set_their_public_key public_key self.peer));
    challenge = self.challenge;
    response = some (compute_response hs self.id public_key challenge keys);
    timer = none;
    and_then = self.and_then;
    timestamp = self.timestamp;
  }

  -- Whether the response is one of those expected. The outer `none` is a panic of an `unwrap`.
  unfoldable pub got_okboss : HandshakeState ohai → List Bytes → List Text → Option Bool
  unfolding compute_response
  got_okboss self response keys = do
    keypair ← self.peer.our_keypair
    challenge ← self.challenge
    let expected =
        Set.from_iter Bytes-discrete (compute_response hs self.id keypair.public_key challenge keys)
    let received = Set.from_iter Bytes-discrete response
    some (is_nonempty (Set.intersection Bytes-discrete expected received))
