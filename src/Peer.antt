-- ===== src/Peer.antt =====
-- peer.rs: what a node knows of another one.
use gwyh.Base.{Option, none, some, Bool, ◌&&◌, is_some}
use gwyh.External.{Uuid, SocketAddr, PublicKey, KeyPair, Timestamp, Text}

pub record Peer : Type 0 where
  pub our_keypair : Option KeyPair
  pub their_public_key : Option PublicKey
  pub handshake_timestamp : Option Timestamp
  pub sockaddr : SocketAddr
  pub id : Uuid
  pub zone : Option Text

-- `Peer::new`; `keypair` is what `KeyPair::gen` returns.
unfoldable pub new_peer :
    KeyPair → Option PublicKey → SocketAddr → Uuid → Option Timestamp → Option Text → Peer
new_peer keypair their_public_key sockaddr id handshake_timestamp zone = record {
  our_keypair = some keypair;
  their_public_key = their_public_key;
  handshake_timestamp = handshake_timestamp;
  sockaddr = sockaddr;
  id = id;
  zone = zone;
}

unfoldable pub is_handshaken : Peer → Bool
is_handshaken p = is_some p.our_keypair && is_some p.their_public_key

unfoldable pub set_their_public_key : PublicKey → Peer → Peer
set_their_public_key public_key p = record p { their_public_key = some public_key }

unfoldable pub set_id : Uuid → Peer → Peer
set_id id p = record p { id = id }

unfoldable pub set_zone : Option Text → Peer → Peer
set_zone zone p = record p { zone = zone }

-- What is left of a peer after serialisation: the `#[serde(skip)]` fields come back as `None`.
unfoldable pub without_secrets : Peer → Peer
without_secrets p = record p {
  our_keypair = none;
  their_public_key = none;
  handshake_timestamp = none;
}
