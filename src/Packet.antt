-- ===== src/Packet.antt =====
-- packet.rs, and the handshake messages of handshake.rs that travel in a packet.
use gwyh.Base.{List, Option}
use gwyh.External.{Uuid, Bytes, Text, PublicKey, Nonce, Timestamp}
use gwyh.Sequence.{Seq32}

pub record Hmac : Type 0 where
  pub hmac : Bytes
  pub message : Bytes

pub data HandshakeStep : Type 0 where
  hello : PublicKey → Option Text → List Hmac → Timestamp → HandshakeStep
  ohai : PublicKey → Option Text → List Hmac → Bytes → HandshakeStep
  okboss : List Bytes → HandshakeStep
  goteam dead : HandshakeStep

pub record Handshake : Type 0 where
  pub id : Uuid
  pub step : HandshakeStep

-- A handshake travels unencrypted; a body is always encrypted (`VecBox` as its bytes).
pub data Payload : Type 0 where
  h : Handshake → Payload
  b : Bytes → Nonce → Payload

pub record Packet : Type 0 where
  pub s : Seq32
  pub id : Uuid
  pub p : Payload
