-- ===== src/PacketHandler/State.antt =====
-- packet_handler.rs: the state of the packet handler, and what it takes from other crates.
use gwyh.Base.{ℕ, ◌+◌, ◌-◌, ◌%◌, Bool, Option, none, List, [], ◌∷◌}
use gwyh.Base.Dict.{Dict}
use gwyh.External.{Uuid, SocketAddr, Bytes, PublicKey, SecretKey, Nonce, Timestamp, Handle}
use gwyh.NodeInfo.{NodeInfo}
use gwyh.Sequence.{Seq32, u32_modulus}
use gwyh.Message.{Message}
use gwyh.Packet.{Packet}
use gwyh.Actor.{Io, Interval, PeerKeys, cast, to_packet_handler, rate_control}

-- `lru::LruCache<Uuid, ()>`, over the type of its states.
pub record Lru (Seen : Type 0) : Type 0 where
  pub new : ℕ → Seen
  pub contains : Uuid → Seen → Bool
  pub put : Uuid → Seen → Seen

-- rmp_serde and dryoc; `none` for their errors. `scaled_delay n d` is the n-th draw of
-- `(d as f64 * rng.gen_range(2.0..=8.0)) as u64`.
pub record Crypto : Type 0 where
  pub encode_packet : Packet → Bytes
  pub decode_packet : Bytes → Option Packet
  pub encode_message : Message → Bytes
  pub decode_message : Bytes → Option Message
  pub encrypt_to_vecbox : Bytes → Nonce → PublicKey → SecretKey → Option Bytes
  pub decrypt_to_vec : Bytes → Nonce → PublicKey → SecretKey → Option Bytes
  pub scaled_delay : ℕ → ℕ → ℕ

abbrev pub rc_default_packet_interval_nanos : ℕ
rc_default_packet_interval_nanos = 10000

abbrev pub rc_timer_ms : ℕ
rc_timer_ms = 60000

abbrev pub rc_delay_decrease : ℕ
rc_delay_decrease = 100

abbrev pub seen_capacity : ℕ
seen_capacity = 10000

-- `u32` addition and subtraction, which wrap in a release build.
abbrev pub add_u32 : ℕ → ℕ → ℕ
add_u32 a b = (a + b) % u32_modulus

abbrev pub sub_u32 : ℕ → ℕ → ℕ
sub_u32 a b = (a + u32_modulus - b) % u32_modulus

pub record PacketHandler (Seen : Type 0) : Type 0 where
  pub nodeinfo : NodeInfo
  pub socket : Option Handle
  pub tx_sequences : Dict SocketAddr Seq32
  pub rx_sequences : Dict SocketAddr Seq32
  pub last_tx : Dict SocketAddr Timestamp
  pub nak_count : Dict SocketAddr ℕ
  pub tx_delay : Dict SocketAddr ℕ
  pub rc_sequences : Dict SocketAddr Seq32
  pub keys : Dict Uuid PeerKeys
  pub subscribers : List Uuid
  pub seen : Seen
  pub broadcast_handler_async : Option Handle
  pub broadcast_handler : Option Handle
  pub rate_control_timer : Interval
  pub io : Io

-- `PacketHandler::new`.
unfoldable pub new : {Seen : Type 0} → Lru Seen → NodeInfo → PacketHandler Seen
new lru nodeinfo = record {
  nodeinfo = nodeinfo;
  socket = none;
  tx_sequences = [];
  rx_sequences = [];
  last_tx = [];
  nak_count = [];
  tx_delay = [];
  rc_sequences = [];
  keys = [];
  subscribers = [];
  seen = lru.new seen_capacity;
  broadcast_handler_async = none;
  broadcast_handler = none;
  rate_control_timer = record {
    period = rc_timer_ms;
    ticks = to_packet_handler cast rate_control ∷ [];
  };
  io = record { out = []; draws = 0 };
}
