-- ===== src/Message.antt =====
-- message.rs, and the requests of peer_manager.rs that travel in a message.
use gwyh.Base.{ℕ, List}
use gwyh.External.{Uuid, Bytes}
use gwyh.Peer.{Peer}

pub data PeerState : Type 0 where
  up down : PeerState

pub record PeerStatus : Type 0 where
  pub peer : Peer
  pub state : PeerState

pub data PeerRequest : Type 0 where
  peer_list : PeerRequest
  peers : List Peer → PeerRequest
  peer_status : PeerStatus → PeerRequest
  start_subscription subscription_started end_subscription heartbeat : PeerRequest

pub record Frame : Type 0 where
  pub len : ℕ
  pub idx : ℕ
  pub contents : Bytes

-- `Range<u32>`.
pub record Range : Type 0 where
  pub start : ℕ
  pub end : ℕ

pub data Body : Type 0 where
  broadcast : Bytes → Body
  peer_request : PeerRequest → Body
  frame : Frame → Body
  nak : Range → Body

pub record Message : Type 0 where
  pub id : Uuid
  pub body : Body
