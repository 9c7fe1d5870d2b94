-- ===== src/NodeInfo.antt =====
-- nodeinfo.rs, and `DistributionStrategy` of lib.rs.
use gwyh.Base.{ℕ, Option, List}
use gwyh.External.{Uuid, Text}

pub data DistributionStrategy : Type 0 where
  uniform hub_and_spoke prefer_local prefer_remote : DistributionStrategy

pub record NodeInfo : Type 0 where
  pub bind_addr : Text
  pub keys : List Text
  pub peers : List Text
  pub id : Uuid
  pub peer_subscriptions : ℕ
  pub zone : Option Text
  pub distribution_strategy : DistributionStrategy

-- `NodeInfo::new`; the first argument is what `Uuid::new_v4` returns.
unfoldable pub new_node_info :
    Uuid → Text → List Text → List Text → ℕ → Option Text → DistributionStrategy → NodeInfo
new_node_info id bind_addr keys peers peer_subscriptions zone distribution_strategy = record {
  bind_addr = bind_addr;
  keys = keys;
  peers = peers;
  id = id;
  peer_subscriptions = peer_subscriptions;
  zone = zone;
  distribution_strategy = distribution_strategy;
}
