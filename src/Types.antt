-- ===== src/Types.antt =====
-- types/types.go: the events that the sentry publishes and the consumer stores. `int` and `int64`
-- fields are integers; a bit vector is its list of bytes.
use valtrack.Base.{ℕ, ℤ, String, List, Option}

pub record SimpleMetaData : Type 0 where
  pub seq_number : ℤ
  pub attnets : List ℕ
  pub syncnets : List ℕ

-- `meta_data` is the pointer field `MetaData`.
pub record MetadataReceivedEvent : Type 0 where
  pub enr : String
  pub id : String
  pub multiaddr : String
  pub epoch : ℤ
  pub meta_data : Option SimpleMetaData
  pub subscribed_subnets : List ℤ
  pub client_version : String
  pub crawler_id : String
  pub crawler_loc : String
  pub timestamp : ℤ

pub record PeerDiscoveredEvent : Type 0 where
  pub enr : String
  pub id : String
  pub ip : String
  pub port : ℤ
  pub crawler_id : String
  pub crawler_loc : String
  pub timestamp : ℤ

pub record ValidatorEvent : Type 0 where
  pub enr : String
  pub id : String
  pub multiaddr : String
  pub epoch : ℤ
  pub seq_number : ℤ
  pub attnets : String
  pub syncnets : String
  pub long_lived_subnets : List ℤ
  pub subscribed_subnets : List ℤ
  pub client_version : String
  pub crawler_id : String
  pub crawler_loc : String
  pub timestamp : ℤ
