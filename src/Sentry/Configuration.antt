-- ===== src/Sentry/Configuration.antt =====
-- config/config.go but for Eth2EnrEntry, and the readers of the environment of pkg/ethereum/utils.go.
use valtrack.Base.{
  ℕ, String, str_eq, List, [], ◌∷◌, Result, ok, err, Outcome, returns, panics, ◌>>=◌, if◌then◌else◌,
}

-- The fields of DiscConfig that are used; `E` is the type of `*enode.Node`.
pub record DiscConfig (E : Type 0) : Type 0 where
  pub ip : String
  pub udp : ℕ
  pub tcp : ℕ
  pub db_path : String
  pub fork_digest : List ℕ
  pub log_path : String
  pub bootnodes : List E
  pub nats_url : String

abbrev pub mainnet_digest : List ℕ
mainnet_digest = 0x6a ∷ 0x95 ∷ 0xa1 ∷ 0xa9 ∷ []

-- The bootnodes are parsed when the program starts, and one that cannot be parsed stops it.
unfoldable pub get_ethereum_bootnodes :
    {E : Type 0} → (String → Result E) → List String → Outcome (List E)
get_ethereum_bootnodes parse [] = returns []
get_ethereum_bootnodes parse (enr ∷ enrs) = elim (parse enr) [
  | err e ↦ panics "bootnode"
  | ok node ↦ do nodes ← get_ethereum_bootnodes parse enrs; returns (node ∷ nodes)
]

unfoldable pub default_disc_config : {E : Type 0} → List E → DiscConfig E
default_disc_config bootnodes = record {
  ip = "0.0.0.0";
  udp = 9000;
  tcp = 9000;
  db_path = "";
  fork_digest = mainnet_digest;
  log_path = "discovery_events.log";
  bootnodes = bootnodes;
  nats_url = "";
}

-- NodeConfig, without the private key, the beacon configuration and the encoder, which the code only
-- hands on. The timeout is in nanoseconds.
pub record NodeConfig : Type 0 where
  pub fork_digest : List ℕ
  pub dial_timeout : ℕ
  pub concurrent_dialers : ℕ
  pub ip : String
  pub port : ℕ
  pub nats_url : String
  pub log_path : String

unfoldable pub default_node_config : NodeConfig
default_node_config = record {
  fork_digest = mainnet_digest;
  dial_timeout = 10000000000;
  concurrent_dialers = 64;
  ip = "0.0.0.0";
  port = 9000;
  nats_url = "";
  log_path = "metadata_events.log";
}

-- The environment variables NATS_URL, FLY_REGION and FLY_MACHINE_ID; an unset one reads as empty.
pub record Environment : Type 0 where
  pub nats_url : String
  pub fly_region : String
  pub fly_machine_id : String

unfoldable pub get_crawler_location : Environment → String
get_crawler_location env = if str_eq env.fly_region "" then "FLY_REGION" else env.fly_region

unfoldable pub get_crawler_machine_id : Environment → String
get_crawler_machine_id env =
    if str_eq env.fly_machine_id "" then "FLY_MACHINE_ID" else env.fly_machine_id
