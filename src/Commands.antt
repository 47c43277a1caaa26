-- ===== src/Commands.antt =====
-- cmd/cmd.go, the command line, and discovery/service.go, the sentry's service. urfave/cli reads the
-- flags: its answers are given.
pub mod Started
mod Tests
use valtrack.Base.{
  ℕ, String, str_eq, List, [], ◌∷◌, Option, none, some, Error, wrap, Result, ok, err, Outcome,
  returns, panics, ◌>>=◌, if◌then◌else◌,
}
use Prim.Native.String.{◌++◌ as ◌^^◌}
use valtrack.Clickhouse.{ClickhouseConfig}
use valtrack.Consumer.Launch.{ConsumerConfig, Calls, Launched, run_consumer}
use valtrack.Consumer.Tracker.{Parsers}
use valtrack.Sentry.Wire.{Wire}
use valtrack.Sentry.Node.{Node}
use valtrack.Sentry.Discovery.{Network, Discovery}
use valtrack.Sentry.ReqResp.{Bitvector64}
use valtrack.Sentry.Configuration.{
  NodeConfig, default_node_config, Environment, get_ethereum_bootnodes,
}
use valtrack.Sentry.Startup.{NodeCalls, new_node, Service, start}

-- A flag for a text.
pub record StringFlag : Type 0 where
  pub name : String
  pub usage : String
  pub aliases : List String
  pub value : String

pub record Uint64Flag : Type 0 where
  pub name : String
  pub usage : String
  pub value : ℕ

-- `uuid` is the text of a new UUID.
unfoldable pub consumer_flags : String → List StringFlag
consumer_flags uuid =
    record { name = "log-level"; usage = "Log level"; aliases = "l" ∷ []; value = "info" }
    ∷ record {
      name = "nats-url";
      usage = "NATS server URL (needs JetStream)";
      aliases = "n" ∷ [];
      value = "nats://localhost:4222";
    }
    ∷ record { name = "name"; usage = "Consumer name"; aliases = []; value = "consumer-" ^^ uuid }
    ∷ record { name = "endpoint"; usage = "Clickhouse server endpoint"; aliases = []; value = "" }
    ∷ record { name = "db"; usage = "Clickhouse database name"; aliases = []; value = "default" }
    ∷ record { name = "username"; usage = "Clickhouse username"; aliases = []; value = "default" }
    ∷ record { name = "password"; usage = "Clickhouse password"; aliases = []; value = "" }
    ∷ record { name = "dune.namespace"; usage = "Dune namespace"; aliases = []; value = "" }
    ∷ record { name = "dune.api-key"; usage = "Dune API key"; aliases = []; value = "" }
    ∷ []

abbrev pub batch_size_flag : Uint64Flag
batch_size_flag = record {
  name = "batch-size";
  usage = "Clickhouse max validator batch size";
  value = 128;
}

unfoldable pub sentry_flags : List StringFlag
sentry_flags =
    record { name = "log-level"; usage = "log level"; aliases = "l" ∷ []; value = "info" }
    ∷ record {
      name = "nats-url";
      usage = "NATS server URL (needs JetStream)";
      aliases = "n" ∷ [];
      value = "";
    }
    ∷ []

-- `*cli.Context`: the values of the flags of a command, by the library.
pub record Context : Type 0 where
  pub string : String → String
  pub uint64 : String → ℕ

unfoldable pub consumer_config : Context → ConsumerConfig
consumer_config c = record {
  log_level = c.string "log-level";
  nats_url = c.string "nats-url";
  name = c.string "name";
  dune_namespace = c.string "dune.namespace";
  dune_api_key = c.string "dune.api-key";
  ch_cfg = record {
    endpoint = c.string "endpoint";
    db = c.string "db";
    username = c.string "username";
    password = c.string "password";
    max_validator_batch_size = c.uint64 "batch-size";
  };
}

-- The action of the consumer's command. The level of the log is left out.
unfoldable pub run_consumer_command :
    {F : Type 0} → Parsers F → Context → Calls F → Outcome (Launched F)
run_consumer_command P c calls = run_consumer P (consumer_config c) calls

-- NewDiscovery. `key` is the error of ecdsa.GenerateKey. The default configuration is shared: what is
-- set here stays set.
unfoldable pub new_discovery :
    {W : Wire}
    → Network W
    → Bitvector64
    → Environment
    → Option Error
    → NodeCalls
    → List W.Enode
    → String
    → Result (Node W × Discovery W)
new_discovery N B env (some e) calls bootnodes nats_url = err (wrap "failed to generate key" e)
new_discovery N B env none calls bootnodes nats_url =
    new_node N B env calls bootnodes (record default_node_config { nats_url = nats_url })

abbrev pub sentry_config : Context → NodeConfig
sentry_config c = record default_node_config { nats_url = c.string "nats-url" }

-- The action of the sentry's command, up to the wait for a signal: the node and the services that its
-- goroutine has started. The bootnodes are parsed when the program starts, and an error panics, whether
-- of NewDiscovery or, in the goroutine, of Start.
unfoldable pub run_sentry :
    {W : Wire}
    → Network W
    → Bitvector64
    → (String → Result W.Enode)
    → List String
    → Environment
    → Option Error
    → NodeCalls
    → Option Error
    → Context
    → Outcome (Node W × List Service)
run_sentry N B parse enrs env key calls gossip c = do
  bootnodes ← get_ethereum_bootnodes parse enrs
  let cfg = sentry_config c
  elim (new_discovery N B env key calls bootnodes cfg.nats_url) [
    | err e ↦ panics "discovery"
    | ok (n, disc) ↦
        let (n', services, r) = start cfg gossip n in
        elim r [ err e ↦ panics "start" | ok _ ↦ returns (n', services) ]
  ]
