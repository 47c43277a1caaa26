-- ===== src/Consumer/Tests/Launches.antt =====
-- The theorems on the start of the consumer at concrete inputs.
use valtrack.Base.{ℕ, pos, [], ◌∷◌, true, false, none, some, wrap, ok, returns, ◌≡◌, ◌↔◌, refl}
use valtrack.Clickhouse.{new_clickhouse_client, start_client, start as start_batcher}
use valtrack.Consumer.Messages.Fetching.{start}
use valtrack.Consumer.Tracker.Setup.{CsvAnswers, setup_database, load_ip_metadata_from_csv}
use valtrack.Consumer.Launch.{
  ConsumerConfig, Calls, Launched, launched, set_up_clickhouse, prepare_tables, start_consuming,
  run_consumer,
}
use valtrack.Consumer.Launch.Failures.{
  HasAll, IsLaunched, run_consumer-returns_iff, run_consumer-IsLaunched,
}
use valtrack.Consumer.Tests.{failure}
use valtrack.Consumer.Tests.Trackers.{parsers, no_rows}

abbrev pub config : ConsumerConfig
config = record {
  log_level = "info";
  nats_url = "nats://localhost:4222";
  name = "consumer-1";
  ch_cfg = record {
    endpoint = "localhost:9000";
    db = "valtrack";
    username = "default";
    password = "";
    max_validator_batch_size = 1;
  };
  dune_namespace = "";
  dune_api_key = "";
}

-- The table of addresses is full already.
abbrev full : CsvAnswers
full = record {
  records = ok [];
  row_count = ok (pos 7);
  begins = true;
  prepares = true;
  commits = true;
  written = λ r. true;
  asn_of = λ s. record { asn = ""; asn_organization = ""; type = "" };
}

abbrev pub calls : Calls ℕ
calls = record {
  open_db = none;
  tables = no_rows;
  tracker_table = none;
  ip_table = none;
  counts_table = none;
  csv = full;
  connect = λ url. none;
  jetstream = λ connected. none;
  discovery_file = none;
  metadata_file = some failure;
  validator_file = none;
  discovery_writer = none;
  metadata_writer = none;
  validator_writer = none;
  open_clickhouse = λ options. none;
  create_database = some failure;
  create_table = none;
  stream = none;
  create_consumer = none;
  ipinfo_token = "";
}

abbrev pub at_work : Launched ℕ
at_work =
    launched parsers config calls (no_rows, [])
      (
        some (record { cfg = config.ch_cfg; validator_event_chan = [] }),
        false,
        wrap "Error starting Clickhouse client" failure ∷ [],
      )
      (ok tt)

launches : run_consumer parsers config calls ≡ returns at_work
unfolding run_consumer prepare_tables setup_database load_ip_metadata_from_csv set_up_clickhouse
    new_clickhouse_client start_client start_batcher start_consuming start
launches = refl

run_consumer-returns_iff_example :
    ((l : Launched ℕ) × (run_consumer parsers config calls ≡ returns l))
    ↔ HasAll parsers config calls
run_consumer-returns_iff_example = run_consumer-returns_iff parsers config calls

-- ClickHouse could not be set up, and the consumer goes on with its channel.
run_consumer-IsLaunched_example : IsLaunched parsers config calls at_work
run_consumer-IsLaunched_example = run_consumer-IsLaunched parsers config calls at_work launches
