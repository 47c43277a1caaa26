-- ===== src/Consumer/Launch.antt =====
-- RunConsumer of consumer/consumer.go: how the consumer comes up. Each error is logged, and the
-- function goes on with what it has. The answers of the calls that can fail are given; `none` is a nil
-- error.
pub mod Failures
use valtrack.Base.{
  ℕ, String, str_eq, List, [], ◌∷◌, ◌++◌, map, Bool, true, false, Option, none, some, is_none,
  Error, wrap, Result, ok, err, Outcome, returns, panics, ◌>>=◌, if◌then◌else◌,
}
use valtrack.Types.{ValidatorEvent}
use valtrack.Clickhouse.{
  ClickhouseConfig, Options, ClickhouseClient, new_clickhouse_client, start_client,
}
use valtrack.Consumer.Messages.{Consumer, nil_deref}
use valtrack.Consumer.Messages.Fetching.{start}
use valtrack.Consumer.Tracker.{Tables, Parsers}
use valtrack.Consumer.Tracker.Setup.{CsvAnswers, setup_database, load_ip_metadata_from_csv}
use valtrack.Consumer.Dune.{Dune, Formats, Answers, Session, publish_to_dune}

pub record ConsumerConfig : Type 0 where
  pub log_level : String
  pub nats_url : String
  pub name : String
  pub ch_cfg : ClickhouseConfig
  pub dune_namespace : String
  pub dune_api_key : String

-- What is there and what is answered: the database's tables, the errors of the three statements of
-- setupDatabase, `jetstream.New` on a connection that may be nil, the errors for the three Parquet
-- files and of their writers, the driver's, and those of consumer.Start.
pub record Calls (F : Type 0) : Type 0 where
  pub open_db : Option Error
  pub tables : Tables F
  pub tracker_table : Option Error
  pub ip_table : Option Error
  pub counts_table : Option Error
  pub csv : CsvAnswers
  pub connect : String → Option Error
  pub jetstream : Bool → Option Error
  pub discovery_file : Option Error
  pub metadata_file : Option Error
  pub validator_file : Option Error
  pub discovery_writer : Option Error
  pub metadata_writer : Option Error
  pub validator_writer : Option Error
  pub open_clickhouse : Options → Option Error
  pub create_database : Option Error
  pub create_table : Option Error
  pub stream : Option Error
  pub create_consumer : Option Error
  pub ipinfo_token : String

-- The consumer at work. `batcher` tells whether the rows on the channel to ClickHouse are read, `started`
-- what consumer.Start returned, and `logged` has the errors, oldest first.
pub record Launched (F : Type 0) : Type 0 where
  pub consumer : Consumer
  pub tables : Tables F
  pub batcher : Bool
  pub dune : Option Dune
  pub token : String
  pub started : Result (Unit {0})
  pub logged : List Error

-- `if err != nil { log.Error().Err(err).Msg(message) }`
abbrev pub noted : String → Option Error → List Error
noted message none = []
noted message (some e) = wrap message e ∷ []

abbrev pub error_of : {A : Type 0} → Result A → Option Error
error_of (ok a) = none
error_of (err e) = some e

abbrev pub pointer_of : {A : Type 0} → Result A → Option A
pointer_of (ok a) = some a
pointer_of (err e) = none

-- The ClickHouse configuration is copied field by field.
abbrev pub copy_of : ClickhouseConfig → ClickhouseConfig
copy_of cfg = record {
  endpoint = cfg.endpoint;
  db = cfg.db;
  username = cfg.username;
  password = cfg.password;
  max_validator_batch_size = cfg.max_validator_batch_size;
}

-- The pointer to the client, whether its batcher runs, and the errors. With no endpoint there is none.
unfoldable pub set_up_clickhouse :
    (Options → Option Error)
    → Option Error
    → Option Error
    → ClickhouseConfig
    → Outcome (Option ClickhouseClient × Bool × List Error)
set_up_clickhouse failed unmade untabled cfg =
    if str_eq cfg.endpoint "" then returns (none, false, []) else (do
      let made = new_clickhouse_client failed cfg
      (_, r) ← start_client (pointer_of made) unmade untabled
      returns (
        pointer_of made,
        is_none (error_of r),
        noted "Error creating Clickhouse client" (error_of made)
            ++ noted "Error starting Clickhouse client" (error_of r),
      ))

abbrev pub channel_of : Option ClickhouseClient → Option (List ValidatorEvent)
channel_of none = none
channel_of (some c) = some c.validator_event_chan

unfoldable pub dune_of : ConsumerConfig → Option Dune
dune_of cfg =
    if str_eq cfg.dune_api_key ""
    then none
    else some (record { namespace = cfg.dune_namespace; api_key = cfg.dune_api_key })

-- The goroutine that publishes to Dune, at once and then at each tick; an error does not end it.
unfoldable pub publish_periodically :
    {F : Type 0} → Formats F → Dune → List (Answers F) → List (Session (Unit {0}))
publish_periodically W d [] = []
publish_periodically W d (a ∷ answers) = publish_to_dune W d a ∷ publish_periodically W d answers

module _ {F : Type 0} (P : Parsers F) where
  -- The tables, and the errors. The statements of setupDatabase are run on the pointer that `sql.Open`
  -- returned, which is nil after an error; database/sql follows it.
  unfoldable pub prepare_tables : Calls F → Outcome (Tables F × List Error)
  prepare_tables calls = elim calls.open_db [
    | some e ↦ panics nil_deref
    | none ↦ do
      let (_, failed) = setup_database calls.tracker_table calls.ip_table calls.counts_table
      tables ← load_ip_metadata_from_csv P calls.csv calls.tables
      returns (tables, noted "Error setting up database" failed)
  ]

  -- `jetstream.New` leaves a nil interface after an error, and consumer.Start, which a goroutine of the
  -- process runs, calls its method. The timing of that goroutine is left out.
  unfoldable pub start_consuming : Bool → Calls F → Outcome (Result (Unit {0}))
  start_consuming js calls =
      if js then returns (start calls.stream calls.create_consumer) else panics nil_deref

  abbrev pub is_connected : ConsumerConfig → Calls F → Bool
  is_connected cfg calls = is_none (calls.connect cfg.nats_url)

  -- The consumer, from the tables, the client and what consumer.Start returned.
  abbrev pub launched :
      ConsumerConfig
      → Calls F
      → Tables F × List Error
      → Option ClickhouseClient × Bool × List Error
      → Result (Unit {0})
      → Launched F
  launched cfg calls (tables, db_errors) (client, batcher, ch_errors) started = record {
    consumer = record {
      discovery_rows = [];
      metadata_rows = [];
      validator_rows = [];
      validator_metadata_chan = [];
      validator_channel = channel_of client;
    };
    tables = tables;
    batcher = batcher;
    dune = dune_of cfg;
    token = calls.ipinfo_token;
    started = started;
    logged =
        db_errors
        ++ (noted "Error connecting to NATS" (calls.connect cfg.nats_url)
            ++ (noted "Error creating JetStream context" (calls.jetstream (is_connected cfg calls))
                ++ (noted "Error creating discovery events parquet file" calls.discovery_file
                    ++ (noted "Error creating metadata events parquet file" calls.metadata_file
                        ++ (noted "Error creating validator parquet file" calls.validator_file
                            ++ (noted "Error creating Peer discovered Parquet writer"
                                  calls.discovery_writer
                                ++ (noted "Error creating Metadata Parquet writer"
                                      calls.metadata_writer
                                    ++ (noted "Error creating Validator Parquet writer"
                                          calls.validator_writer
                                        ++ (ch_errors
                                            ++ noted "Error in consumer"
                                                (error_of started))))))))));
  }

  -- RunConsumer, up to the wait for a signal.
  unfoldable pub run_consumer : ConsumerConfig → Calls F → Outcome (Launched F)
  run_consumer cfg calls = do
    tables ← prepare_tables calls
    client ←
        set_up_clickhouse calls.open_clickhouse calls.create_database calls.create_table
          (copy_of cfg.ch_cfg)
    started ← start_consuming (is_none (calls.jetstream (is_connected cfg calls))) calls
    returns (launched cfg calls tables client started)
