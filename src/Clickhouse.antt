-- ===== src/Clickhouse.antt =====
-- clickhouse/client.go: the client that collects the consumer's rows into batches and sends each
-- until it is taken. What the driver answers to each call is given.
pub mod Batches
pub mod Bounds
mod Tests
use Prim.Native.String.{◌++◌ as ◌^^◌}
use valtrack.Base.{
  ℕ, ◌+◌, ◌%◌, ltb, String, List, [], ◌∷◌, ◌++◌, Bool, true, false, Option, none, some, Error,
  Result, ok, err, Outcome, returns, panics, if◌then◌else◌,
}
use valtrack.Types.{ValidatorEvent}

pub record ClickhouseConfig : Type 0 where
  pub endpoint : String
  pub db : String
  pub username : String
  pub password : String
  pub max_validator_batch_size : ℕ

-- One try to send the batch: what `IsSent` answers, and the error of `Send`, if it is called.
pub record Attempt : Type 0 where
  pub is_sent : Bool
  pub failed : Option Error

-- How the loop over the tries ends. `trying` is that of a loop that has not ended after the tries given.
pub data Sending : Type 0 where
  taken given_up trying : Sending

-- A row that comes in, the error of `AppendStruct`, and, in case the batch is sent with it, the tries
-- to send and then to prepare the next batch.
pub record Arrival : Type 0 where
  pub row : ValidatorEvent
  pub refused : Option Error
  pub sends : List Attempt
  pub prepares : List (Option Error)

-- `count` is a `uint64`. `inserted` has the batches that ClickHouse took, oldest first, and `dropped`
-- those that the driver said were sent already.
pub record Batcher : Type 0 where
  pub batch : List ValidatorEvent
  pub count : ℕ
  pub inserted : List (List ValidatorEvent)
  pub dropped : List (List ValidatorEvent)

unfoldable pub validator_metadata_ddl : String → String
validator_metadata_ddl db =
    "CREATE TABLE IF NOT EXISTS " ^^ db
    ^^ ".validator_metadata (\n\t\tenr String,\n\t\tid String,\n\t\tmultiaddr String,\n\t\tepoch Int32,\n\t\tseq_number Int64,\n"
    ^^ "\t\tsyncnets String,\n\t\tattnets String,\n\t\tlong_lived_subnets Array(Int64),\n\t\tsubscribed_subnets Array(Int64),\n"
    ^^ "\t\tclient_version String,\n\t\tcrawler_id String,\n\t\tcrawler_location String,\n\t\ttimestamp Int64,\n"
    ^^ "\t) ENGINE = MergeTree()\nPRIMARY KEY (id, timestamp)"

-- Start, given the errors of the two statements: the statements that it runs. The batcher is started if
-- neither fails.
unfoldable pub start :
    ClickhouseConfig → Option Error → Option Error → List String × Result (Unit {0})
unfolding validator_metadata_ddl
start cfg undone untabled =
    let database = "CREATE DATABASE IF NOT EXISTS " ^^ cfg.db in
    elim undone [
      | some e ↦ (database ∷ [], err e)
      | none ↦ (
        database ∷ validator_metadata_ddl cfg.db ∷ [],
        elim untabled [ some e ↦ err e | none ↦ ok tt ],
      )
    ]

-- `clickhouse.Options`, but for the debug logger. The timeout is in nanoseconds.
pub record Options : Type 0 where
  pub addr : List String
  pub dial_timeout : ℕ
  pub database : String
  pub username : String
  pub password : String
  pub insecure_skip_verify : Bool

-- The channel holds 16384 rows.
pub record ClickhouseClient : Type 0 where
  pub cfg : ClickhouseConfig
  pub validator_event_chan : List ValidatorEvent

unfoldable pub connection_options : ClickhouseConfig → Options
connection_options cfg = record {
  addr = cfg.endpoint ∷ [];
  dial_timeout = 60000000000;
  database = cfg.db;
  username = cfg.username;
  password = cfg.password;
  insecure_skip_verify = true;
}

-- NewClickhouseClient, given the error of `clickhouse.Open`.
unfoldable pub new_clickhouse_client :
    (Options → Option Error) → ClickhouseConfig → Result ClickhouseClient
new_clickhouse_client failed cfg = elim (failed (connection_options cfg)) [
  | some e ↦ err e
  | none ↦ ok (record { cfg = cfg; validator_event_chan = [] })
]

-- Start, called on a pointer: its first statement reads the client's logger, so a nil pointer panics.
unfoldable pub start_client :
    Option ClickhouseClient
    → Option Error
    → Option Error
    → Outcome (List String × Result (Unit {0}))
start_client none unmade untabled = panics "invalid memory address or nil pointer dereference"
start_client (some c) unmade untabled = returns (start c.cfg unmade untabled)

unfoldable pub send_batch : List Attempt → Sending
send_batch [] = trying
send_batch (a ∷ attempts) =
    let rest = send_batch attempts in
    if a.is_sent then given_up else elim a.failed [ none ↦ taken | some e ↦ rest ]

-- Whether a batch is prepared within the tries.
unfoldable pub prepare_batch : List (Option Error) → Bool
prepare_batch [] = false
prepare_batch (none ∷ answers) = true
prepare_batch (some e ∷ answers) = prepare_batch answers

abbrev pub appended : Option Error → ValidatorEvent → List ValidatorEvent → List ValidatorEvent
appended none row rows = rows ++ (row ∷ [])
appended (some e) row rows = rows

-- The next batch, if one is prepared within the tries.
abbrev pub prepared : List (Option Error) → Batcher → Option Batcher
prepared answers b = if prepare_batch answers then some (record b { batch = [] }) else none

-- The batch is sent and another prepared; no value where the loops have not ended.
unfoldable pub flush : List Attempt → List (Option Error) → Batcher → Option Batcher
unfolding send_batch prepare_batch
flush sends prepares b = elim (send_batch sends) [
  | trying ↦ none
  | taken ↦ prepared prepares (record b { count = 0; inserted = b.inserted ++ (b.batch ∷ []) })
  | given_up ↦ prepared prepares (record b { count = 0; dropped = b.dropped ++ (b.batch ∷ []) })
]

-- The loop's body: a row that the batch refuses is counted all the same.
unfoldable pub receive : ℕ → Arrival → Batcher → Option Batcher
unfolding flush
receive max a b =
    let b' = record b {
      batch = appended a.refused a.row b.batch;
      count = (b.count + 1) % 18446744073709551616;
    } in
    if ltb b'.count max then some b' else flush a.sends a.prepares b'

-- `for row := range c.ValidatorEventChan`
unfoldable pub receive_all : ℕ → List Arrival → Batcher → Option Batcher
unfolding receive
receive_all max [] b = some b
receive_all max (a ∷ arrivals) b = elim (receive max a b) [
  | none ↦ none
  | some b' ↦ receive_all max arrivals b'
]

abbrev pub empty_batcher : Batcher
empty_batcher = record { batch = []; count = 0; inserted = []; dropped = [] }

-- validatorEventBatcher: prepare the first batch, then take the rows.
unfoldable pub validator_event_batcher :
    ClickhouseConfig → List (Option Error) → List Arrival → Option Batcher
unfolding receive_all
validator_event_batcher cfg prepares arrivals =
    if prepare_batch prepares
    then receive_all cfg.max_validator_batch_size arrivals empty_batcher
    else none
