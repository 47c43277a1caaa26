-- ===== src/Pipeline/Tests.antt =====
-- The theorem on the pipeline at a concrete input.
use valtrack.Base.{
  false, arith, ◌==◌, some, pos, ◌||◌, ◌++◌, ℕ, List, [], ◌∷◌, All, Bool, true, none, new, Result,
  ok, err, returns, ◌≡◌, refl,
}
use valtrack.Hex.{encode_to_string}
use valtrack.Consumer.Subnets.{indexes_from_bitfield, extract_short_lived_subnets}
use valtrack.Consumer.Messages.Channels.{RowsOf}
use valtrack.Clickhouse.{
  ClickhouseConfig, Arrival, Batcher, send_batch, prepare_batch, validator_event_batcher,
}
use valtrack.Clickhouse.{new_clickhouse_client, start_client, start as start_batcher}
use valtrack.Clickhouse.Batches.{concat}
use valtrack.Consumer.Messages.Fetching.{start}
use valtrack.Consumer.Tracker.{Parsers}
use valtrack.Consumer.Tracker.Setup.{setup_database, load_ip_metadata_from_csv}
use valtrack.Consumer.Launch.{
  Calls, Launched, launched, set_up_clickhouse, prepare_tables, start_consuming, run_consumer,
}
use valtrack.Consumer.Tests.Trackers.{parsers, no_rows}
use valtrack.Consumer.Tests.Launches.{config, calls}
use valtrack.Pipeline.Launches.{launched_rows_stored}
use valtrack.Clickhouse.Bounds.{IsAnswered}
use valtrack.Text.{Bytes}
use valtrack.Types.{MetadataReceivedEvent, ValidatorEvent}
use valtrack.Sentry.Tests.Systems.{handled_event}
use valtrack.Sentry.Tests.Turns.{fresh_one, fresh_one-IsFresh, over, over-Reaches, quiet_event}
use valtrack.Sentry.Publisher.{start_metadata_publisher}
use valtrack.Consumer.Messages.{
  Consumer, Message, Verdict, ack, handle_messages, handle_message, on_received,
  handle_metadata_event, is_ignored, accept, validator_event, store_metadata_event,
}
use valtrack.Pipeline.{AreMessagesOf, fresh_events_acknowledged}

abbrev marshal : MetadataReceivedEvent → Result Bytes
marshal event = ok (123 ∷ 125 ∷ [])

abbrev unmarshal : Bytes → Result MetadataReceivedEvent
unmarshal payload = ok quiet_event

abbrev message : MetadataReceivedEvent → Message
message event = record {
  subject = "events.metadata_received";
  metadata_known = true;
  discovered = err (new "invalid character");
  received = ok event;
  discovery_written = true;
  metadata_written = true;
  validator_written = true;
}

abbrev consumer : Consumer
consumer = record {
  discovery_rows = [];
  metadata_rows = [];
  validator_rows = [];
  validator_metadata_chan = [];
  validator_channel = none;
}

delivered :
    AreMessagesOf unmarshal
      (start_metadata_publisher marshal ((quiet_event, none) ∷ []))
      (message quiet_event ∷ [])
unfolding start_metadata_publisher
delivered = ((refl, refl, refl), tt)

-- Every bit is set.
abbrev all_set : List ℕ → ℕ → Bool
all_set bytes i = true

fresh_events_acknowledged_example :
    (vs : List Verdict) × (c' : Consumer) × (handle_messages all_set
        (message quiet_event ∷ [])
        consumer
      ≡ returns (vs, c'))
    × All (λ v. v ≡ ack) vs
fresh_events_acknowledged_example =
    fresh_events_acknowledged all_set fresh_one over marshal unmarshal ((quiet_event, none) ∷ [])
      (message quiet_event ∷ []) consumer fresh_one-IsFresh over-Reaches ((λ payload e. refl), tt)
      refl delivered

-- The subnets 1 and 2 are announced.
abbrev two_set : List ℕ → ℕ → Bool
two_set bytes i = i == 1 || i == 2

abbrev stored_event : ValidatorEvent
stored_event = record {
  enr = "";
  id = "peer";
  multiaddr = "/ip4/1.2.3.4/tcp/9000";
  epoch = pos 4;
  seq_number = pos 0;
  attnets = "ff";
  syncnets = "00";
  long_lived_subnets = pos 1 ∷ pos 2 ∷ [];
  subscribed_subnets = pos 3 ∷ pos 9 ∷ [];
  client_version = "Lighthouse";
  crawler_id = "machine";
  crawler_loc = "ams";
  timestamp = pos 0;
}

abbrev with_clickhouse : Consumer
with_clickhouse = record consumer { validator_channel = some [] }

abbrev stored : Consumer
stored = record {
  discovery_rows = [];
  metadata_rows = handled_event ∷ [];
  validator_rows = stored_event ∷ [];
  validator_metadata_chan = handled_event ∷ [];
  validator_channel = some (stored_event ∷ []);
}

stores :
    handle_messages two_set (message handled_event ∷ []) with_clickhouse
    ≡ returns (ack ∷ [], stored)
unfolding handle_messages handle_message on_received handle_metadata_event is_ignored accept
    validator_event store_metadata_event encode_to_string indexes_from_bitfield
    extract_short_lived_subnets
stores = refl

abbrev cfg : ClickhouseConfig
cfg = record {
  endpoint = "localhost:9000";
  db = "valtrack";
  username = "default";
  password = "";
  max_validator_batch_size = 1;
}

abbrev arrival : Arrival
arrival = record {
  row = stored_event;
  refused = none;
  sends = (record { is_sent = false; failed = none }) ∷ [];
  prepares = none ∷ [];
}

prepared_first : prepare_batch (none ∷ []) ≡ true
unfolding prepare_batch
prepared_first = refl

answered : IsAnswered arrival
unfolding send_batch prepare_batch
answered = ((λ e. cc), refl)

-- RunConsumer with an endpoint, and an interpreter of bits that finds the subnets 1 and 2.
abbrev two_parsers : Parsers ℕ
two_parsers = record parsers { bit_at = two_set }

abbrev ch_calls : Calls ℕ
ch_calls = record calls { create_database = none }

abbrev launched_one : Launched ℕ
launched_one =
    launched two_parsers config ch_calls (no_rows, [])
      (some (record { cfg = config.ch_cfg; validator_event_chan = [] }), true, []) (ok tt)

launches : run_consumer two_parsers config ch_calls ≡ returns launched_one
unfolding run_consumer prepare_tables setup_database load_ip_metadata_from_csv set_up_clickhouse
    new_clickhouse_client start_client start_batcher start_consuming start
launches = refl

launched_rows_stored_example :
    (b : Batcher) × (validator_event_batcher config.ch_cfg (none ∷ []) (arrival ∷ []) ≡ some b)
    × RowsOf two_set (handled_event ∷ []) (concat b.inserted ++ b.batch)
launched_rows_stored_example =
    launched_rows_stored two_parsers config ch_calls launched_one (message handled_event ∷ [])
      (ack ∷ []) stored (stored_event ∷ []) (none ∷ []) (arrival ∷ []) launches refl stores refl
      refl (omega arith) (omega arith) prepared_first (answered, tt) (((refl, tt), refl), tt)
