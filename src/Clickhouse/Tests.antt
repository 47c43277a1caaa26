-- ===== src/Clickhouse/Tests.antt =====
-- The theorems on the batches at concrete inputs.
use valtrack.Base.{
  List, [], ◌∷◌, ◌++◌, true, false, Option, none, some, Error, new, ◌≡◌, refl, arith, pos,
}
use valtrack.Types.{ValidatorEvent}
use valtrack.Clickhouse.{
  ClickhouseConfig, Arrival, Batcher, send_batch, prepare_batch, flush, receive, receive_all,
  validator_event_batcher,
}
use valtrack.Clickhouse.Batches.{concat}
use valtrack.Clickhouse.Bounds.{IsFilled, IsWhole, IsAnswered, validator_event_batcher-chunks}

abbrev row : ValidatorEvent
row = record {
  enr = "enr:-a";
  id = "peer";
  multiaddr = "/ip4/1.2.3.4/tcp/9000";
  epoch = pos 4;
  seq_number = pos 0;
  attnets = "0000000000000380";
  syncnets = "00";
  long_lived_subnets = pos 61 ∷ pos 62 ∷ [];
  subscribed_subnets = pos 3 ∷ [];
  client_version = "Lighthouse";
  crawler_id = "machine";
  crawler_loc = "ams";
  timestamp = pos 1000;
}

abbrev other_row : ValidatorEvent
other_row = record row { id = "other" }

abbrev lost : Error
lost = new "connection reset"

-- The batch goes out on the second try.
abbrev arrival : ValidatorEvent → Option Error → Arrival
arrival r refused = record {
  row = r;
  refused = refused;
  sends =
      (record { is_sent = false; failed = some lost })
      ∷ (record { is_sent = false; failed = none })
      ∷ [];
  prepares = some lost ∷ none ∷ [];
}

abbrev cfg : ClickhouseConfig
cfg = record {
  endpoint = "localhost:9000";
  db = "valtrack";
  username = "default";
  password = "";
  max_validator_batch_size = 2;
}

abbrev arrivals : List Arrival
arrivals = arrival row none ∷ arrival other_row (some lost) ∷ arrival other_row none ∷ []

abbrev batched : Batcher
batched = record { batch = other_row ∷ []; count = 1; inserted = (row ∷ []) ∷ []; dropped = [] }

batched-run : validator_event_batcher cfg (none ∷ []) arrivals ≡ some batched
unfolding validator_event_batcher receive_all receive flush send_batch prepare_batch
batched-run = refl

abbrev whole_arrivals : List Arrival
whole_arrivals = arrival row none ∷ arrival other_row none ∷ arrival row none ∷ []

prepared_first : prepare_batch (none ∷ []) ≡ true
unfolding prepare_batch
prepared_first = refl

answered : (r : ValidatorEvent) → IsAnswered (arrival r none)
unfolding send_batch prepare_batch
answered r = ((λ e. cc), refl)

whole : (r : ValidatorEvent) → IsWhole (arrival r none)
whole r = ((refl, (refl, tt)), refl)

validator_event_batcher-chunks_example :
    (b : Batcher) × (validator_event_batcher cfg (none ∷ []) whole_arrivals ≡ some b)
    × (concat b.inserted ++ b.batch ≡ row ∷ other_row ∷ row ∷ [])
    × IsFilled 2 b
validator_event_batcher-chunks_example =
    validator_event_batcher-chunks cfg (none ∷ []) whole_arrivals (omega arith) (omega arith)
      prepared_first (answered row, (answered other_row, (answered row, tt)))
      (whole row, (whole other_row, (whole row, tt)))
