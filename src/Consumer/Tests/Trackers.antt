-- ===== src/Consumer/Tests/Trackers.antt =====
-- The theorems on the tracker at concrete inputs.
use valtrack.Base.{
  inl, ℕ, pos, String, str_eq, List, [], ◌∷◌, true, none, some, ok, err, returns, panics, false,
  ◌+◌, ◌≡◌, refl, arith, if◌then◌else◌,
}
use valtrack.Base.Dict.{lookup, insert as dict_insert}
use valtrack.Consumer.Subnets.{
  indexes_from_bitfield, extract_short_lived_subnets, indexes_loop, extract_loop, contains,
}
use valtrack.Consumer.Tracker.{
  TrackerRow, IpMetaData, Tables, Tracker, Observation, insert_tracker, insert_count, row_of, write,
  commit_if_full, record_count, observe, Step, observes, fetches_ip, Parsers, step, run_steps,
  opened, fetched, insert_ip_metadata, transaction,
}
use valtrack.Consumer.Tracker.Totals.{observed}
use valtrack.Consumer.Tracker.Counts.{Balanced, run_steps-Balanced}
use valtrack.Consumer.Tracker.Rounds.{run_steps-panics_iff}
use valtrack.Consumer.Tracker.Stale.{written_times, run_steps-stale}
use valtrack.Consumer.Tests.{low_bit, event, failure}

-- A text is one part, or two where it says where it splits.
abbrev pub parsers : Parsers ℕ
parsers = record {
  bit_at = low_bit;
  split = λ s. if str_eq s "52.3,4.8" then "52.3" ∷ "4.8" ∷ [] else s ∷ [];
  parse_float = λ s. if str_eq s "52.3" then 523 else 48;
}

abbrev seen_at : ℕ → Observation
seen_at time = record {
  event = record event { timestamp = pos time };
  maddr = none;
  ip4 = ok "1.2.3.4";
  ip6 = err failure;
  tcp = ok "9000";
  port = ok (pos 9000);
  query = none;
  ip_query = none;
  row_written = true;
  count_written = true;
  commits = true;
  begins = true;
}

abbrev answer : String → IpMetaData
answer position = record {
  ip = "1.2.3.4";
  hostname = "host";
  city = "Amsterdam";
  region = "North Holland";
  country = "NL";
  lat_long = position;
  postal = "1012";
  asn = "AS1";
  asn_org = "Host";
  asn_type = "hosting";
}

abbrev pub no_rows : Tables ℕ
no_rows = record { trackers = []; counts = []; ips = [] }

no_rows-Balanced : Balanced no_rows
unfolding observed lookup
no_rows-Balanced j = refl

abbrev row_at : ℕ → ℕ → TrackerRow
row_at time n = record (row_of (record event { timestamp = pos time }) "1.2.3.4" (pos 9000)) {
  total_observations = n;
}

abbrev after_one : Tracker ℕ
after_one = record {
  committed = no_rows;
  pending = record {
    trackers = ("peer", row_at 1000 1) ∷ [];
    counts = record { peer_id = "peer"; validator_count = 1; n_observations = 1 } ∷ [];
    ips = [];
  };
  batch_size = 1;
  fetches = "1.2.3.4" ∷ [];
  running = true;
}

abbrev after_two : Tracker ℕ
after_two = record {
  committed = no_rows;
  pending = record {
    trackers = ("peer", row_at 1000 2) ∷ [];
    counts = record { peer_id = "peer"; validator_count = 1; n_observations = 2 } ∷ [];
    ips = [];
  };
  batch_size = 2;
  fetches = "1.2.3.4" ∷ "1.2.3.4" ∷ [];
  running = true;
}

-- The 32nd write of a batch, after which no new transaction begins, and then an answer.
abbrev full : List Step
full =
    observes (record (seen_at 1000) { begins = false })
    ∷ fetches_ip true (ok (answer "52.3,4.8"))
    ∷ []

abbrev almost_full : Tracker ℕ
almost_full = record {
  committed = no_rows;
  pending = no_rows;
  batch_size = 31;
  fetches = [];
  running = true;
}

abbrev stopped : Tracker ℕ
stopped = record {
  committed = after_one.pending;
  pending = after_one.pending;
  batch_size = 32;
  fetches = "1.2.3.4" ∷ [];
  running = false;
}

stops :
    run_steps parsers (observes (record (seen_at 1000) { begins = false }) ∷ []) almost_full
    ≡ returns stopped
unfolding run_steps step observe record_count commit_if_full write insert_tracker insert_count
    lookup dict_insert indexes_from_bitfield indexes_loop extract_short_lived_subnets extract_loop
    contains low_bit
stops = refl

run_steps-panics_iff_example : (m : String) × (run_steps parsers full almost_full ≡ panics m)
run_steps-panics_iff_example = (run_steps-panics_iff parsers full almost_full).1 (
  observes (record (seen_at 1000) { begins = false }) ∷ [],
  fetches_ip true (ok (answer "52.3,4.8")),
  [],
  stopped,
  refl,
  stops,
  inl refl,
)

both_run :
    run_steps parsers (observes (seen_at 1000) ∷ observes (seen_at 2000) ∷ []) (opened no_rows)
    ≡ returns after_two
unfolding run_steps step opened observe record_count commit_if_full write insert_tracker
    insert_count lookup dict_insert indexes_from_bitfield indexes_loop extract_short_lived_subnets
    extract_loop contains low_bit
both_run = refl

run_steps-Balanced_example : Balanced after_two.committed × Balanced after_two.pending
run_steps-Balanced_example =
    run_steps-Balanced parsers (observes (seen_at 1000) ∷ observes (seen_at 2000) ∷ []) no_rows
      after_two no_rows-Balanced (refl, (refl, tt)) both_run

abbrev again : List Step
again = fetches_ip true (ok (answer "52.3,4.8")) ∷ observes (seen_at 2000) ∷ []

again_writes : written_times "peer" again ≡ 1
unfolding written_times
again_writes = refl

abbrev after_again : Tracker ℕ
after_again = record after_two {
  pending = record after_two.pending {
    ips = ("1.2.3.4", record { meta = answer "52.3,4.8"; latitude = 523; longitude = 48 }) ∷ [];
  };
  batch_size = 3;
}

again_run :
    run_steps parsers (observes (seen_at 1000) ∷ again) (opened no_rows) ≡ returns after_again
unfolding run_steps step opened observe record_count commit_if_full write insert_tracker
    insert_count lookup dict_insert indexes_from_bitfield indexes_loop extract_short_lived_subnets
    extract_loop contains low_bit fetched insert_ip_metadata transaction
again_run = refl

unrecorded :
    (lookup {V = TrackerRow} "peer" (opened no_rows).committed.trackers ≡ none)
    × (lookup {V = TrackerRow} "peer" (opened no_rows).pending.trackers ≡ none)
unfolding opened lookup
unrecorded = (refl, refl)

is_open : (opened no_rows).running ≡ true
unfolding opened
is_open = refl

is_empty : (opened no_rows).batch_size ≡ 0
unfolding opened
is_empty = refl

run_steps-stale_example :
    lookup "peer" after_again.pending.trackers
    ≡ some (record (row_of event "1.2.3.4" (pos 9000)) {
      last_seen = pos 1000;
      total_observations = 1 + written_times "peer" again;
    })
run_steps-stale_example =
    run_steps-stale parsers (seen_at 1000) "1.2.3.4" (pos 9000) again (opened no_rows) after_again
      is_open unrecorded.0 unrecorded.1 refl refl refl (rw is_empty (omega arith)) again_run
