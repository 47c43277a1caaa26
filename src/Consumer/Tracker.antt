-- ===== src/Consumer/Tracker.antt =====
-- consumer/db.go: the handler that keeps a table of validators, batching its writes in transactions.
-- The three tables are modelled by what the file's SQL statements do to them. A query on `c.db` reads
-- the committed tables and a statement on `tx` writes the pending ones. What the driver, the parsers of
-- addresses and the IP service answer is given with each step.
pub mod Totals
pub mod Counts
pub mod Rounds
pub mod Kept
pub mod Stale
pub mod Setup
use valtrack.Base.{
  ℕ, ◌+◌, ◌==◌, ltb, ℤ, String, str_eq, List, [], ◌∷◌, ◌++◌, length, Bool, true, false, ◌&&◌, not,
  is_none, Option, none, some, Error, new, Result, ok, err, Outcome, returns, panics, ◌>>=◌,
  if◌then◌else◌,
}
use valtrack.Base.Dict
use valtrack.Types.{SimpleMetaData, MetadataReceivedEvent}
use valtrack.Consumer.Subnets.{indexes_from_bitfield, extract_short_lived_subnets}

-- A row of `validator_tracker`, which has the peer as its key.
pub record TrackerRow : Type 0 where
  pub enr : String
  pub multiaddr : String
  pub ip : String
  pub port : ℤ
  pub last_seen : ℤ
  pub last_epoch : ℤ
  pub client_version : String
  pub total_observations : ℕ

-- A row of `validator_counts`, of which the first two fields are the key.
pub record CountRow : Type 0 where
  pub peer_id : String
  pub validator_count : ℕ
  pub n_observations : ℕ

pub record IpMetaData : Type 0 where
  pub ip : String
  pub hostname : String
  pub city : String
  pub region : String
  pub country : String
  pub lat_long : String
  pub postal : String
  pub asn : String
  pub asn_org : String
  pub asn_type : String

-- A row of `ip_metadata`: what is inserted, with the position parsed to floats.
pub record IpRow (F : Type 0) : Type 0 where
  pub meta : IpMetaData
  pub latitude : F
  pub longitude : F

pub record Tables (F : Type 0) : Type 0 where
  pub trackers : List (String × TrackerRow)
  pub counts : List CountRow
  pub ips : List (String × IpRow F)

-- `fetches` has the addresses for which a goroutine was started, oldest first. The handler is no longer
-- `running` once it has returned an error, and `tx`, which the goroutines share, is nil from then on.
pub record Tracker (F : Type 0) : Type 0 where
  pub committed : Tables F
  pub pending : Tables F
  pub batch_size : ℕ
  pub fetches : List String
  pub running : Bool

-- An event of the channel, with the answers to NewMultiaddr, to ValueForProtocol for the three
-- protocols and to Atoi; whether the queries of the tracker table and of the IP table fail; whether each of the two
-- statements and the commit succeeds, and whether the next transaction begins.
pub record Observation : Type 0 where
  pub event : MetadataReceivedEvent
  pub maddr : Option Error
  pub ip4 : Result String
  pub ip6 : Result String
  pub tcp : Result String
  pub port : Result ℤ
  pub query : Option Error
  pub ip_query : Option Error
  pub row_written : Bool
  pub count_written : Bool
  pub commits : Bool
  pub begins : Bool

abbrev pub nil_deref : String
nil_deref = "invalid memory address or nil pointer dereference"

-- `insertTrackerQuery`
unfoldable pub insert_tracker :
    String → TrackerRow → List (String × TrackerRow) → List (String × TrackerRow)
insert_tracker id row rows = elim (Dict.lookup id rows) [
  | none ↦ Dict.insert id row rows
  | some old ↦ Dict.insert id (record old { total_observations = old.total_observations + 1 }) rows
]

-- `updateTrackerQuery`
unfoldable pub update_tracker :
    String → TrackerRow → List (String × TrackerRow) → List (String × TrackerRow)
update_tracker id row rows = elim (Dict.lookup id rows) [
  | none ↦ rows
  | some old ↦ Dict.insert id (record row { total_observations = old.total_observations + 1 }) rows
]

-- `insertValidatorCountsQuery`
unfoldable pub insert_count : String → ℕ → List CountRow → List CountRow
insert_count id count [] = record { peer_id = id; validator_count = count; n_observations = 1 } ∷ []
insert_count id count (r ∷ rows) =
    if str_eq r.peer_id id && r.validator_count == count
    then record r { n_observations = r.n_observations + 1 } ∷ rows
    else r ∷ insert_count id count rows

-- The chain of parsers, each with its early `continue`.
abbrev port_of : Result String → Result ℤ → String → Result (String × ℤ)
port_of (err e) port ip = err e
port_of (ok _) (err e) ip = err e
port_of (ok _) (ok port) ip = ok (ip, port)

abbrev address_of : Result String → Result String → Result String → Result ℤ → Result (String × ℤ)
address_of (ok ip) ip6 tcp port = port_of tcp port ip
address_of (err _) (ok ip) tcp port = port_of tcp port ip
address_of (err _) (err e) tcp port = err e

abbrev pub resolve : Observation → Result (String × ℤ)
resolve a = elim a.maddr [ some e ↦ err e | none ↦ address_of a.ip4 a.ip6 a.tcp a.port ]

-- The row of a peer that is seen for the first time.
abbrev pub row_of : MetadataReceivedEvent → String → ℤ → TrackerRow
row_of event ip port = record {
  enr = event.enr;
  multiaddr = event.multiaddr;
  ip = ip;
  port = port;
  last_seen = event.timestamp;
  last_epoch = event.epoch;
  client_version = event.client_version;
  total_observations = 1;
}

abbrev when : {A : Type 0} → Bool → (A → A) → A → A
when true f a = f a
when false f a = a

module _ {F : Type 0} where
  -- The statement on the tracker table and the one on the counts.
  unfoldable pub write :
      Observation
      → (List (String × TrackerRow) → List (String × TrackerRow))
      → ℕ
      → Tables F
      → Tables F
  unfolding insert_count
  write a statement count t = record t {
    trackers = when a.row_written statement t.trackers;
    counts = when a.count_written (insert_count a.event.id count) t.counts;
  }

  -- `if batchSize >= 32`. A commit that fails leaves the committed tables as they were.
  unfoldable pub commit_if_full : Observation → Tracker F → Tracker F
  commit_if_full a t =
      if ltb t.batch_size 32
      then t
      else (let committed = if a.commits then t.pending else t.committed in
          record t {
            committed = committed;
            pending = committed;
            batch_size = if a.begins then 0 else t.batch_size;
            running = a.begins;
          })

  -- From the query of the tracker table to the end of the three branches.
  unfoldable pub record_count : Observation → String → ℤ → ℕ → Tracker F → Tracker F
  unfolding write insert_tracker update_tracker
  record_count a ip port count t = elim a.query [
    | some e ↦ t
    | none ↦ (elim (Dict.lookup a.event.id t.committed.trackers) [
      | none ↦ record t {
        pending = write a (insert_tracker a.event.id (row_of a.event ip port)) count t.pending;
        batch_size = t.batch_size + 1;
        fetches =
            if is_none a.ip_query && is_none (Dict.lookup ip t.committed.ips)
            then t.fetches ++ ip ∷ []
            else t.fetches;
      }
      | some _ ↦ record t {
        pending = write a (update_tracker a.event.id (row_of a.event ip port)) count t.pending;
        batch_size = t.batch_size + 1;
      }
    ])
  ]

  -- One round of the loop. The event's metadata is followed, so it must not be nil.
  unfoldable pub observe : (List ℕ → ℕ → Bool) → Observation → Tracker F → Outcome (Tracker F)
  observe bit_at a t = elim (resolve a) [
    | err e ↦ returns t
    | ok (ip, port) ↦ (elim a.event.meta_data [
      | none ↦ panics nil_deref
      | some md ↦
          let long_lived = indexes_from_bitfield bit_at md.attnets in
          let short_lived = extract_short_lived_subnets a.event.subscribed_subnets long_lived in
          returns (commit_if_full a (record_count a ip port (length short_lived) t))
    ])
  ]

  -- `tx`, which is nil where the handler has returned since no transaction began.
  unfoldable pub transaction : Tracker F → Option (Tables F)
  transaction t = if t.running then some t.pending else none

  -- insertIPMetadata, with its statement refused if the address has a row. `split` is `strings.Split`
  -- at commas and `parse_float` is `strconv.ParseFloat` with its error dropped. The transaction is
  -- followed once the position is split.
  unfoldable pub insert_ip_metadata :
      (String → List String)
      → (String → F)
      → Bool
      → IpMetaData
      → Option (Tables F)
      → Outcome (Bool × Tables F)
  insert_ip_metadata split parse_float written ip tx = elim (split ip.lat_long) [
    | [] ↦ panics "index out of range"
    | lat ∷ [] ↦ panics "index out of range"
    | lat ∷ long ∷ _ ↦ (elim tx [
      | none ↦ panics nil_deref
      | some t ↦ returns (
          if written && is_none (Dict.lookup ip.ip t.ips)
          then (
            true,
            record t {
              ips =
                  Dict.insert ip.ip
                    (record { meta = ip; latitude = parse_float lat; longitude = parse_float long })
                    t.ips;
            },
          )
          else (false, t))
    ])
  ]

  -- What the goroutine does with the answer of the IP service.
  unfoldable pub fetched :
      (String → List String)
      → (String → F)
      → Bool
      → Result IpMetaData
      → Tracker F
      → Outcome (Tracker F)
  fetched split parse_float written (err e) t = returns t
  fetched split parse_float written (ok ip) t = do
    (inserted, tables) ← insert_ip_metadata split parse_float written ip (transaction t)
    returns (if inserted then record t { pending = tables; batch_size = t.batch_size + 1 } else t)

-- A round of the loop, if the handler still runs, or the end of a goroutine that fetched an address.
pub data Step : Type 0 where
  observes : Observation → Step
  fetches_ip : Bool → Result IpMetaData → Step

-- What the handler is given: go-bitfield's `BitAt`, `strings.Split` at commas, and `strconv.ParseFloat`
-- with its error dropped.
pub record Parsers (F : Type 0) : Type 0 where
  pub bit_at : List ℕ → ℕ → Bool
  pub split : String → List String
  pub parse_float : String → F

module _ {F : Type 0} (P : Parsers F) where
  unfoldable pub step : Step → Tracker F → Outcome (Tracker F)
  unfolding observe fetched
  step (observes a) t = if t.running then observe P.bit_at a t else returns t
  step (fetches_ip written answer) t = fetched P.split P.parse_float written answer t

  -- The handler, over the events that arrive and the goroutines that end, in order. Once it has
  -- returned it takes no event, and the goroutines go on.
  unfoldable pub run_steps : List Step → Tracker F → Outcome (Tracker F)
  run_steps [] t = returns t
  run_steps (s ∷ steps) t = step s t >>= run_steps steps

-- The handler's state once its first transaction has begun.
unfoldable pub opened : {F : Type 0} → Tables F → Tracker F
opened tables = record {
  committed = tables;
  pending = tables;
  batch_size = 0;
  fetches = [];
  running = true;
}
