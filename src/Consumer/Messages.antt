-- ===== src/Consumer/Messages.antt =====
-- The message handling of consumer/consumer.go. What arrives and what the libraries answer is given
-- with each message; the writers, the channels and the ClickHouse channel keep what they were given,
-- oldest first. The loop that fetches batches hands the messages on one by one.
pub mod Delivery
pub mod Channels
pub mod Fetching
use valtrack.Base.{
  ℕ, ◌==◌, ℤ, String, str_eq, List, [], ◌∷◌, ◌++◌, length, Bool, true, false, ◌||◌, not, Option,
  none, some, Error, Result, ok, err, Outcome, returns, panics, ◌>>=◌, if◌then◌else◌,
}
use valtrack.Types.{SimpleMetaData, MetadataReceivedEvent, PeerDiscoveredEvent, ValidatorEvent}
use valtrack.Hex.{encode_to_string}
use valtrack.Consumer.Subnets.{indexes_from_bitfield, extract_short_lived_subnets}

-- `validator_channel` is nil where there is no ClickHouse client.
pub record Consumer : Type 0 where
  pub discovery_rows : List PeerDiscoveredEvent
  pub metadata_rows : List MetadataReceivedEvent
  pub validator_rows : List ValidatorEvent
  pub validator_metadata_chan : List MetadataReceivedEvent
  pub validator_channel : Option (List ValidatorEvent)

-- A message. `metadata_known` tells whether `msg.Metadata()` answers; `discovered` and `received` are
-- the answers of `json.Unmarshal` for the two types; the last three tell whether a Parquet writer takes
-- the row.
pub record Message : Type 0 where
  pub subject : String
  pub metadata_known : Bool
  pub discovered : Result PeerDiscoveredEvent
  pub received : Result MetadataReceivedEvent
  pub discovery_written : Bool
  pub metadata_written : Bool
  pub validator_written : Bool

-- What the consumer tells the server about the message.
pub data Verdict : Type 0 where
  ack term : Verdict

abbrev pub nil_deref : String
nil_deref = "invalid memory address or nil pointer dereference"

abbrev pub written : {A : Type 0} → Bool → A → List A → List A
written true row rows = rows ++ row ∷ []
written false row rows = rows

unfoldable pub validator_event : List ℤ → SimpleMetaData → MetadataReceivedEvent → ValidatorEvent
unfolding encode_to_string
validator_event long_lived md event = record {
  enr = event.enr;
  id = event.id;
  multiaddr = event.multiaddr;
  epoch = event.epoch;
  seq_number = md.seq_number;
  attnets = encode_to_string md.attnets;
  syncnets = encode_to_string md.syncnets;
  client_version = event.client_version;
  crawler_id = event.crawler_id;
  crawler_loc = event.crawler_loc;
  timestamp = event.timestamp;
  long_lived_subnets = long_lived;
  subscribed_subnets = event.subscribed_subnets;
}

unfoldable pub store_discovery_event : Bool → PeerDiscoveredEvent → Consumer → Consumer
store_discovery_event taken event c = record c {
  discovery_rows = written taken event c.discovery_rows;
}

unfoldable pub store_metadata_event : Bool → MetadataReceivedEvent → Consumer → Consumer
store_metadata_event taken event c = record c {
  metadata_rows = written taken event c.metadata_rows;
}

unfoldable pub on_discovered :
    Message → Result PeerDiscoveredEvent → Consumer → Outcome (Verdict × Consumer)
on_discovered m (err e) c = returns (term, c)
on_discovered m (ok event) c = returns (ack, store_discovery_event m.discovery_written event c)

module _ (bit_at : List ℕ → ℕ → Bool) where
  -- The early return: no short-lived subnet, or not exactly two announced ones.
  unfoldable pub is_ignored : SimpleMetaData → MetadataReceivedEvent → Bool
  is_ignored md event =
      let long_lived = indexes_from_bitfield bit_at md.attnets in
      length (extract_short_lived_subnets event.subscribed_subnets long_lived) == 0
      || not (length long_lived == 2)

  -- `c.validatorMetadataChan <- &event` and what follows.
  unfoldable pub accept : Bool → SimpleMetaData → MetadataReceivedEvent → Consumer → Consumer
  accept taken md event c =
      let row = validator_event (indexes_from_bitfield bit_at md.attnets) md event in
      record c {
        validator_metadata_chan = c.validator_metadata_chan ++ event ∷ [];
        validator_channel = elim c.validator_channel [
          | none ↦ none
          | some rows ↦ some (rows ++ row ∷ [])
        ];
        validator_rows = written taken row c.validator_rows;
      }

  -- The pointer `event.MetaData` is followed, so it must not be nil.
  unfoldable pub handle_metadata_event : Bool → MetadataReceivedEvent → Consumer → Outcome Consumer
  handle_metadata_event taken event c = elim event.meta_data [
    | none ↦ panics nil_deref
    | some md ↦ returns (if is_ignored md event then c else accept taken md event c)
  ]

  unfoldable pub on_received :
      Message → Result MetadataReceivedEvent → Consumer → Outcome (Verdict × Consumer)
  on_received m (err e) c = returns (term, c)
  on_received m (ok event) c = do
    c' ← handle_metadata_event m.validator_written event c
    returns (ack, store_metadata_event m.metadata_written event c')

  -- The stream's progress, which is only logged, is not computed; its inputs are read through the
  -- pointer that `msg.Metadata()` returns beside its error.
  unfoldable pub handle_message : Message → Consumer → Outcome (Verdict × Consumer)
  unfolding on_discovered on_received
  handle_message m c =
      if not m.metadata_known
      then panics nil_deref
      else if str_eq m.subject "events.peer_discovered"
      then on_discovered m m.discovered c
      else if str_eq m.subject "events.metadata_received"
      then on_received m m.received c
      else returns (ack, c)

  -- `for msg := range batch.Messages() { handleMessage(c, msg) }`, with the verdicts in order.
  unfoldable pub handle_messages : List Message → Consumer → Outcome (List Verdict × Consumer)
  handle_messages [] c = returns ([], c)
  handle_messages (m ∷ ms) c = do
    (v, c₁) ← handle_message m c
    (vs, c₂) ← handle_messages ms c₁
    returns (v ∷ vs, c₂)
