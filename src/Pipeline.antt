-- ===== src/Pipeline.antt =====
-- The sentry and the consumer together: what pkg/ethereum publishes to NATS is what
-- consumer/consumer.go is handed, and what that passes on is what clickhouse/client.go stores.
pub mod Launches
mod Tests
use valtrack.Base.{
  ◌++◌, ◌<◌, ℕ, String, str_eq, eq_iff, List, [], ◌∷◌, map, All, Bool, true, false, not, Option,
  none, some, Error, Result, ok, err, Result-cases, Option-cases, Outcome, returns, ◌>>=◌, ◌≡◌, ◌≢◌,
  refl, sym, ap, ◌∙◌, subst, arith, inl, inr, ◌⊎◌, Bool-cases, if◌then◌else◌,
}
use valtrack.Text.{Bytes}
use valtrack.Types.{MetadataReceivedEvent, ValidatorEvent}
use valtrack.Clickhouse.{ClickhouseConfig, Arrival, Batcher, prepare_batch, validator_event_batcher}
use valtrack.Clickhouse.Batches.{concat}
use valtrack.Clickhouse.Bounds.{IsAnswered, IsWhole, validator_event_batcher-chunks}
use valtrack.Consumer.Messages.Channels.{RowsOf, InStep, handle_messages-InStep}
use valtrack.Sentry.Wire.{Wire}
use valtrack.Sentry.Notifiee.Calls.{IsDescribed}
use valtrack.Sentry.System.{System, IsStarted, Reachable}
use valtrack.Sentry.System.Sound.{IsSound, Reachable-IsSound}
use valtrack.Sentry.Goroutines.{Goroutines, IsFresh, Reaches}
use valtrack.Sentry.Goroutines.Orderly.{Reaches-IsOrderly}
use valtrack.Sentry.Publisher.{Published, taken, publish_events, start_metadata_publisher}
use valtrack.Consumer.Messages.{
  Consumer, Message, Verdict, ack, is_ignored, accept, handle_metadata_event, handle_message,
  handle_messages, on_received, store_metadata_event,
}

-- encoding/json: what was encoded decodes to what it was.
abbrev pub RoundTrips :
    (MetadataReceivedEvent → Result Bytes)
    → (Bytes → Result MetadataReceivedEvent)
    → MetadataReceivedEvent
    → Type 0
RoundTrips marshal unmarshal event =
    (payload : Bytes) → marshal event ≡ ok payload → unmarshal payload ≡ ok event

-- The message is the one published.
abbrev pub IsMessageOf : (Bytes → Result MetadataReceivedEvent) → Published → Message → Type 0
IsMessageOf unmarshal p m =
    (m.subject ≡ p.subject) × (m.metadata_known ≡ true) × (m.received ≡ unmarshal p.payload)

-- The messages are those published, one for one and in order.
abbrev pub AreMessagesOf :
    (Bytes → Result MetadataReceivedEvent) → List Published → List Message → Type 0
AreMessagesOf unmarshal [] [] = Unit
AreMessagesOf unmarshal [] (m ∷ ms) = ⊥
AreMessagesOf unmarshal (p ∷ ps) [] = ⊥
AreMessagesOf unmarshal (p ∷ ps) (m ∷ ms) =
    IsMessageOf unmarshal p m × AreMessagesOf unmarshal ps ms

abbrev Decodes : (Bytes → Result MetadataReceivedEvent) → Published → Type 0
Decodes unmarshal p =
    (p.subject ≡ "events.metadata_received")
    × (event : MetadataReceivedEvent) × (unmarshal p.payload ≡ ok event)
    × IsDescribed event

start_metadata_publisher-Decodes :
    (marshal : MetadataReceivedEvent → Result Bytes)
    (unmarshal : Bytes → Result MetadataReceivedEvent)
    (events : List (MetadataReceivedEvent × Option Error))
    → All (RoundTrips marshal unmarshal) (map (λ p. p.0) events)
    → All IsDescribed (map (λ p. p.0) events)
    → All (Decodes unmarshal) (start_metadata_publisher marshal events)
unfolding start_metadata_publisher
start_metadata_publisher-Decodes marshal unmarshal [] trip d = tt
start_metadata_publisher-Decodes marshal unmarshal ((event, refused) ∷ events) trip d =
    let rest = start_metadata_publisher-Decodes marshal unmarshal events trip.1 d.1 in
    elim (Result-cases (marshal event)) [
      | inr (e, x) ↦ rw (x, publish_events) rest
      | inl (payload, x) ↦ (elim (Option-cases refused) [
        | inl y ↦ rw (x, y, publish_events) ((refl, event, trip.0 payload x, d.0), rest)
        | inr (e, y) ↦ rw (x, y, publish_events) rest
      ])
    ]

some-injective : {A : Type 0} {x y : A} → ◌≡◌ {A = Option A} (some x) (some y) → x ≡ y
some-injective h = cc

module _ (bit_at : List ℕ → ℕ → Bool) where
  handle_metadata_event-returns :
      (b : Bool) (event : MetadataReceivedEvent) (c : Consumer)
      → IsDescribed event
      → (c' : Consumer) × (handle_metadata_event bit_at b event c ≡ returns c')
  unfolding handle_metadata_event
  handle_metadata_event-returns b event c d = elim (Option-cases event.meta_data) [
    | inl e ↦ absurd (d e)
    | inr (md, e) ↦
        (if is_ignored bit_at md event then c else accept bit_at b md event c, ground arith)
  ]

  handle_message-ack :
      (unmarshal : Bytes → Result MetadataReceivedEvent) (p : Published) (m : Message)
      (c : Consumer)
      → Decodes unmarshal p
      → IsMessageOf unmarshal p m
      → (c' : Consumer) × (handle_message bit_at m c ≡ returns (ack, c'))
  unfolding handle_message on_received
  handle_message-ack unmarshal p m c (subj, event, dec, d) (s, k, r) =
      let (c', e) = handle_metadata_event-returns m.validator_written event c d in
      let subject = s ∙ subj in
      let known = r ∙ dec in
      (store_metadata_event m.metadata_written event c', simp (k, subject, known, e) refl)

  -- Messages that decode to events with metadata are all acknowledged.
  handle_messages-ack :
      (unmarshal : Bytes → Result MetadataReceivedEvent) (ps : List Published) (ms : List Message)
      (c : Consumer)
      → All (Decodes unmarshal) ps
      → AreMessagesOf unmarshal ps ms
      → (vs : List Verdict) × (c' : Consumer) × (handle_messages bit_at ms c ≡ returns (vs, c'))
        × All (λ v. v ≡ ack) vs
  unfolding handle_messages
  handle_messages-ack unmarshal [] [] c d h = ([], c, refl, tt)
  handle_messages-ack unmarshal [] (m ∷ ms) c d h = absurd h
  handle_messages-ack unmarshal (p ∷ ps) [] c d h = absurd h
  handle_messages-ack unmarshal (p ∷ ps) (m ∷ ms) c d h =
      let (c₁, e) = handle_message-ack unmarshal p m c d.0 h.0 in
      let (vs, c₂, f, all) = handle_messages-ack unmarshal ps ms c₁ d.1 h.1 in
      (ack ∷ vs, c₂, rw (e, handle_messages, f) refl, (refl, all))

  described_events_acknowledged :
      (events : List MetadataReceivedEvent) (marshal : MetadataReceivedEvent → Result Bytes)
      (unmarshal : Bytes → Result MetadataReceivedEvent)
      (answers : List (MetadataReceivedEvent × Option Error)) (ms : List Message) (c : Consumer)
      → All IsDescribed events
      → All (RoundTrips marshal unmarshal) events
      → map (λ p. p.0) answers ≡ events
      → AreMessagesOf unmarshal (start_metadata_publisher marshal answers) ms
      → (vs : List Verdict) × (c' : Consumer) × (handle_messages bit_at ms c ≡ returns (vs, c'))
        × All (λ v. v ≡ ack) vs
  described_events_acknowledged events marshal unmarshal answers ms c described trip same h =
      handle_messages-ack unmarshal (start_metadata_publisher marshal answers) ms c
        (start_metadata_publisher-Decodes marshal unmarshal answers
          (subst (All (RoundTrips marshal unmarshal)) (sym same) trip)
          (subst (All IsDescribed) (sym same) described))
        h

  -- If the events of a node that has started, whatever has happened to it since without a panic,
  -- the waits of its handlers being calm, are published and decode to what was encoded, then the
  -- consumer, in whatever state it is, handles the published messages without a panic and
  -- acknowledges each.
  pub published_events_acknowledged :
      {W : Wire} (s t : System W) (marshal : MetadataReceivedEvent → Result Bytes)
      (unmarshal : Bytes → Result MetadataReceivedEvent)
      (answers : List (MetadataReceivedEvent × Option Error)) (ms : List Message) (c : Consumer)
      → IsStarted s
      → Reachable s t
      → All (RoundTrips marshal unmarshal) t.node.metadata_events
      → map (λ p. p.0) answers ≡ t.node.metadata_events
      → AreMessagesOf unmarshal (start_metadata_publisher marshal answers) ms
      → (vs : List Verdict) × (c' : Consumer) × (handle_messages bit_at ms c ≡ returns (vs, c'))
        × All (λ v. v ≡ ack) vs
  published_events_acknowledged s t marshal unmarshal answers ms c v r trip same h =
      described_events_acknowledged t.node.metadata_events marshal unmarshal answers ms c
        (Reachable-IsSound s t v r).described trip same h

  -- If the events of a fresh node, after whatever turns in whatever order without a panic, the
  -- agent versions being texts and Connected being one turn, are published and decode to what was
  -- encoded, then the consumer, in whatever state it is, handles the published messages without a
  -- panic and acknowledges each.
  pub fresh_events_acknowledged :
      {W : Wire} (s t : Goroutines W) (marshal : MetadataReceivedEvent → Result Bytes)
      (unmarshal : Bytes → Result MetadataReceivedEvent)
      (answers : List (MetadataReceivedEvent × Option Error)) (ms : List Message) (c : Consumer)
      → IsFresh s
      → Reaches s t
      → All (RoundTrips marshal unmarshal) t.node.metadata_events
      → map (λ p. p.0) answers ≡ t.node.metadata_events
      → AreMessagesOf unmarshal (start_metadata_publisher marshal answers) ms
      → (vs : List Verdict) × (c' : Consumer) × (handle_messages bit_at ms c ≡ returns (vs, c'))
        × All (λ v. v ≡ ack) vs
  fresh_events_acknowledged s t marshal unmarshal answers ms c v r trip same h =
      described_events_acknowledged t.node.metadata_events marshal unmarshal answers ms c
        (Reaches-IsOrderly s t v r).described trip same h

  -- If messages are handled without a panic by a consumer whose ClickHouse channel has the rows of
  -- the events passed to the tracker, and the channel's rows then reach a batcher whose batch size
  -- is positive and below 2^64, whose driver takes every row, ends each loop over tries and never
  -- says that a batch was sent before a Send succeeded, then the batches sent and the open one
  -- have, one for one and in order, exactly the rows of the events passed to the tracker, each of a
  -- validator.
  pub stored_rows :
      (ms : List Message) (vs : List Verdict) (c c' : Consumer) (rows : List ValidatorEvent)
      (cfg : ClickhouseConfig) (prepares : List (Option Error)) (arrivals : List Arrival)
      → handle_messages bit_at ms c ≡ returns (vs, c')
      → InStep bit_at c
      → c'.validator_channel ≡ some rows
      → map (λ a. a.row) arrivals ≡ rows
      → 0 < cfg.max_validator_batch_size
      → cfg.max_validator_batch_size < 18446744073709551616
      → prepare_batch prepares ≡ true
      → All IsAnswered arrivals
      → All IsWhole arrivals
      → (b : Batcher) × (validator_event_batcher cfg prepares arrivals ≡ some b)
        × RowsOf bit_at c'.validator_metadata_chan (concat b.inserted ++ b.batch)
  stored_rows ms vs c c' rows cfg prepares arrivals h v sent came pos small p answered whole =
      let after = handle_messages-InStep bit_at ms vs c c' h v in
      let (b, e, all, _) =
        validator_event_batcher-chunks cfg prepares arrivals pos small p answered whole in
      let same : after.rows ≡ rows = some-injective (sym after.sent ∙ sent) in
      (b, e, rw (all, came, ← same) after.same)
