-- ===== src/Pipeline/Launches.antt =====
-- The consumer from RunConsumer of consumer/consumer.go on, with clickhouse/client.go behind it.
use valtrack.Base.{◌++◌, ◌<◌, List, [], map, All, true, Option, some, Error, returns, ◌≡◌, inl, inr}
use valtrack.Types.{ValidatorEvent}
use valtrack.Clickhouse.{Arrival, Batcher, prepare_batch, validator_event_batcher}
use valtrack.Clickhouse.Batches.{concat}
use valtrack.Clickhouse.Bounds.{IsAnswered, IsWhole}
use valtrack.Consumer.Messages.{Consumer, Message, Verdict, handle_messages}
use valtrack.Consumer.Messages.Channels.{RowsOf, InStep}
use valtrack.Consumer.Tracker.{Parsers}
use valtrack.Consumer.Launch.{ConsumerConfig, Calls, Launched, run_consumer}
use valtrack.Consumer.Launch.Failures.{IsLaunched, run_consumer-IsLaunched}
use valtrack.Pipeline.{stored_rows}

module _ {F : Type 0} (P : Parsers F) where
  launched-InStep :
      (cfg : ConsumerConfig) (calls : Calls F) (l : Launched F)
      → IsLaunched P cfg calls l
      → l.batcher ≡ true
      → InStep P.bit_at l.consumer
  launched-InStep cfg calls l v reads = elim v.channel [
    | inl (_, _, unread) ↦ absurd (cc (unread, reads))
    | inr (_, open_channel, _) ↦ record { rows = []; sent = open_channel; same = rw v.idle tt }
  ]

  -- If RunConsumer comes up with its batcher, its consumer handles messages without a panic, and
  -- the rows on its ClickHouse channel reach the batcher, whose configured batch size is positive
  -- and below 2^64 and whose driver takes every row, ends each loop over tries and never says that
  -- a batch was sent before a Send succeeded, then the batches sent and the open one have, one for
  -- one and in order, exactly the rows of the events passed to the tracker, each of a validator.
  pub launched_rows_stored :
      (cfg : ConsumerConfig) (calls : Calls F) (l : Launched F) (ms : List Message)
      (vs : List Verdict) (c : Consumer) (rows : List ValidatorEvent)
      (prepares : List (Option Error)) (arrivals : List Arrival)
      → run_consumer P cfg calls ≡ returns l
      → l.batcher ≡ true
      → handle_messages P.bit_at ms l.consumer ≡ returns (vs, c)
      → c.validator_channel ≡ some rows
      → map (λ a. a.row) arrivals ≡ rows
      → 0 < cfg.ch_cfg.max_validator_batch_size
      → cfg.ch_cfg.max_validator_batch_size < 18446744073709551616
      → prepare_batch prepares ≡ true
      → All IsAnswered arrivals
      → All IsWhole arrivals
      → (b : Batcher) × (validator_event_batcher cfg.ch_cfg prepares arrivals ≡ some b)
        × RowsOf P.bit_at c.validator_metadata_chan (concat b.inserted ++ b.batch)
  launched_rows_stored cfg calls l ms vs c rows prepares arrivals ran reads =
      λ h sent came pos small p answered whole.
        stored_rows P.bit_at ms vs l.consumer c rows cfg.ch_cfg prepares arrivals h
          (launched-InStep cfg calls l (run_consumer-IsLaunched P cfg calls l ran) reads) sent came
          pos small p answered whole
