-- ===== src/Clickhouse/Bounds.antt =====
-- How many rows a batch has, and that the batcher gets on.
use valtrack.Base.{
  ℕ, ◌+◌, ◌%◌, ◌<◌, ltb, List, [], ◌∷◌, ◌++◌, length, length-append, All, All-append, map, true,
  Option, none, some, Error, ◌≡◌, ◌≢◌, refl, ◌∙◌, subst, inl, inr, arith, Bool-cases, Option-cases,
}
use valtrack.Types.{ValidatorEvent}
use valtrack.Clickhouse.{
  ClickhouseConfig, Attempt, trying, Arrival, Batcher, send_batch, prepare_batch, appended, flush,
  receive, receive_all, empty_batcher, validator_event_batcher,
}
use valtrack.Clickhouse.Batches.{
  concat, accepted, validator_event_batcher-rows, IsCandid, receive-cases, Sending-cases,
}

-- The rows of the open batch are counted, and fewer than a batch has; those sent are full.
pub record IsFilled (max : ℕ) (b : Batcher) : Type 0 where
  pub counted : length b.batch ≡ b.count
  pub below : b.count < max
  pub full : All (λ rows. length rows ≡ max) b.inserted

abbrev pub IsWhole : Arrival → Type 0
IsWhole a = IsCandid a × (a.refused ≡ none)

length-appended :
    (r : Option Error) (row : ValidatorEvent) (rows : List ValidatorEvent)
    → r ≡ none
    → length (appended r row rows) ≡ length rows + 1
length-appended none row rows e = length-append rows (row ∷ [])
length-appended (some x) row rows e = cc

receive-IsFilled :
    (max : ℕ) (a : Arrival) (b b' : Batcher)
    → max < 18446744073709551616
    → IsWhole a
    → receive max a b ≡ some b'
    → IsFilled max b
    → IsFilled max b'
receive-IsFilled max a b b' small whole h v =
    let grown = length-appended a.refused a.row b.batch whole.1 in
    let c = v.counted in
    let o = v.below in
    elim (receive-cases max a b b' whole.0 h) [
      | inl (lt, e) ↦ rw e (record { counted = omega arith; below = lt; full = v.full })
      | inr (le, e) ↦ rw e (record {
        counted = refl;
        below = omega arith;
        full = All-append (λ rows. length rows ≡ max) b.inserted _ v.full (omega arith);
      })
    ]

receive_all-IsFilled :
    (max : ℕ) (arrivals : List Arrival) (b b' : Batcher)
    → max < 18446744073709551616
    → All IsWhole arrivals
    → receive_all max arrivals b ≡ some b'
    → IsFilled max b
    → IsFilled max b'
unfolding receive_all
receive_all-IsFilled max [] b b' small whole h v =
    let same : b ≡ b' = ground arith in subst (IsFilled max) same v
receive_all-IsFilled max (a ∷ arrivals) b b' small whole h v =
    elim (Option-cases (receive max a b)) [
      | inl e ↦ absurd (ground arith)
      | inr (m, e) ↦
          receive_all-IsFilled max arrivals m b' small whole.1 (rw (e, receive_all) at h)
            (receive-IsFilled max a b m small whole.0 e v)
    ]

validator_event_batcher-IsFilled :
    (cfg : ClickhouseConfig) (prepares : List (Option Error)) (arrivals : List Arrival)
    (b : Batcher)
    → 0 < cfg.max_validator_batch_size
    → cfg.max_validator_batch_size < 18446744073709551616
    → All IsWhole arrivals
    → validator_event_batcher cfg prepares arrivals ≡ some b
    → IsFilled cfg.max_validator_batch_size b
unfolding validator_event_batcher
validator_event_batcher-IsFilled cfg prepares arrivals b pos small whole h =
    elim (Bool-cases (prepare_batch prepares)) [
      | inr e ↦ absurd (ground arith)
      | inl e ↦
          receive_all-IsFilled cfg.max_validator_batch_size arrivals empty_batcher b small whole
            (rw e at h) (record { counted = refl; below = pos; full = tt })
    ]

-- Among the tries to send there is one that ends the loop, and among the tries to prepare one that
-- succeeds.
abbrev pub IsAnswered : Arrival → Type 0
IsAnswered a = (send_batch a.sends ≢ trying) × (prepare_batch a.prepares ≡ true)

flush-some :
    (sends : List Attempt) (prepares : List (Option Error)) (b : Batcher)
    → send_batch sends ≢ trying
    → prepare_batch prepares ≡ true
    → (b' : Batcher) × (flush sends prepares b ≡ some b')
unfolding flush
flush-some sends prepares b s p = elim (Sending-cases (send_batch sends)) [
  | inl e ↦ (
    record b { batch = []; count = 0; inserted = b.inserted ++ (b.batch ∷ []) },
    rw (e, flush, p) refl,
  )
  | inr (inl e) ↦ (
    record b { batch = []; count = 0; dropped = b.dropped ++ (b.batch ∷ []) },
    rw (e, flush, p) refl,
  )
  | inr (inr e) ↦ absurd (s e)
]

receive-some :
    (max : ℕ) (a : Arrival) (b : Batcher)
    → IsAnswered a
    → (b' : Batcher) × (receive max a b ≡ some b')
unfolding receive
receive-some max a b (s, p) =
    let grown = record b {
      batch = appended a.refused a.row b.batch;
      count = (b.count + 1) % 18446744073709551616;
    } in
    elim (Bool-cases (ltb ((b.count + 1) % 18446744073709551616) max)) [
      | inl e ↦ (grown, rw e refl)
      | inr e ↦ let (b', f) = flush-some a.sends a.prepares grown s p in (b', rw e f)
    ]

receive_all-some :
    (max : ℕ) (arrivals : List Arrival) (b : Batcher)
    → All IsAnswered arrivals
    → (b' : Batcher) × (receive_all max arrivals b ≡ some b')
unfolding receive_all
receive_all-some max [] b h = (b, refl)
receive_all-some max (a ∷ arrivals) b h =
    let (m, e) = receive-some max a b h.0 in
    let (b', f) = receive_all-some max arrivals m h.1 in (b', rw (e, receive_all) f)

validator_event_batcher-some :
    (cfg : ClickhouseConfig) (prepares : List (Option Error)) (arrivals : List Arrival)
    → prepare_batch prepares ≡ true
    → All IsAnswered arrivals
    → (b : Batcher) × (validator_event_batcher cfg prepares arrivals ≡ some b)
unfolding validator_event_batcher
validator_event_batcher-some cfg prepares arrivals p h =
    let (b, e) = receive_all-some cfg.max_validator_batch_size arrivals empty_batcher h in
    (b, rw (p, e) refl)

accepted-whole :
    (arrivals : List Arrival) → All IsWhole arrivals → accepted arrivals ≡ map (λ a. a.row) arrivals
accepted-whole [] h = refl
accepted-whole (a ∷ arrivals) h = rw (h.0.1, accepted-whole arrivals h.1)

candid : (arrivals : List Arrival) → All IsWhole arrivals → All IsCandid arrivals
candid [] h = tt
candid (a ∷ arrivals) h = (h.0.0, candid arrivals h.1)

-- If the batch size is positive and below 2^64, every row is taken by its batch, each loop over
-- tries has one that ends it, and the driver never says that a batch was sent before a Send
-- succeeded, then the batcher ends with every row in order in the batches sent and the open one,
-- each batch sent having exactly the batch size and the open one, whose rows are counted, less.
pub validator_event_batcher-chunks :
    (cfg : ClickhouseConfig) (prepares : List (Option Error)) (arrivals : List Arrival)
    → 0 < cfg.max_validator_batch_size
    → cfg.max_validator_batch_size < 18446744073709551616
    → prepare_batch prepares ≡ true
    → All IsAnswered arrivals
    → All IsWhole arrivals
    → (b : Batcher) × (validator_event_batcher cfg prepares arrivals ≡ some b)
      × (concat b.inserted ++ b.batch ≡ map (λ a. a.row) arrivals)
      × IsFilled cfg.max_validator_batch_size b
validator_event_batcher-chunks cfg prepares arrivals pos small p answered whole =
    let (b, e) = validator_event_batcher-some cfg prepares arrivals p answered in
    (
      b,
      e,
      validator_event_batcher-rows cfg prepares arrivals b (candid arrivals whole) e
          ∙ accepted-whole arrivals whole,
      validator_event_batcher-IsFilled cfg prepares arrivals b pos small whole e,
    )
