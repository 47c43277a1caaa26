-- ===== src/Clickhouse/Batches.antt =====
-- Which rows are in which batch.
use valtrack.Base.{
  ℕ, ◌+◌, ◌%◌, ◌<◌, ◌≤◌, ltb, List, [], ◌∷◌, ◌++◌, All, false, Option, none, some, Error, ◌≡◌, ◌≢◌,
  refl, sym, ap, ◌∙◌, ◌⊎◌, inl, inr, arith, Bool-cases, Option-cases,
}
use mathlib.Core.List.{append-nil, append_assoc}
use valtrack.Types.{ValidatorEvent}
use valtrack.Clickhouse.{
  ClickhouseConfig, Attempt, Sending, taken, given_up, trying, Arrival, Batcher, send_batch,
  prepare_batch, appended, flush, receive, receive_all, empty_batcher, validator_event_batcher,
}

abbrev pub concat : List (List ValidatorEvent) → List ValidatorEvent
concat [] = []
concat (b ∷ bs) = b ++ concat bs

-- The rows that the batches took, in the order in which they came in.
abbrev pub accepted : List Arrival → List ValidatorEvent
accepted [] = []
accepted (a ∷ arrivals) = appended a.refused a.row [] ++ accepted arrivals

-- The driver answers of no batch that it was sent before a call of `Send` has succeeded.
abbrev pub IsCandid : Arrival → Type 0
IsCandid a = All (λ x. x.is_sent ≡ false) a.sends

abbrev pub rows_of : Batcher → List ValidatorEvent
rows_of b = concat b.inserted ++ b.batch

concat-append :
    (bs : List (List ValidatorEvent)) (b : List ValidatorEvent)
    → concat (bs ++ (b ∷ [])) ≡ concat bs ++ b
concat-append [] b = append-nil b
concat-append (x ∷ bs) b = rw (concat-append bs b) (sym (append_assoc x (concat bs) b))

send_batch-candid :
    (sends : List Attempt) → All (λ x. x.is_sent ≡ false) sends → send_batch sends ≢ given_up
unfolding send_batch
send_batch-candid [] h e = cc
send_batch-candid (a ∷ sends) h e = ground (arith, send_batch-candid sends h.1)

pub Sending-cases : (s : Sending) → (s ≡ taken) ⊎ ((s ≡ given_up) ⊎ (s ≡ trying))
Sending-cases taken = inl refl
Sending-cases given_up = inr (inl refl)
Sending-cases trying = inr (inr refl)

flush-taken :
    (sends : List Attempt) (prepares : List (Option Error)) (b b' : Batcher)
    → All (λ x. x.is_sent ≡ false) sends
    → flush sends prepares b ≡ some b'
    → b' ≡ record b { batch = []; count = 0; inserted = b.inserted ++ (b.batch ∷ []) }
unfolding flush
flush-taken sends prepares b b' candid h = elim (Sending-cases (send_batch sends)) [
  | inl e ↦ ground arith
  | inr (inl e) ↦ absurd (send_batch-candid sends candid e)
  | inr (inr e) ↦ absurd (ground arith)
]

appended-append :
    (r : Option Error) (row : ValidatorEvent) (rows : List ValidatorEvent)
    → appended r row rows ≡ rows ++ appended r row []
appended-append none row rows = refl
appended-append (some e) row rows = sym (append-nil rows)

-- What the body does with one row, if the driver is candid.
pub receive-cases :
    (max : ℕ) (a : Arrival) (b b' : Batcher)
    → IsCandid a
    → receive max a b ≡ some b'
    → ((((b.count + 1) % 18446744073709551616) < max)
        × (b' ≡ record b {
          batch = appended a.refused a.row b.batch;
          count = (b.count + 1) % 18446744073709551616;
        }))
      ⊎ ((max ≤ ((b.count + 1) % 18446744073709551616))
          × (b' ≡ record b {
            batch = [];
            count = 0;
            inserted = b.inserted ++ (appended a.refused a.row b.batch ∷ []);
          }))
unfolding receive
receive-cases max a b b' candid h =
    let grown = record b {
      batch = appended a.refused a.row b.batch;
      count = (b.count + 1) % 18446744073709551616;
    } in
    elim (Bool-cases (ltb ((b.count + 1) % 18446744073709551616) max)) [
      | inl e ↦ inl (ground arith, ground arith)
      | inr e ↦ inr (ground arith, flush-taken a.sends a.prepares grown b' candid (simp e at h))
    ]

receive-rows :
    (max : ℕ) (a : Arrival) (b b' : Batcher)
    → IsCandid a
    → receive max a b ≡ some b'
    → rows_of b' ≡ rows_of b ++ appended a.refused a.row []
receive-rows max a b b' candid h = elim (receive-cases max a b b' candid h) [
  | inl (_, e) ↦
      rw (e, appended-append a.refused a.row b.batch)
        (sym (append_assoc (concat b.inserted) b.batch (appended a.refused a.row [])))
  | inr (_, e) ↦
      rw
        (
          e,
          append-nil (concat (b.inserted ++ (appended a.refused a.row b.batch ∷ []))),
          concat-append b.inserted (appended a.refused a.row b.batch),
          appended-append a.refused a.row b.batch,
        )
        (sym (append_assoc (concat b.inserted) b.batch (appended a.refused a.row [])))
]

receive_all-rows :
    (max : ℕ) (arrivals : List Arrival) (b b' : Batcher)
    → All IsCandid arrivals
    → receive_all max arrivals b ≡ some b'
    → rows_of b' ≡ rows_of b ++ accepted arrivals
unfolding receive_all
receive_all-rows max [] b b' candid h =
    let same : b ≡ b' = ground arith in ap rows_of (sym same) ∙ sym (append-nil (rows_of b))
receive_all-rows max (a ∷ arrivals) b b' candid h = elim (Option-cases (receive max a b)) [
  | inl e ↦ absurd (ground arith)
  | inr (m, e) ↦
      receive_all-rows max arrivals m b' candid.1 (rw (e, receive_all) at h)
      ∙ ap (λ (l : List ValidatorEvent). l ++ accepted arrivals) (receive-rows max a b m candid.0 e)
      ∙ append_assoc (rows_of b) (appended a.refused a.row []) (accepted arrivals)
]

-- If the driver never says that a batch was sent before a Send succeeded and the batcher gets
-- through the rows, then the batches sent and the open one have, one after the other, exactly the
-- rows that AppendStruct took, in order, however often sending and preparing failed.
pub validator_event_batcher-rows :
    (cfg : ClickhouseConfig) (prepares : List (Option Error)) (arrivals : List Arrival)
    (b : Batcher)
    → All IsCandid arrivals
    → validator_event_batcher cfg prepares arrivals ≡ some b
    → concat b.inserted ++ b.batch ≡ accepted arrivals
unfolding validator_event_batcher
validator_event_batcher-rows cfg prepares arrivals b candid h =
    elim (Bool-cases (prepare_batch prepares)) [
      | inl e ↦
          receive_all-rows cfg.max_validator_batch_size arrivals empty_batcher b candid (rw e at h)
      | inr e ↦ absurd (ground arith)
    ]
