-- ===== src/Consumer/Tracker/Stale.antt =====
-- What the handler of consumer/db.go keeps of a peer that comes again before a batch is committed.
use valtrack.Base.{
  ℕ, suc, ◌+◌, ◌<◌, ℤ, String, List, [], ◌∷◌, length, Bool, true, none, some, ok, returns,
  >>=-eq-returns, ◌≡◌, refl, ◌∙◌, inl, inr, arith, Option-cases,
}
use valtrack.Base.Dict
use valtrack.Consumer.Tracker.{
  TrackerRow, Tracker, Observation, insert_tracker, resolve, row_of, write, commit_if_full,
  record_count, observe, Step, observes, Parsers, step, run_steps,
}
use valtrack.Consumer.Tracker.Kept.{plus, plus-zero, writes, one_if, step-IsKept}

-- How many of the steps write a row of the peer.
unfoldable pub written_times : String → List Step → ℕ
written_times id [] = 0
written_times id (s ∷ steps) = one_if (writes id s) + written_times id steps

plus-plus : (row : TrackerRow) (m n : ℕ) → plus (plus row m) n ≡ plus row (m + n)
plus-plus row m n = ground arith

inserted_new :
    (id : String) (row : TrackerRow) (rows : List (String × TrackerRow))
    → Dict.lookup id rows ≡ none
    → Dict.lookup id (insert_tracker id row rows) ≡ some row
unfolding insert_tracker
inserted_new id row rows fresh = rw (fresh, insert_tracker) (Dict.lookup-insert_self id row rows)

module _ {F : Type 0} where
  run_steps-found :
      (P : Parsers F) (id : String) (row : TrackerRow) (steps : List Step) (t t' : Tracker F)
      → t.running ≡ true
      → t.batch_size + length steps < 32
      → run_steps P steps t ≡ returns t'
      → Dict.lookup id t.committed.trackers ≡ none
      → Dict.lookup id t.pending.trackers ≡ some row
      → Dict.lookup id t'.pending.trackers ≡ some (plus row (written_times id steps))
  unfolding run_steps written_times
  run_steps-found P id row [] t t' on small h new there =
      let same : t ≡ t' = ground arith in rw (← same, plus-zero row) there
  run_steps-found P id row (s ∷ steps) t t' on small h new there =
      let (u, first, rest) = >>=-eq-returns (step P s t) (run_steps P steps) h in
      let kept = step-IsKept P id row s t u on (omega arith) first new there in
      let bound = kept.count in
      let found =
        run_steps-found P id (plus row (one_if (writes id s))) steps u t' (kept.running ∙ on)
          (omega arith) rest (rw kept.committed new) kept.found in
      found ∙ rw (plus-plus row (one_if (writes id s)) (written_times id steps)) refl

  -- The row of a new peer, inserted in a round in which nothing fails and that does not fill the batch.
  observe-new :
      (bit_at : List ℕ → ℕ → Bool) (a : Observation) (ip : String) (port : ℤ) (t t' : Tracker F)
      → resolve a ≡ ok (ip, port)
      → a.query ≡ none
      → a.row_written ≡ true
      → Dict.lookup a.event.id t.committed.trackers ≡ none
      → suc t.batch_size < 32
      → observe bit_at a t ≡ returns t'
      → (t'.committed ≡ t.committed)
        × (t'.running ≡ t.running)
        × (t'.batch_size ≡ suc t.batch_size)
        × (t'.pending.trackers
            ≡ insert_tracker a.event.id (row_of a.event ip port) t.pending.trackers)
  unfolding observe record_count commit_if_full write
  observe-new bit_at a ip port t t' r q w new small h = elim (Option-cases a.event.meta_data) [
    | inl n ↦ absurd (ground arith)
    | inr (md, n) ↦ ground arith
  ]

  -- If a peer that no table has is observed in a round in which its row is written, then, whatever
  -- rounds and answers of the IP service follow and whatever fails in them, as long as the batch
  -- cannot fill up and nothing panics, the pending row keeps the address, the epoch, the time and
  -- all else of that first observation, and only its total counts the later rounds that write the
  -- peer's row.
  pub run_steps-stale :
      (P : Parsers F) (a : Observation) (ip : String) (port : ℤ) (steps : List Step)
      (t t' : Tracker F)
      → t.running ≡ true
      → Dict.lookup a.event.id t.committed.trackers ≡ none
      → Dict.lookup a.event.id t.pending.trackers ≡ none
      → resolve a ≡ ok (ip, port)
      → a.query ≡ none
      → a.row_written ≡ true
      → suc (t.batch_size + length steps) < 32
      → run_steps P (observes a ∷ steps) t ≡ returns t'
      → Dict.lookup a.event.id t'.pending.trackers
        ≡ some (record (row_of a.event ip port) {
          total_observations = 1 + written_times a.event.id steps;
        })
  unfolding run_steps step
  run_steps-stale P a ip port steps t t' on new fresh r q w small h =
      let (u, first, rest) = >>=-eq-returns (step P (observes a) t) (run_steps P steps) h in
      let (c, runs, n, p) =
        observe-new P.bit_at a ip port t u r q w new (omega arith) (simp on at first) in
      run_steps-found P a.event.id (row_of a.event ip port) steps u t' (runs ∙ on) (omega arith)
        rest (rw c new)
        (rw p (inserted_new a.event.id (row_of a.event ip port) t.pending.trackers fresh))
