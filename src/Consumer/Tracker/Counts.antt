-- ===== src/Consumer/Tracker/Counts.antt =====
-- The invariant of the tables that the handler of consumer/db.go keeps.
use valtrack.Base.{
  ℕ, ◌+◌, ltb, ℤ, String, str_eq, List, [], ◌∷◌, All, length, Bool, none, some, Result, ok, err,
  returns, >>=-eq-returns, ◌≡◌, ◌≢◌, inl, inr, refl, subst, arith, Bool-cases, Option-cases,
  Result-cases,
}
use valtrack.Base.Dict
use valtrack.Consumer.Subnets.{indexes_from_bitfield, extract_short_lived_subnets}
use valtrack.Consumer.Tracker.{
  TrackerRow, IpMetaData, Tables, Tracker, Observation, insert_tracker, update_tracker, resolve,
  row_of, write, commit_if_full, record_count, observe, insert_ip_metadata, fetched, transaction,
  Step, observes, fetches_ip, Parsers, step, run_steps, opened,
}
use valtrack.Consumer.Tracker.Totals.{
  total, observed, one_if, observed-insert_count, total-insert_tracker, total-update_tracker,
  insert_tracker-kept, update_tracker-kept,
}

-- Of the two statements of a round, both succeed or neither does.
abbrev pub WritesTogether : Step → Type 0
WritesTogether (observes a) = a.row_written ≡ a.count_written
WritesTogether (fetches_ip _ _) = Unit

module _ {F : Type 0} where
  -- Each peer's total is the sum of its counts.
  abbrev pub Balanced : Tables F → Type 0
  Balanced t = (j : String) → total j t.trackers ≡ observed j t.counts

  -- Both sets of tables are balanced, and a peer that has a committed row has a pending one.
  pub record Sound (t : Tracker F) : Type 0 where
    pub committed : Balanced t.committed
    pub pending : Balanced t.pending
    pub kept :
        (j : String)
        → Dict.lookup j t.committed.trackers ≢ none
        → Dict.lookup j t.pending.trackers ≢ none

  write-Balanced :
      (a : Observation) (statement : List (String × TrackerRow) → List (String × TrackerRow))
      (count : ℕ) (t : Tables F)
      → a.row_written ≡ a.count_written
      → ((j : String)
          → total j (statement t.trackers) ≡ one_if (str_eq a.event.id j) + total j t.trackers)
      → Balanced t
      → Balanced (write a statement count t)
  unfolding write
  write-Balanced a statement count t same adds v j = elim (Bool-cases a.count_written) [
    | inl e ↦ rw (same, e, adds j, observed-insert_count a.event.id count t.counts j, v j) refl
    | inr e ↦ rw (same, e) (v j)
  ]

  write-kept :
      (a : Observation) (statement : List (String × TrackerRow) → List (String × TrackerRow))
      (count : ℕ) (t : Tables F) (j : String)
      → (Dict.lookup j t.trackers ≢ none → Dict.lookup j (statement t.trackers) ≢ none)
      → Dict.lookup j t.trackers ≢ none
      → Dict.lookup j (write a statement count t).trackers ≢ none
  unfolding write
  write-kept a statement count t j keeps known = elim (Bool-cases a.row_written) [
    | inl e ↦ rw e (keeps known)
    | inr e ↦ rw e known
  ]

  record_count-Sound :
      (a : Observation) (ip : String) (port : ℤ) (count : ℕ) (t : Tracker F)
      → a.row_written ≡ a.count_written
      → Sound t
      → Sound (record_count a ip port count t)
  unfolding record_count
  record_count-Sound a ip port count t same v = elim (Option-cases a.query) [
    | inr (e, q) ↦ rw (q, record_count) v
    | inl q ↦ (elim (Option-cases (Dict.lookup a.event.id t.committed.trackers)) [
      | inl new ↦
          rw (q, record_count, new)
            (record {
              committed = v.committed;
              pending =
                  write-Balanced a (insert_tracker a.event.id (row_of a.event ip port)) count
                    t.pending same
                    (λ j.
                      total-insert_tracker a.event.id (row_of a.event ip port) t.pending.trackers j
                        refl)
                    v.pending;
              kept = λ j k.
                  write-kept a (insert_tracker a.event.id (row_of a.event ip port)) count t.pending
                    j (insert_tracker-kept a.event.id (row_of a.event ip port) t.pending.trackers j)
                    (v.kept j k);
            })
      | inr (old, e) ↦
          rw (q, record_count, e)
            (record {
              committed = v.committed;
              pending =
                  write-Balanced a (update_tracker a.event.id (row_of a.event ip port)) count
                    t.pending same
                    (λ j.
                      total-update_tracker a.event.id (row_of a.event ip port) t.pending.trackers j
                        (v.kept a.event.id (λ n. cc (n, e))))
                    v.pending;
              kept = λ j k.
                  write-kept a (update_tracker a.event.id (row_of a.event ip port)) count t.pending
                    j (update_tracker-kept a.event.id (row_of a.event ip port) t.pending.trackers j)
                    (v.kept j k);
            })
    ])
  ]

  commit_if_full-Sound : (a : Observation) (t : Tracker F) → Sound t → Sound (commit_if_full a t)
  unfolding commit_if_full
  commit_if_full-Sound a t v = elim (Bool-cases (ltb t.batch_size 32)) [
    | inl e ↦ rw e v
    | inr e ↦ (elim (Bool-cases a.commits) [
      | inl c ↦ rw (e, c) (record { committed = v.pending; pending = v.pending; kept = λ j k. k })
      | inr c ↦
          rw (e, c) (record { committed = v.committed; pending = v.committed; kept = λ j k. k })
    ])
  ]

  observe-Sound :
      (bit_at : List ℕ → ℕ → Bool) (a : Observation) (t t' : Tracker F)
      → a.row_written ≡ a.count_written
      → observe bit_at a t ≡ returns t'
      → Sound t
      → Sound t'
  unfolding observe
  observe-Sound bit_at a t t' same h v = elim (Result-cases (resolve a)) [
    | inr (e, r) ↦ subst Sound (ground arith) v
    | inl ((ip, port), r) ↦ (elim (Option-cases a.event.meta_data) [
      | inl n ↦ absurd (ground arith)
      | inr (md, n) ↦ subst Sound (ground arith) (
          commit_if_full-Sound a _ (
            record_count-Sound a ip port
              (length (
                extract_short_lived_subnets a.event.subscribed_subnets
                  (indexes_from_bitfield bit_at md.attnets)))
              t same v))
    ])
  ]

  unfoldable pub SameCounts : Tables F → Tables F → Type 0
  SameCounts t u = (u.trackers ≡ t.trackers) × (u.counts ≡ t.counts)

  insert_ip_metadata-SameCounts :
      (split : String → List String) (parse_float : String → F) (written inserted : Bool)
      (ip : IpMetaData) (t u : Tables F)
      → insert_ip_metadata split parse_float written ip (some t) ≡ returns (inserted, u)
      → SameCounts t u
  unfolding insert_ip_metadata SameCounts
  insert_ip_metadata-SameCounts split parse_float written inserted ip t u h = ground arith

  pub insert_ip_metadata-pending :
      (split : String → List String) (parse_float : String → F) (written inserted : Bool)
      (ip : IpMetaData) (t : Tracker F) (u : Tables F)
      → insert_ip_metadata split parse_float written ip (transaction t) ≡ returns (inserted, u)
      → SameCounts t.pending u
  unfolding transaction insert_ip_metadata
  insert_ip_metadata-pending split parse_float written inserted ip t u h =
      elim (Bool-cases t.running) [
        | inl e ↦
            insert_ip_metadata-SameCounts split parse_float written inserted ip t.pending u
              (rw e at h)
        | inr e ↦ absurd (ground arith)
      ]

  fetched-Sound :
      (split : String → List String) (parse_float : String → F) (written : Bool)
      (answer : Result IpMetaData) (t t' : Tracker F)
      → fetched split parse_float written answer t ≡ returns t'
      → Sound t
      → Sound t'
  unfolding fetched SameCounts
  fetched-Sound split parse_float written (err e) t t' h v = subst Sound (ground arith) v
  fetched-Sound split parse_float written (ok ip) t t' h v =
      let ((inserted, u), e, k) =
        >>=-eq-returns (insert_ip_metadata split parse_float written ip (transaction t)) _ h in
      let (q, r) = insert_ip_metadata-pending split parse_float written inserted ip t u e in
      elim (Bool-cases inserted) [
        | inr b ↦ subst Sound (ground arith) v
        | inl b ↦ subst Sound (ground arith) (counted u q r)
      ]
    where
      counted :
          (u : Tables F)
          → u.trackers ≡ t.pending.trackers
          → u.counts ≡ t.pending.counts
          → Sound (record t { pending = u; batch_size = t.batch_size + 1 })
      counted u q r = record {
        committed = v.committed;
        pending = λ j. rw (q, r) (v.pending j);
        kept = λ j k. rw q (v.kept j k);
      }

  step-Sound :
      (P : Parsers F) (s : Step) (t t' : Tracker F)
      → WritesTogether s
      → step P s t ≡ returns t'
      → Sound t
      → Sound t'
  unfolding step
  step-Sound P (observes a) t t' w h v = elim (Bool-cases t.running) [
    | inl e ↦ observe-Sound P.bit_at a t t' w (simp e at h) v
    | inr e ↦ subst Sound (ground arith) v
  ]
  step-Sound P (fetches_ip written answer) t t' w h v =
      fetched-Sound P.split P.parse_float written answer t t' h v

  run_steps-Sound :
      (P : Parsers F) (steps : List Step) (t t' : Tracker F)
      → All WritesTogether steps
      → run_steps P steps t ≡ returns t'
      → Sound t
      → Sound t'
  unfolding run_steps
  run_steps-Sound P [] t t' w h v = subst Sound (ground arith) v
  run_steps-Sound P (s ∷ steps) t t' w h v =
      let (u, first, rest) = >>=-eq-returns (step P s t) (run_steps P steps) h in
      run_steps-Sound P steps u t' w.1 rest (step-Sound P s t u w.0 first v)

  -- If the handler starts on tables in which each peer's total is the sum of its counts, and in
  -- each round the two statements succeed or fail together, then, whatever else fails and wherever
  -- the fetches of addresses end, the same holds of the committed and of the pending tables after
  -- any steps that do not panic.
  pub run_steps-Balanced :
      (P : Parsers F) (steps : List Step) (tables : Tables F) (t : Tracker F)
      → Balanced tables
      → All WritesTogether steps
      → run_steps P steps (opened tables) ≡ returns t
      → Balanced t.committed × Balanced t.pending
  unfolding opened
  run_steps-Balanced P steps tables t b w h =
      let sound =
        run_steps-Sound P steps (opened tables) t w h
          (record { committed = b; pending = b; kept = λ j k. k }) in
      (sound.committed, sound.pending)
