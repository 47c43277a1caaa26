-- ===== src/Consumer/Tracker/Kept.antt =====
-- What a round of the handler of consumer/db.go leaves of the pending row of a peer that has no committed one.
use valtrack.Base.{
  ℕ, suc, ◌+◌, ◌≤◌, ◌<◌, ℤ, String, str_eq, eq_iff, List, length, Bool, true, false, ◌&&◌, none,
  some, is_none, Result, ok, err, returns, >>=-eq-returns, ◌≡◌, refl, sym, ◌∙◌, subst, inl, inr,
  arith, Bool-cases, Option-cases, Result-cases, if◌then◌else◌,
}
use valtrack.Base.Dict
use valtrack.Consumer.Subnets.{indexes_from_bitfield, extract_short_lived_subnets}
use valtrack.Consumer.Tracker.Counts.{SameCounts, insert_ip_metadata-pending}
use valtrack.Consumer.Tracker.{
  IpMetaData, transaction, TrackerRow, Tables, Tracker, Observation, insert_tracker, update_tracker,
  resolve, row_of, write, commit_if_full, record_count, observe, Step, observes, fetches_ip,
  Parsers, step, fetched, insert_ip_metadata,
}

-- The row with more observations.
abbrev pub plus : TrackerRow → ℕ → TrackerRow
plus row n = record row { total_observations = row.total_observations + n }

abbrev is_ok : {A : Type 0} → Result A → Bool
is_ok (ok _) = true
is_ok (err _) = false

-- Whether the step writes a row of the peer.
abbrev pub writes : String → Step → Bool
writes id (observes a) =
    str_eq a.event.id id && (is_ok (resolve a) && (is_none a.query && a.row_written))
writes id (fetches_ip _ _) = false

abbrev pub one_if : Bool → ℕ
one_if b = if b then 1 else 0

pub plus-zero : (row : TrackerRow) → plus row 0 ≡ row
plus-zero row = ground arith

lookup-insert_tracker :
    (k id : String) (new old : TrackerRow) (rows : List (String × TrackerRow))
    → Dict.lookup id rows ≡ some old
    → Dict.lookup id (insert_tracker k new rows) ≡ some (plus old (one_if (str_eq k id)))
unfolding insert_tracker
lookup-insert_tracker k id new old rows h = elim (Option-cases (Dict.lookup k rows)) [
  | inl f ↦ ground (arith, f, h, eq_iff k id, Dict.lookup-insert k id new rows)
  | inr (x, f) ↦ ground (
    arith,
    f,
    h,
    eq_iff k id,
    Dict.lookup-insert k id (record x { total_observations = x.total_observations + 1 }) rows,
  )
]

lookup-update_tracker :
    (k id : String) (new : TrackerRow) (rows : List (String × TrackerRow))
    → str_eq k id ≡ false
    → Dict.lookup id (update_tracker k new rows) ≡ Dict.lookup id rows
unfolding update_tracker
lookup-update_tracker k id new rows e = elim (Option-cases (Dict.lookup k rows)) [
  | inl f ↦ rw (update_tracker, f) refl
  | inr (x, f) ↦ ground (
    arith,
    f,
    e,
    Dict.lookup-insert k id (record new { total_observations = x.total_observations + 1 }) rows,
  )
]

module _ {F : Type 0} where
  -- Nothing was committed, and the pending row of the peer has `n` observations more.
  pub record IsKept (id : String) (row : TrackerRow) (n : ℕ) (t u : Tracker F) : Type 0 where
    pub committed : u.committed ≡ t.committed
    pub running : u.running ≡ t.running
    pub count : u.batch_size ≤ suc t.batch_size
    pub found : Dict.lookup id u.pending.trackers ≡ some (plus row n)

  same-IsKept :
      (id : String) (row : TrackerRow) (t : Tracker F)
      → Dict.lookup id t.pending.trackers ≡ some row
      → IsKept id row 0 t t
  same-IsKept id row t h = record {
    committed = refl;
    running = refl;
    count = omega arith;
    found = rw (plus-zero row) h;
  }

  -- One of the two statements of a round, where it leaves the row of the peer, or counts for it.
  write-found :
      (id : String) (row : TrackerRow) (n : ℕ) (a : Observation)
      (statement : List (String × TrackerRow) → List (String × TrackerRow)) (count : ℕ)
      (t : Tables F)
      → (a.row_written ≡ true → Dict.lookup id (statement t.trackers) ≡ some (plus row n))
      → (a.row_written ≡ false → Dict.lookup id t.trackers ≡ some (plus row n))
      → Dict.lookup id (write a statement count t).trackers ≡ some (plus row n)
  unfolding write
  write-found id row n a statement count t taken refused = elim (Bool-cases a.row_written) [
    | inl e ↦ rw e (taken e)
    | inr e ↦ rw e (refused e)
  ]

  inserts-found :
      (id : String) (row new : TrackerRow) (a : Observation) (ip : String) (port : ℤ) (count : ℕ)
      (t : Tables F)
      → resolve a ≡ ok (ip, port)
      → a.query ≡ none
      → Dict.lookup id t.trackers ≡ some row
      → Dict.lookup id (write a (insert_tracker a.event.id new) count t).trackers
        ≡ some (plus row (one_if (writes id (observes a))))
  inserts-found id row new a ip port count t r q h =
      write-found id row (one_if (writes id (observes a))) a (insert_tracker a.event.id new) count t
        (λ w.
          let k : writes id (observes a) ≡ str_eq a.event.id id = ground (arith, r, q, w) in
          rw k (lookup-insert_tracker a.event.id id new row t.trackers h))
        (λ w.
          let k : writes id (observes a) ≡ false = ground (arith, r, q, w) in
          rw (k, plus-zero row) h)

  updates-found :
      (id : String) (row new : TrackerRow) (a : Observation) (count : ℕ) (t : Tables F)
      → str_eq a.event.id id ≡ false
      → Dict.lookup id t.trackers ≡ some row
      → Dict.lookup id (write a (update_tracker a.event.id new) count t).trackers
        ≡ some (plus row (one_if (writes id (observes a))))
  updates-found id row new a count t e h =
      let k : writes id (observes a) ≡ false = ground (arith, e) in
      let kept : Dict.lookup id t.trackers ≡ some (plus row (one_if (writes id (observes a)))) =
        rw (k, plus-zero row) h in
      write-found id row (one_if (writes id (observes a))) a (update_tracker a.event.id new) count t
        (λ w. lookup-update_tracker a.event.id id new t.trackers e ∙ kept) (λ w. kept)

  record_count-IsKept :
      (id : String) (row : TrackerRow) (n : ℕ) (a : Observation) (ip : String) (port : ℤ)
      (count : ℕ) (t : Tracker F)
      → one_if (writes id (observes a)) ≡ n
      → resolve a ≡ ok (ip, port)
      → Dict.lookup id t.committed.trackers ≡ none
      → Dict.lookup id t.pending.trackers ≡ some row
      → IsKept id row n t (record_count a ip port count t)
  unfolding record_count
  record_count-IsKept id row n a ip port count t w r new h = elim (Option-cases a.query) [
    | inr (e, q) ↦
        let k : 0 ≡ n = ground (arith, q) in
        simp (q, record_count) (subst (λ m. IsKept id row m t t) k (same-IsKept id row t h))
    | inl q ↦ (elim (Option-cases (Dict.lookup a.event.id t.committed.trackers)) [
      | inl f ↦
          let g = inserts-found id row (row_of a.event ip port) a ip port count t.pending r q h in
          simp (q, f, record_count)
            (record { committed = refl; running = refl; count = omega arith; found = rw w at g })
      | inr (old, f) ↦
          let e : str_eq a.event.id id ≡ false = ground (arith, f, new, eq_iff a.event.id id) in
          let g = updates-found id row (row_of a.event ip port) a count t.pending e h in
          simp (q, f, record_count)
            (record { committed = refl; running = refl; count = omega arith; found = rw w at g })
    ])
  ]

  commit_if_full-early :
      (a : Observation) (t : Tracker F) → t.batch_size < 32 → commit_if_full a t ≡ t
  unfolding commit_if_full
  commit_if_full-early a t h = ground arith

  observe-IsKept :
      (bit_at : List ℕ → ℕ → Bool) (id : String) (row : TrackerRow) (a : Observation)
      (t t' : Tracker F)
      → suc t.batch_size < 32
      → observe bit_at a t ≡ returns t'
      → Dict.lookup id t.committed.trackers ≡ none
      → Dict.lookup id t.pending.trackers ≡ some row
      → IsKept id row (one_if (writes id (observes a))) t t'
  unfolding observe
  observe-IsKept bit_at id row a t t' small h new there = elim (Result-cases (resolve a)) [
    | inr (e, r) ↦
        let k : 0 ≡ one_if (writes id (observes a)) = ground (arith, r) in
        let same : t ≡ t' = ground arith in
        subst (λ m. IsKept id row m t t') k
          (subst (IsKept id row 0 t) same (same-IsKept id row t there))
    | inl ((ip, port), r) ↦ (elim (Option-cases a.event.meta_data) [
      | inl n ↦ absurd (ground arith)
      | inr (md, n) ↦
          let count = length (
            extract_short_lived_subnets a.event.subscribed_subnets
              (indexes_from_bitfield bit_at md.attnets)) in
          let kept = record_count-IsKept id row _ a ip port count t refl r new there in
          let early =
            commit_if_full-early a (record_count a ip port count t)
              (let c = kept.count in omega arith) in
          let same : record_count a ip port count t ≡ t' = sym early ∙ ground (arith, r, n) in
          subst (IsKept id row (one_if (writes id (observes a))) t) same kept
    ])
  ]

  fetched-IsKept :
      (split : String → List String) (parse_float : String → F) (written : Bool)
      (answer : Result IpMetaData) (id : String) (row : TrackerRow) (t t' : Tracker F)
      → fetched split parse_float written answer t ≡ returns t'
      → Dict.lookup id t.pending.trackers ≡ some row
      → IsKept id row 0 t t'
  unfolding fetched SameCounts
  fetched-IsKept split parse_float written (err e) id row t t' h there =
      let same : t ≡ t' = ground arith in
      subst (IsKept id row 0 t) same (same-IsKept id row t there)
  fetched-IsKept split parse_float written (ok ip) id row t t' h there =
      let ((inserted, u), e, k) =
        >>=-eq-returns (insert_ip_metadata split parse_float written ip (transaction t)) _ h in
      let (q, r) = insert_ip_metadata-pending split parse_float written inserted ip t u e in
      elim (Bool-cases inserted) [
        | inr b ↦
            let same : t ≡ t' = ground arith in
            subst (IsKept id row 0 t) same (same-IsKept id row t there)
        | inl b ↦
            let same : record t { pending = u; batch_size = t.batch_size + 1 } ≡ t' =
              ground arith in
            subst (IsKept id row 0 t) same (record {
              committed = refl;
              running = refl;
              count = omega arith;
              found = rw (q, plus-zero row) there;
            })
      ]

  pub step-IsKept :
      (P : Parsers F) (id : String) (row : TrackerRow) (s : Step) (t t' : Tracker F)
      → t.running ≡ true
      → suc t.batch_size < 32
      → step P s t ≡ returns t'
      → Dict.lookup id t.committed.trackers ≡ none
      → Dict.lookup id t.pending.trackers ≡ some row
      → IsKept id row (one_if (writes id s)) t t'
  unfolding step
  step-IsKept P id row (observes a) t t' on small h new there =
      observe-IsKept P.bit_at id row a t t' small (simp on at h) new there
  step-IsKept P id row (fetches_ip written answer) t t' on small h new there =
      fetched-IsKept P.split P.parse_float written answer id row t t' h there
