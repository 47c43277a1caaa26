-- ===== src/Consumer/Tracker/Totals.antt =====
-- What the SQL statements of consumer/db.go do to a peer's total and to its counts.
use valtrack.Base.{
  ℕ, ◌+◌, String, str_eq, eq_iff, List, [], ◌∷◌, Bool, true, false, Option, none, some, ◌≡◌, ◌≢◌,
  inl, inr, arith, Option-cases, if◌then◌else◌,
}
use valtrack.Base.Dict
use valtrack.Consumer.Tracker.{TrackerRow, CountRow, insert_tracker, update_tracker, insert_count}

-- The peer's `total_observations`; 0 where the peer has no row.
abbrev pub total_of : Option TrackerRow → ℕ
total_of none = 0
total_of (some row) = row.total_observations

abbrev pub total : String → List (String × TrackerRow) → ℕ
total id rows = total_of (Dict.lookup id rows)

-- The sum of the peer's `n_observations`.
unfoldable pub observed : String → List CountRow → ℕ
observed id [] = 0
observed id (r ∷ rows) = (if str_eq r.peer_id id then r.n_observations else 0) + observed id rows

abbrev pub one_if : Bool → ℕ
one_if true = 1
one_if false = 0

pub observed-insert_count :
    (id : String) (count : ℕ) (rows : List CountRow) (j : String)
    → observed j (insert_count id count rows) ≡ one_if (str_eq id j) + observed j rows
unfolding observed insert_count
observed-insert_count id count [] j = ground arith
observed-insert_count id count (r ∷ rows) j =
    let rest = observed-insert_count id count rows j in
    ground (arith, eq_iff r.peer_id id, eq_iff r.peer_id j, eq_iff id j)

pub total-insert_tracker :
    (id : String) (row : TrackerRow) (rows : List (String × TrackerRow)) (j : String)
    → row.total_observations ≡ 1
    → total j (insert_tracker id row rows) ≡ one_if (str_eq id j) + total j rows
unfolding insert_tracker
total-insert_tracker id row rows j one = elim (Option-cases (Dict.lookup id rows)) [
  | inl e ↦ ground (arith, e, one, eq_iff id j, Dict.lookup-insert id j row rows)
  | inr (old, e) ↦ ground (
    arith,
    e,
    eq_iff id j,
    Dict.lookup-insert id j (record old { total_observations = old.total_observations + 1 }) rows,
  )
]

pub total-update_tracker :
    (id : String) (row : TrackerRow) (rows : List (String × TrackerRow)) (j : String)
    → Dict.lookup id rows ≢ none
    → total j (update_tracker id row rows) ≡ one_if (str_eq id j) + total j rows
unfolding update_tracker
total-update_tracker id row rows j known = elim (Option-cases (Dict.lookup id rows)) [
  | inl e ↦ absurd (known e)
  | inr (old, e) ↦ ground (
    arith,
    e,
    eq_iff id j,
    Dict.lookup-insert id j (record row { total_observations = old.total_observations + 1 }) rows,
  )
]

pub insert_tracker-kept :
    (id : String) (row : TrackerRow) (rows : List (String × TrackerRow)) (j : String)
    → Dict.lookup j rows ≢ none
    → Dict.lookup j (insert_tracker id row rows) ≢ none
unfolding insert_tracker
insert_tracker-kept id row rows j known = elim (Option-cases (Dict.lookup id rows)) [
  | inl e ↦ λ n. ground (arith, e, Dict.lookup-insert id j row rows)
  | inr (old, e) ↦ λ n. ground (
    arith,
    e,
    Dict.lookup-insert id j (record old { total_observations = old.total_observations + 1 }) rows,
  )
]

pub update_tracker-kept :
    (id : String) (row : TrackerRow) (rows : List (String × TrackerRow)) (j : String)
    → Dict.lookup j rows ≢ none
    → Dict.lookup j (update_tracker id row rows) ≢ none
unfolding update_tracker
update_tracker-kept id row rows j known = elim (Option-cases (Dict.lookup id rows)) [
  | inl e ↦ λ n. ground (arith, e)
  | inr (old, e) ↦ λ n. ground (
    arith,
    e,
    Dict.lookup-insert id j (record row { total_observations = old.total_observations + 1 }) rows,
  )
]
