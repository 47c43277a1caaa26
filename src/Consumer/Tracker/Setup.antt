-- ===== src/Consumer/Tracker/Setup.antt =====
-- setupDatabase and loadIPMetadataFromCSV of consumer/db.go: the tables, and the rows that the table of
-- addresses starts with. Every error of the second is wrapped and dropped.
use valtrack.Base.{
  ◌≤◌, ℤ, pos, eq_ℤ, String, List, [], ◌∷◌, length, All, Bool, true, Option, none, some, Error,
  Result, ok, err, Outcome, returns, panics, ◌>>=◌, if◌then◌else◌, ◌≡◌, refl, inl, inr, arith,
  Bool-cases,
}
use valtrack.Consumer.Tracker.{nil_deref, IpMetaData, Tables, Parsers, insert_ip_metadata}
use valtrack.Consumer.Tracker.Rounds.{insert_ip_metadata-cases}

-- The statement that makes a table.
pub data Statement : Type 0 where
  create_tracker_table create_ip_metadata_table create_validator_counts_table : Statement

-- The statements that are executed, given the error of each, and the error.
unfoldable pub setup_database :
    Option Error → Option Error → Option Error → List Statement × Option Error
setup_database (some e) _ _ = (create_tracker_table ∷ [], some e)
setup_database none (some e) _ = (create_tracker_table ∷ create_ip_metadata_table ∷ [], some e)
setup_database none none e =
    (create_tracker_table ∷ create_ip_metadata_table ∷ create_validator_counts_table ∷ [], e)

pub record AsnJson : Type 0 where
  pub asn : String
  pub asn_organization : String
  pub type : String

-- What is read and answered: the records of the file, the count of the table's rows, whether the
-- transaction begins, its statement is prepared, and it is committed, and whether a record's row is taken. `json.Unmarshal` leaves its
-- target's empty texts where it fails.
pub record CsvAnswers : Type 0 where
  pub records : Result (List (List String))
  pub row_count : Result ℤ
  pub begins : Bool
  pub prepares : Bool
  pub commits : Bool
  pub written : List String → Bool
  pub asn_of : String → AsnJson

abbrev records_of : Result (List (List String)) → List (List String)
records_of (ok records) = records
records_of (err e) = []

abbrev count_of : Result ℤ → ℤ
count_of (ok n) = n
count_of (err e) = pos 0

abbrev ip_meta_data :
    (String → AsnJson)
    → String
    → String
    → String
    → String
    → String
    → String
    → String
    → String
    → IpMetaData
ip_meta_data asn_of ip hostname city region country lat_long postal asn = record {
  ip = ip;
  hostname = hostname;
  city = city;
  region = region;
  country = country;
  lat_long = lat_long;
  postal = postal;
  asn = (asn_of asn).asn;
  asn_org = (asn_of asn).asn_organization;
  asn_type = (asn_of asn).type;
}

module _ {F : Type 0} (P : Parsers F) where
  -- The loop's body: nine columns are read. Whether the row is refused is given with it.
  unfoldable pub load_record :
      (String → AsnJson) → Bool → List String → Tables F → Outcome (Tables F)
  load_record asn_of written
        (ip ∷ hostname ∷ city ∷ region ∷ country ∷ lat_long ∷ _ ∷ postal ∷ asn ∷ _) t =
      do
        (_, t') ←
            insert_ip_metadata P.split P.parse_float written
              (ip_meta_data asn_of ip hostname city region country lat_long postal asn) (some t)
        returns t'
  load_record asn_of written _ t = panics "index out of range"

  -- The statement is nil, and a call of it panics, unless it was prepared.
  unfoldable pub load_records : CsvAnswers → List (List String) → Tables F → Outcome (Tables F)
  unfolding load_record
  load_records answers [] t = returns t
  load_records answers (r ∷ rs) t = do
    t' ← load_record answers.asn_of (answers.written r) r t
    if answers.prepares then load_records answers rs t' else panics nil_deref

  -- The committed tables. The error that the function returns is always nil.
  unfoldable pub load_ip_metadata_from_csv : CsvAnswers → Tables F → Outcome (Tables F)
  unfolding load_records
  load_ip_metadata_from_csv answers t =
      if eq_ℤ (count_of answers.row_count) (pos 0)
      then (if answers.begins
          then (do
            t' ← load_records answers (records_of answers.records) t
            returns (if answers.commits then t' else t))
          else panics nil_deref)
      else returns t

  -- A record with the nine columns that are read, whose position has two parts.
  abbrev IsWhole : List String → Type 0
  IsWhole (_ ∷ _ ∷ _ ∷ _ ∷ _ ∷ lat_long ∷ _ ∷ _ ∷ _ ∷ _) = 2 ≤ length (P.split lat_long)
  IsWhole _ = ⊥

  load_record-returns :
      (asn_of : String → AsnJson) (written : Bool) (r : List String) (t : Tables F)
      → IsWhole r
      → (t' : Tables F) × (load_record asn_of written r t ≡ returns t')
  unfolding load_record
  load_record-returns asn_of written
        (ip ∷ hostname ∷ city ∷ region ∷ country ∷ lat_long ∷ x ∷ postal ∷ asn ∷ more) t h =
      elim (insert_ip_metadata-cases P.split P.parse_float written
        (ip_meta_data asn_of ip hostname city region country lat_long postal asn) t) [
          | inl (short, _) ↦ absurd (omega arith)
          | inr (_, r, e) ↦ (r.1, rw e refl)
        ]
  load_record-returns asn_of written _ t h = absurd h

  load_records-returns :
      (answers : CsvAnswers) (rs : List (List String)) (t : Tables F)
      → answers.prepares ≡ true
      → All IsWhole rs
      → (t' : Tables F) × (load_records answers rs t ≡ returns t')
  unfolding load_records
  load_records-returns answers [] t p h = (t, refl)
  load_records-returns answers (r ∷ rs) t p h =
      let (t₁, e) = load_record-returns answers.asn_of (answers.written r) r t h.0 in
      let (t₂, f) = load_records-returns answers rs t₁ p h.1 in (t₂, rw (e, p) f)

  -- If the transaction begins, its statement is prepared, and each record that is read has nine columns
  -- and a position of two parts, the table is loaded without a panic.
  pub load_ip_metadata_from_csv-returns :
      (answers : CsvAnswers) (t : Tables F)
      → answers.begins ≡ true
      → answers.prepares ≡ true
      → All IsWhole (records_of answers.records)
      → (t' : Tables F) × (load_ip_metadata_from_csv answers t ≡ returns t')
  unfolding load_ip_metadata_from_csv
  load_ip_metadata_from_csv-returns answers t b p h =
      let (t₁, e) = load_records-returns answers (records_of answers.records) t p h in
      elim (Bool-cases (eq_ℤ (count_of answers.row_count) (pos 0))) [
        | inl z ↦ (if answers.commits then t₁ else t, simp (z, b, e) refl)
        | inr z ↦ (t, rw z refl)
      ]
