-- ===== src/Consumer/Api/Privacy.antt =====
-- What the API of consumer/api.go tells a caller without a key.
use valtrack.Base.{
  String, str_eq, List, [], ◌∷◌, true, false, none, Result, ok, err, ◌≡◌, refl, inl, inr, arith,
  Bool-cases,
}
use valtrack.Base.Dict
use valtrack.Consumer.Api.{
  Floats, ValidatorTracker, read_keys, load_api_keys, shown, keep_best, collect, get_validators,
}

read_keys-empty :
    (trim : String → String) (lines : List String) → Dict.lookup "" (read_keys trim lines) ≡ none
unfolding read_keys
read_keys-empty trim [] = unfold Dict.lookup in refl
read_keys-empty trim (l ∷ lines) = elim (Bool-cases (str_eq (trim l) "")) [
  | inl e ↦ rw e (read_keys-empty trim lines)
  | inr e ↦
      rw (e, Dict.lookup-insert (trim l) "" true (read_keys trim lines), e)
        (read_keys-empty trim lines)
]

-- The empty key is never an administrator's, whatever lines the key file has.
pub load_api_keys-empty :
    (trim : String → String) (file : Result (List String)) → load_api_keys trim file "" ≡ false
unfolding load_api_keys
load_api_keys-empty trim (err e) = refl
load_api_keys-empty trim (ok lines) = rw (read_keys-empty trim lines)

module _ {F : Floats} where
  -- Two rows that a caller without a key must not be able to tell apart: they may differ in the record,
  -- the addresses and the host name, and in the position within a tenth of a degree.
  pub record SamePublic (a b : ValidatorTracker F) : Type 0 where
    pub peer_id : a.peer_id ≡ b.peer_id
    pub port : a.port ≡ b.port
    pub last_seen : a.last_seen ≡ b.last_seen
    pub last_epoch : a.last_epoch ≡ b.last_epoch
    pub client_version : a.client_version ≡ b.client_version
    pub validator_count : a.validator_count ≡ b.validator_count
    pub accuracy :
        F.round_hundredth a.validator_count_accuracy ≡ F.round_hundredth b.validator_count_accuracy
    pub total_observations : a.total_observations ≡ b.total_observations
    pub city : a.city ≡ b.city
    pub region : a.region ≡ b.region
    pub country : a.country ≡ b.country
    pub latitude : F.round_tenth a.latitude ≡ F.round_tenth b.latitude
    pub longitude : F.round_tenth a.longitude ≡ F.round_tenth b.longitude
    pub postal_code : a.postal_code ≡ b.postal_code
    pub asn : a.asn ≡ b.asn
    pub asn_organization : a.asn_organization ≡ b.asn_organization
    pub asn_type : a.asn_type ≡ b.asn_type

  abbrev pub SameRows :
      List (Result (ValidatorTracker F)) → List (Result (ValidatorTracker F)) → Type 0
  SameRows [] [] = Unit
  SameRows (ok a ∷ l) (ok b ∷ k) = SamePublic a b × SameRows l k
  SameRows (err d ∷ l) (err e ∷ k) = SameRows l k
  SameRows _ _ = ⊥

  shown_same : (a b : ValidatorTracker F) → SamePublic a b → shown false a ≡ shown false b
  unfolding shown
  shown_same a b h = ground arith

  collect_same :
      (rows rows' : List (Result (ValidatorTracker F))) (by_id : List (String × ValidatorTracker F))
      → SameRows rows rows'
      → collect false rows by_id ≡ collect false rows' by_id
  unfolding collect
  collect_same [] [] by_id h = refl
  collect_same [] (_ ∷ _) by_id h = absurd h
  collect_same (ok a ∷ l) (ok b ∷ k) by_id h =
      rw (shown_same a b h.0) (collect_same l k (keep_best (shown false b) by_id) h.1)
  collect_same (ok a ∷ l) (err e ∷ k) by_id h = absurd h
  collect_same (ok a ∷ l) [] by_id h = absurd h
  collect_same (err d ∷ l) (err e ∷ k) by_id h = refl
  collect_same (err d ∷ l) (ok b ∷ k) by_id h = absurd h
  collect_same (err d ∷ l) [] by_id h = absurd h

  -- A caller that is no administrator gets the same response from any two query results whose rows
  -- differ only in the node records, the addresses, the host names, and the positions and
  -- accuracies within their rounding.
  pub get_validators-private :
      (rows rows' : List (Result (ValidatorTracker F)))
      → SameRows rows rows'
      → get_validators false (ok rows) ≡ get_validators false (ok rows')
  unfolding get_validators
  get_validators-private rows rows' h = rw (collect_same rows rows' [] h)
