-- ===== src/Consumer/Api.antt =====
-- consumer/api.go: the HTTP handler that serves the validators. The rows of the query and the API key
-- file are given; floats are go's `float64`, with the two roundings that the handler makes.
pub mod Privacy
pub mod Best
use valtrack.Base.{
  ℕ, ltb, ℤ, ltb_ℤ, String, str_eq, List, [], ◌∷◌, map, Bool, true, false, ◌||◌, Option, none, some,
  Result, ok, err, Error, if◌then◌else◌,
}
use valtrack.Base.Dict

-- `round_tenth x` is `math.Round(x*10) / 10` and `round_hundredth x` is `math.Round(x*100) / 100`.
pub record Floats : Type 1 where
  pub Float : Type 0
  pub round_tenth : Float → Float
  pub round_hundredth : Float → Float

pub record ValidatorTracker (F : Floats) : Type 0 where
  pub peer_id : String
  pub enr : String
  pub multiaddr : String
  pub ip : String
  pub port : ℤ
  pub last_seen : ℤ
  pub last_epoch : ℤ
  pub client_version : String
  pub validator_count : ℤ
  pub validator_count_accuracy : F.Float
  pub total_observations : ℤ
  pub hostname : String
  pub city : String
  pub region : String
  pub country : String
  pub latitude : F.Float
  pub longitude : F.Float
  pub postal_code : String
  pub asn : String
  pub asn_organization : String
  pub asn_type : String

-- The map that `loadAPIKeys` fills from the lines of the file. `trim` is `strings.TrimSpace`; nothing
-- depends on which characters it takes for spaces.
unfoldable pub read_keys : (String → String) → List String → List (String × Bool)
read_keys trim [] = []
read_keys trim (l ∷ lines) =
    let keys = read_keys trim lines in
    if str_eq (trim l) "" then keys else Dict.insert (trim l) true keys

abbrev or_false : Option Bool → Bool
or_false none = false
or_false (some b) = b

-- Whether the key is known; the file may fail to open, and the scanner to read on, which the caller
-- ignores.
unfoldable pub load_api_keys : (String → String) → Result (List String) → String → Bool
unfolding read_keys
load_api_keys trim (err e) key = false
load_api_keys trim (ok lines) key = or_false (Dict.lookup key (read_keys trim lines))

-- What the handler does: an error with status 500, the end of the process (`log.Fatalf`), or the
-- validators as JSON.
pub data Response (F : Floats) : Type 0 where
  internal_server_error : Response F
  exits : Response F
  validators : List (ValidatorTracker F) → Response F

module _ {F : Floats} where
  -- What the loop does to a row before it looks at the map.
  unfoldable pub shown : Bool → ValidatorTracker F → ValidatorTracker F
  shown is_admin vm =
      let vm' = if is_admin then vm else record vm {
        enr = "";
        multiaddr = "";
        ip = "";
        hostname = "";
        latitude = F.round_tenth vm.latitude;
        longitude = F.round_tenth vm.longitude;
      } in
      record vm' { validator_count_accuracy = F.round_hundredth vm.validator_count_accuracy }

  abbrev pub is_better : ValidatorTracker F → Option (ValidatorTracker F) → Bool
  is_better vm none = true
  is_better vm (some existing) = ltb_ℤ existing.validator_count vm.validator_count

  -- `existing, ok := peerIDMap[vm.PeerID]` and the `if` below it.
  unfoldable pub keep_best :
      ValidatorTracker F → List (String × ValidatorTracker F) → List (String × ValidatorTracker F)
  keep_best vm by_id =
      if is_better vm (Dict.lookup vm.peer_id by_id) then Dict.insert vm.peer_id vm by_id else by_id

  -- The loop over the rows, of which each is read or fails to be; `none` is the end of the process.
  unfoldable pub collect :
      Bool
      → List (Result (ValidatorTracker F))
      → List (String × ValidatorTracker F)
      → Option (List (String × ValidatorTracker F))
  collect is_admin [] by_id = some by_id
  collect is_admin (err e ∷ rows) by_id = none
  collect is_admin (ok vm ∷ rows) by_id =
      collect is_admin rows (keep_best (shown is_admin vm) by_id)

  abbrev respond : Option (List (String × ValidatorTracker F)) → Response F
  respond none = exits
  respond (some by_id) = validators (map (λ e. e.1) by_id)

  unfoldable pub get_validators : Bool → Result (List (Result (ValidatorTracker F))) → Response F
  unfolding collect
  get_validators is_admin (err e) = internal_server_error
  get_validators is_admin (ok rows) = respond (collect is_admin rows [])
