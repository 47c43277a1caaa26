-- ===== src/Consumer/Dune.antt =====
-- consumer/dune.go: the table of validators that is published to Dune. The answers of the HTTP calls
-- are given, and so are encoding/json's encoders and decoder and time's formatting.
pub mod Calls
pub mod Publish
pub mod Body
use Prim.Native.String.{◌++◌ as ◌^^◌}
use valtrack.Base.{
  ℕ, ◌==◌, ltb, ℤ, quot_ℤ, String, List, [], ◌∷◌, ◌++◌, map, Bool, true, false, ◌&&◌, not, Option,
  none, some, Error, new, wrap, Result, ok, err, if◌then◌else◌,
}
use valtrack.Text.{Bytes}

pub record Column : Type 0 where
  pub name : String
  pub type : String
  pub nullable : Bool

pub record CreateTableRequest : Type 0 where
  pub namespace : String
  pub table_name : String
  pub schema : List Column
  pub is_private : Bool
  pub description : String

pub record Dune : Type 0 where
  pub namespace : String
  pub api_key : String

-- The floating-point fields are of a type that is left open.
pub record ValidatorNonAdminTracker (F : Type 0) : Type 0 where
  pub peer_id : String
  pub port : ℤ
  pub last_seen : ℤ
  pub last_seen_date : String
  pub last_epoch : ℤ
  pub client_version : String
  pub validator_count : ℤ
  pub validator_count_accuracy : F
  pub total_observations : ℤ
  pub city : String
  pub region : String
  pub country : String
  pub latitude : F
  pub longitude : F
  pub postal_code : String
  pub asn : String
  pub asn_organization : String
  pub asn_type : String

-- The libraries: `%d`, the layout of a Unix time, and `json.Marshal`.
pub record Formats (F : Type 0) : Type 0 where
  pub show : ℕ → String
  pub date : ℤ → String
  pub marshal_create : CreateTableRequest → Result Bytes
  pub marshal_row : ValidatorNonAdminTracker F → Result Bytes

pub record Request : Type 0 where
  pub method : String
  pub url : String
  pub api_key : String
  pub content_type : String
  pub body : Bytes

pub record Response : Type 0 where
  pub status : ℕ
  pub text : Result String

-- The error of `http.NewRequest`, and the answer of `Do`.
pub record HttpCalls : Type 0 where
  pub new_request : Option Error
  pub answer : Result Response

-- The requests that went out, oldest first, and what came of them.
pub record Session (A : Type 0) : Type 0 where
  pub sent : List Request
  pub result : Result A

abbrev pub finish : {A : Type 0} → Result A → Session A
finish r = record { sent = []; result = r }

infixl 5 ◌>>=◌ ◌>>◌
abbrev pub ◌>>=◌ : {A B : Type 0} → Session A → (A → Session B) → Session B
x >>= f = elim x.result [
  | err e ↦ record { sent = x.sent; result = err e }
  | ok a ↦ record { sent = x.sent ++ (f a).sent; result = (f a).result }
]

abbrev pub ◌>>◌ : {A B : Type 0} → Session A → Session B → Session B
x >> y = x >>= λ _. y

-- `if err != nil { return fmt.Errorf("message: %w", err) }`
abbrev pub wrapping : {A : Type 0} → String → Session A → Session A
wrapping message x = record x {
  result = elim x.result [ ok a ↦ ok a | err e ↦ err (wrap message e) ];
}

abbrev pub send : String → String → HttpCalls → Request → Session Response
send unmade undone calls req = elim calls.new_request [
  | some e ↦ finish (err (wrap unmade e))
  | none ↦ record {
    sent = req ∷ [];
    result = elim calls.answer [ ok r ↦ ok r | err e ↦ err (wrap undone e) ];
  }
]

-- `time.Unix(ms/1000, 0).Format(…)`, by Go's division, which truncates.
unfoldable pub convert_to_readable_date : {F : Type 0} → Formats F → ℤ → String
convert_to_readable_date W ms = W.date (quot_ℤ ms 1000)

module _ {F : Type 0} (W : Formats F) where
  -- The error of a response that is refused.
  abbrev pub http_error : {A : Type 0} → Response → Result A
  http_error r = elim r.text [
    | err e ↦
        err (wrap ("could not read error response body for status code " ^^ W.show r.status) e)
    | ok text ↦ err (new ("HTTP error response: " ^^ W.show r.status ^^ " / " ^^ text))
  ]

  unfoldable pub create_table : Dune → String → List Column → HttpCalls → Session (Unit {0})
  create_table d table schema calls = do
    body ← wrapping "failed to marshal create table request" (
        finish (
          W.marshal_create (record {
            namespace = d.namespace;
            table_name = table;
            schema = schema;
            is_private = false;
            description = "Ethereum validators location data";
          })))
    r ← send "failed to create table request" "failed to create table" calls (record {
      method = "POST";
      url = "https://api.dune.com/api/v1/table/create";
      api_key = d.api_key;
      content_type = "application/json";
      body = body;
    })
    finish (if ltb 201 r.status && not (r.status == 409) then http_error r else ok tt)

  unfoldable pub dated : ValidatorNonAdminTracker F → ValidatorNonAdminTracker F
  unfolding convert_to_readable_date
  dated v = record v { last_seen_date = convert_to_readable_date W v.last_seen }

  -- `decoded` is the answer of the decoder of the response's body. The status is not looked at.
  unfoldable pub fetch_data_from_api :
      String
      → Result Response
      → Result (List (ValidatorNonAdminTracker F))
      → Session (List (ValidatorNonAdminTracker F))
  unfolding dated
  fetch_data_from_api url answer decoded = do
    _ ← wrapping "failed to fetch data from API" (record {
      sent =
          (record { method = "GET"; url = url; api_key = ""; content_type = ""; body = [] }) ∷ [];
      result = answer;
    })
    validators ← wrapping "failed to decode API response" (finish decoded)
    finish (ok (map dated validators))

  abbrev pub table_url : Dune → String → String → String
  table_url d table verb =
      "https://api.dune.com/api/v1/table/" ^^ d.namespace ^^ "/" ^^ table ^^ "/" ^^ verb

  unfoldable pub clear_table_data : Dune → String → HttpCalls → Session (Unit {0})
  clear_table_data d table calls = do
    r ← send "failed to create clear table request" "failed to clear table data" calls (record {
      method = "POST";
      url = table_url d table "clear";
      api_key = d.api_key;
      content_type = "";
      body = [];
    })
    finish (
        if r.status == 200
        then ok tt
        else err (new ("received non-OK response from clear table endpoint: " ^^ W.show r.status)))

  -- The buffer: the encodings of the rows, one right after the other.
  unfoldable pub insert_body : List (ValidatorNonAdminTracker F) → Result Bytes
  insert_body [] = ok []
  insert_body (v ∷ vs) = elim (W.marshal_row v) [
    | err e ↦ err (wrap "failed to marshal data" e)
    | ok line ↦ elim (insert_body vs) [ err e ↦ err e | ok rest ↦ ok (line ++ rest) ]
  ]

  unfoldable pub insert :
      Dune → String → List (ValidatorNonAdminTracker F) → HttpCalls → Session (Unit {0})
  unfolding insert_body
  insert d table rows calls = do
    body ← finish (insert_body rows)
    r ←
        send "failed to create insert data request" "failed to insert data into table" calls
          (record {
            method = "POST";
            url = table_url d table "insert";
            api_key = d.api_key;
            content_type = "application/x-ndjson";
            body = body;
          })
    finish (if r.status == 200 then ok tt else http_error r)

abbrev column : String → String → Bool → Column
column name type nullable = record { name = name; type = type; nullable = nullable }

abbrev pub columns : List Column
columns =
    column "peer_id" "varchar" false
    ∷ column "port" "integer" true
    ∷ column "last_seen" "bigint" true
    ∷ column "last_seen_date" "timestamp" true
    ∷ column "last_epoch" "integer" true
    ∷ column "client_version" "varchar" true
    ∷ column "validator_count" "integer" true
    ∷ column "validator_count_accuracy" "double" true
    ∷ column "total_observations" "integer" true
    ∷ column "city" "varchar" true
    ∷ column "region" "varchar" true
    ∷ column "country" "varchar" true
    ∷ column "latitude" "double" true
    ∷ column "longitude" "double" true
    ∷ column "postal_code" "varchar" true
    ∷ column "asn" "varchar" true
    ∷ column "asn_organization" "varchar" true
    ∷ column "asn_type" "varchar" true
    ∷ []

abbrev pub table_name : String
table_name = "validator_metadata"

pub record Answers (F : Type 0) : Type 0 where
  pub create : HttpCalls
  pub fetch : Result Response
  pub decoded : Result (List (ValidatorNonAdminTracker F))
  pub clear : HttpCalls
  pub insert : HttpCalls

-- The four calls of publishToDune, each after the one before has succeeded.
unfoldable pub publish_to_dune : {F : Type 0} → Formats F → Dune → Answers F → Session (Unit {0})
publish_to_dune W d answers = do
  wrapping "failed to create table in Dune" (create_table W d table_name columns answers.create)
  validators ←
      wrapping "failed to fetch data from API"
        (fetch_data_from_api W "http://localhost:8080/validators" answers.fetch answers.decoded)
  wrapping "failed to clear table data" (clear_table_data W d table_name answers.clear)
  wrapping "failed to insert data into table" (insert W d table_name validators answers.insert)
