-- ===== src/Consumer/Tests/Dunes.antt =====
-- The theorems on the publication to Dune at concrete inputs.
use valtrack.Base.{
  ℕ, zero, suc, negsuc, ℤ, pos, List, [], ◌∷◌, map, none, new, Result, ok, err, ◌≡◌, refl, arith,
}
use valtrack.Text.{Bytes, split}
use valtrack.Text.Laws.{Lacks}
use valtrack.Consumer.Dune.{
  Dune, Formats, HttpCalls, Answers, ValidatorNonAdminTracker, columns, table_name, create_table,
  dated, insert_body, publish_to_dune,
}
use valtrack.Consumer.Dune.Body.{IsOneLine, insert_body-split}
use valtrack.Consumer.Dune.Publish.{publish_to_dune-ok_iff}

-- The encoder knows a row by its port alone; it refuses port 0.
abbrev encode : ℤ → Result Bytes
encode (pos zero) = err (new "unsupported value")
encode port = ok (123 ∷ 125 ∷ [])

abbrev formats : Formats ℕ
formats = record {
  show = λ n. "200";
  date = λ t. "2024-06-01 00:00:00";
  marshal_create = λ req. ok (123 ∷ 125 ∷ []);
  marshal_row = λ v. encode v.port;
}

abbrev dune : Dune
dune = record { namespace = "chainbound"; api_key = "key" }

abbrev good : HttpCalls
good = record { new_request = none; answer = ok (record { status = 200; text = ok "" }) }

abbrev validator : ℤ → ValidatorNonAdminTracker ℕ
validator port = record {
  peer_id = "peer";
  port = port;
  last_seen = pos 1717200000000;
  last_seen_date = "";
  last_epoch = pos 4;
  client_version = "Lighthouse";
  validator_count = pos 2;
  validator_count_accuracy = 1;
  total_observations = pos 3;
  city = "Amsterdam";
  region = "";
  country = "NL";
  latitude = 52;
  longitude = 4;
  postal_code = "";
  asn = "";
  asn_organization = "";
  asn_type = "";
}

abbrev answers : List (ValidatorNonAdminTracker ℕ) → Answers ℕ
answers rows = record {
  create = good;
  fetch = ok (record { status = 200; text = ok "" });
  decoded = ok rows;
  clear = good;
  insert = good;
}

created :
    (rows : List (ValidatorNonAdminTracker ℕ))
    → (create_table formats dune table_name columns (answers rows).create).result ≡ ok tt
unfolding create_table
created rows = refl

abbrev two : List (ValidatorNonAdminTracker ℕ)
two = validator (pos 9000) ∷ validator (pos 9001) ∷ []

two_rows_encoded : insert_body formats two ≡ ok (123 ∷ 125 ∷ 123 ∷ 125 ∷ [])
unfolding insert_body
two_rows_encoded = refl

dated_rows_encoded : insert_body formats (map (dated formats) two) ≡ ok (123 ∷ 125 ∷ 123 ∷ 125 ∷ [])
unfolding insert_body dated
dated_rows_encoded = refl

one_line : (v : ValidatorNonAdminTracker ℕ) → IsOneLine formats v
one_line v line h = clear v.port h
  where
    clear : (port : ℤ) → encode port ≡ ok line → Lacks b'\n' line
    clear (pos zero) e = absurd (ground arith)
    clear (pos (suc n)) e =
        let same : 123 ∷ 125 ∷ [] ≡ line = ground arith in rw (← same) (ground arith)
    clear (negsuc n) e =
        let same : 123 ∷ 125 ∷ [] ≡ line = ground arith in rw (← same) (ground arith)

insert_body-split_example :
    split (123 ∷ 125 ∷ 123 ∷ 125 ∷ []) b'\n' ≡ (123 ∷ 125 ∷ 123 ∷ 125 ∷ []) ∷ []
insert_body-split_example =
    insert_body-split formats two (123 ∷ 125 ∷ 123 ∷ 125 ∷ []) one_line two_rows_encoded

publish_to_dune-ok_iff_example : (publish_to_dune formats dune (answers two)).result ≡ ok tt
publish_to_dune-ok_iff_example = (publish_to_dune-ok_iff formats dune (answers two)).1 (
  created two,
  record { status = 200; text = ok "" },
  two,
  123 ∷ 125 ∷ 123 ∷ 125 ∷ [],
  refl,
  refl,
  dated_rows_encoded,
  (refl, record { status = 200; text = ok "" }, refl, refl),
  (refl, record { status = 200; text = ok "" }, refl, refl),
)
