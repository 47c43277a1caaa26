-- ===== src/Consumer/Dune/Publish.antt =====
-- What publishToDune of dune.go has done when it ends.
use valtrack.Base.{ℕ, List, ◌++◌, map, ok, ◌≡◌, ◌↔◌, refl, ap, ◌∙◌}
use valtrack.Consumer.Dune.{
  Dune, Formats, Request, Response, Session, Answers, ValidatorNonAdminTracker, table_name, columns,
  wrapping, create_table, dated, fetch_data_from_api, clear_table_data, insert_body, insert,
  publish_to_dune,
}
use valtrack.Consumer.Dune.Calls.{
  bind-ok, ok-bind, wrapped-ok, IsDone, clear_table_data-ok_iff, insert-ok_iff,
  fetch_data_from_api-ok_iff,
}

module _ {F : Type 0} (W : Formats F) where
  -- The four calls of publishToDune.
  abbrev made : Dune → Answers F → Session (Unit {0})
  made d answers = create_table W d table_name columns answers.create

  abbrev got : Answers F → Session (List (ValidatorNonAdminTracker F))
  got answers =
      fetch_data_from_api W "http://localhost:8080/validators" answers.fetch answers.decoded

  abbrev emptied : Dune → Answers F → Session (Unit {0})
  emptied d answers = clear_table_data W d table_name answers.clear

  abbrev filled : Dune → Answers F → List (ValidatorNonAdminTracker F) → Session (Unit {0})
  filled d answers rows = insert W d table_name rows answers.insert

  abbrev before : List Request → Session (Unit {0}) → Session (Unit {0})
  before reqs x = record { sent = reqs ++ x.sent; result = x.result }

  reaches_insert :
      (d : Dune) (answers : Answers F) (rows : List (ValidatorNonAdminTracker F))
      → (made d answers).result ≡ ok tt
      → (got answers).result ≡ ok rows
      → (emptied d answers).result ≡ ok tt
      → publish_to_dune W d answers
        ≡ before (made d answers).sent (
            before (got answers).sent (
              before
                (emptied d answers).sent
                (wrapping "failed to insert data into table" (filled d answers rows))))
  unfolding publish_to_dune
  reaches_insert d answers rows c g x =
      ok-bind (wrapping "failed to create table in Dune" (made d answers)) _ tt
        ((wrapped-ok _ (made d answers) tt).1 c)
      ∙ ap (before (made d answers).sent) (
          ok-bind (wrapping "failed to fetch data from API" (got answers)) _ rows
            ((wrapped-ok _ (got answers) rows).1 g)
          ∙ ap (before (got answers).sent) (
              ok-bind (wrapping "failed to clear table data" (emptied d answers)) _ tt
                ((wrapped-ok _ (emptied d answers) tt).1 x)))

  -- publishToDune succeeds exactly if the table is created, the validators are fetched and decoded,
  -- all of them, dated, can be encoded, and both the clearing and the insertion are sent and
  -- answered with status 200.
  pub publish_to_dune-ok_iff :
      (d : Dune) (answers : Answers F)
      → ((publish_to_dune W d answers).result ≡ ok tt) ↔ (
          ((create_table W d table_name columns answers.create).result ≡ ok tt)
          × (r : Response) × (raw : List (ValidatorNonAdminTracker F)) × (body : List ℕ)
          × (answers.fetch ≡ ok r)
          × (answers.decoded ≡ ok raw)
          × (insert_body W (map (dated W) raw) ≡ ok body)
          × IsDone answers.clear
          × IsDone answers.insert)
  unfolding publish_to_dune
  publish_to_dune-ok_iff d answers = (there, back)
    where
      there :
          (publish_to_dune W d answers).result ≡ ok tt
          → ((made d answers).result ≡ ok tt)
            × (r : Response) × (raw : List (ValidatorNonAdminTracker F)) × (body : List ℕ)
            × (answers.fetch ≡ ok r)
            × (answers.decoded ≡ ok raw)
            × (insert_body W (map (dated W) raw) ≡ ok body)
            × IsDone answers.clear
            × IsDone answers.insert
      there h =
          let (_, e₁, h₁) =
            bind-ok (wrapping "failed to create table in Dune" (made d answers)) _ tt h in
          let (rows, e₂, h₂) =
            bind-ok (wrapping "failed to fetch data from API" (got answers)) _ tt h₁ in
          let (_, e₃, h₃) =
            bind-ok (wrapping "failed to clear table data" (emptied d answers)) _ tt h₂ in
          let (r, raw, f, x, dates) =
            (fetch_data_from_api-ok_iff W _ answers.fetch answers.decoded rows).0
              ((wrapped-ok _ (got answers) rows).0 e₂) in
          let ((body, b), done) =
            (insert-ok_iff W d table_name rows answers.insert).0
              ((wrapped-ok _ (filled d answers rows) tt).0 h₃) in
          (
            (wrapped-ok _ (made d answers) tt).0 e₁,
            r,
            raw,
            body,
            f,
            x,
            rw dates at b,
            (clear_table_data-ok_iff W d table_name answers.clear).0
                ((wrapped-ok _ (emptied d answers) tt).0 e₃),
            done,
          )

      back :
          (((made d answers).result ≡ ok tt)
            × (r : Response) × (raw : List (ValidatorNonAdminTracker F)) × (body : List ℕ)
            × (answers.fetch ≡ ok r)
            × (answers.decoded ≡ ok raw)
            × (insert_body W (map (dated W) raw) ≡ ok body)
            × IsDone answers.clear
            × IsDone answers.insert)
          → (publish_to_dune W d answers).result ≡ ok tt
      back (c, r, raw, body, f, x, b, cl, i) =
          let g =
            (fetch_data_from_api-ok_iff W _ answers.fetch answers.decoded _).1
              (r, raw, f, x, refl) in
          let emptied_ok = (clear_table_data-ok_iff W d table_name answers.clear).1 cl in
          let filled_ok =
            (insert-ok_iff W d table_name (map (dated W) raw) answers.insert).1 ((body, b), i) in
          ap (λ s. s.result) (reaches_insert d answers (map (dated W) raw) c g emptied_ok)
          ∙ (wrapped-ok _ (filled d answers (map (dated W) raw)) tt).1 filled_ok
