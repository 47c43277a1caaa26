-- ===== src/Consumer/Dune/Calls.antt =====
-- When each call of dune.go succeeds.
use valtrack.Base.{
  ℕ, String, List, ◌++◌, map, none, Result, ok, Result-cases, Option-cases, ◌≡◌, ◌↔◌, refl, arith,
  inl, inr,
}
use valtrack.Consumer.Dune.{
  Dune, Formats, Response, HttpCalls, Session, ValidatorNonAdminTracker, wrapping, ◌>>=◌, dated,
  fetch_data_from_api, clear_table_data, insert_body, insert,
}

module _ {A B : Type 0} where
  pub bind-ok :
      (x : Session A) (f : A → Session B) (b : B)
      → (x >>= f).result ≡ ok b
      → (a : A) × (x.result ≡ ok a) × ((f a).result ≡ ok b)
  bind-ok x f b h = elim (Result-cases x.result) [
    | inl (a, e) ↦ (a, e, rw e at h)
    | inr (m, e) ↦ absurd (ground arith)
  ]

  -- A call that succeeds hands its value on, and its requests come first.
  pub ok-bind :
      (x : Session A) (f : A → Session B) (a : A)
      → x.result ≡ ok a
      → x >>= f ≡ record { sent = x.sent ++ (f a).sent; result = (f a).result }
  ok-bind x f a h = rw h refl

pub wrapped-ok :
    {A : Type 0} (message : String) (x : Session A) (a : A)
    → ((wrapping message x).result ≡ ok a) ↔ (x.result ≡ ok a)
wrapped-ok message x a = elim (Result-cases x.result) [
  | inl (b, e) ↦ ground arith
  | inr (m, e) ↦ ground arith
]

-- The call went through, and its response is that of a success.
abbrev pub IsDone : HttpCalls → Type 0
IsDone calls =
    (calls.new_request ≡ none) × (r : Response) × (calls.answer ≡ ok r) × (r.status ≡ 200)

module _ {F : Type 0} (W : Formats F) where
  pub clear_table_data-ok_iff :
      (d : Dune) (table : String) (calls : HttpCalls)
      → ((clear_table_data W d table calls).result ≡ ok tt) ↔ IsDone calls
  unfolding clear_table_data
  clear_table_data-ok_iff d table calls = ((λ h. done h), (λ h. ground arith))
    where
      done : (clear_table_data W d table calls).result ≡ ok tt → IsDone calls
      done h = elim (Option-cases calls.new_request) [
        | inr (e, x) ↦ absurd (ground arith)
        | inl x ↦ (elim (Result-cases calls.answer) [
          | inr (e, y) ↦ absurd (ground arith)
          | inl (r, y) ↦ (x, r, y, ground arith)
        ])
      ]

  pub insert-ok_iff :
      (d : Dune) (table : String) (rows : List (ValidatorNonAdminTracker F)) (calls : HttpCalls)
      → ((insert W d table rows calls).result ≡ ok tt)
        ↔ (((body : List ℕ) × (insert_body W rows ≡ ok body)) × IsDone calls)
  unfolding insert
  insert-ok_iff d table rows calls = ((λ h. done h), (λ h. ground arith))
    where
      done :
          (insert W d table rows calls).result ≡ ok tt
          → ((body : List ℕ) × (insert_body W rows ≡ ok body)) × IsDone calls
      done h = elim (Result-cases (insert_body W rows)) [
        | inr (e, z) ↦ absurd (ground arith)
        | inl (body, z) ↦ (elim (Option-cases calls.new_request) [
          | inr (e, x) ↦ absurd (ground arith)
          | inl x ↦ (elim (Result-cases calls.answer) [
            | inr (e, y) ↦ absurd (ground arith)
            | inl (r, y) ↦ ((body, z), (x, r, y, ground arith))
          ])
        ])
      ]

  pub fetch_data_from_api-ok_iff :
      (url : String) (answer : Result Response)
      (decoded : Result (List (ValidatorNonAdminTracker F)))
      (rows : List (ValidatorNonAdminTracker F))
      → ((fetch_data_from_api W url answer decoded).result ≡ ok rows) ↔ (
          (r : Response) × (raw : List (ValidatorNonAdminTracker F)) × (answer ≡ ok r)
          × (decoded ≡ ok raw)
          × (rows ≡ map (dated W) raw))
  unfolding fetch_data_from_api
  fetch_data_from_api-ok_iff url answer decoded rows = ((λ h. done h), (λ h. ground arith))
    where
      done :
          (fetch_data_from_api W url answer decoded).result ≡ ok rows
          → (r : Response) × (raw : List (ValidatorNonAdminTracker F)) × (answer ≡ ok r)
            × (decoded ≡ ok raw)
            × (rows ≡ map (dated W) raw)
      done h = elim (Result-cases answer) [
        | inr (e, x) ↦ absurd (ground arith)
        | inl (r, x) ↦ (elim (Result-cases decoded) [
          | inr (e, y) ↦ absurd (ground arith)
          | inl (raw, y) ↦ (r, raw, x, y, ground arith)
        ])
      ]
