-- ===== src/Consumer/Dune/Body.antt =====
-- What Insert of dune.go sends.
use valtrack.Base.{ℕ, List, [], ◌∷◌, ◌++◌, ok, Result-cases, ◌≡◌, arith, inl, inr}
use valtrack.Text.{Bytes, split}
use valtrack.Text.Laws.{Lacks, split-whole}
use valtrack.Consumer.Dune.{ValidatorNonAdminTracker, Formats, insert_body}

Lacks-append : (sep : ℕ) (xs ys : Bytes) → Lacks sep xs → Lacks sep ys → Lacks sep (xs ++ ys)
Lacks-append sep [] ys h k = k
Lacks-append sep (x ∷ xs) ys h k = (h.0, Lacks-append sep xs ys h.1 k)

module _ {F : Type 0} (W : Formats F) where
  -- `json.Marshal` escapes line feeds, so no encoding has one.
  abbrev pub IsOneLine : ValidatorNonAdminTracker F → Type 0
  IsOneLine v = (line : Bytes) → W.marshal_row v ≡ ok line → Lacks b'\n' line

  insert_body-Lacks :
      (rows : List (ValidatorNonAdminTracker F)) (body : Bytes)
      → ((v : ValidatorNonAdminTracker F) → IsOneLine v)
      → insert_body W rows ≡ ok body
      → Lacks b'\n' body
  unfolding insert_body
  insert_body-Lacks [] [] one h = tt
  insert_body-Lacks [] (c ∷ body) one h = absurd (ground arith)
  insert_body-Lacks (v ∷ rows) body one h = elim (Result-cases (W.marshal_row v)) [
    | inr (e, x) ↦ absurd (ground arith)
    | inl (line, x) ↦ (elim (Result-cases (insert_body W rows)) [
      | inr (e, y) ↦ absurd (ground arith)
      | inl (rest, y) ↦
          let both =
            Lacks-append b'\n' line rest (one v line x) (insert_body-Lacks rows rest one y) in
          ground arith
    ])
  ]

  -- If no encoding of a validator has a line feed, the body that is sent to Dune is a single line,
  -- however many validators it has.
  pub insert_body-split :
      (rows : List (ValidatorNonAdminTracker F)) (body : Bytes)
      → ((v : ValidatorNonAdminTracker F) → IsOneLine v)
      → insert_body W rows ≡ ok body
      → split body b'\n' ≡ body ∷ []
  insert_body-split rows body one h = split-whole b'\n' body (insert_body-Lacks rows body one h)
