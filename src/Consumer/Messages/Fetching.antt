-- ===== src/Consumer/Messages/Fetching.antt =====
-- Start of consumer.go: the loop that fetches batches of messages.
use valtrack.Base.{
  ℕ, List, [], ◌∷◌, ◌++◌, Bool, Option, none, some, Error, Result, ok, err, Outcome, returns,
  Outcome-cases, ◌>>=◌, ◌≡◌, refl, inl, inr,
}
use valtrack.Consumer.Messages.{Consumer, Message, Verdict, handle_message, handle_messages}

-- What `FetchNoWait` and the batch's `Error` answer.
pub data Fetched : Type 0 where
  fetch_failed batch_failed : Error → Fetched
  batch : List Message → Fetched

-- The error of opening the stream or of making the consumer, or that the loop is started.
unfoldable pub start : Option Error → Option Error → Result (Unit {0})
start (some e) _ = err e
start none (some e) = err e
start none none = ok tt

module _ (bit_at : List ℕ → ℕ → Bool) where
  -- The loop ends at the first error.
  unfoldable pub fetch_loop : List Fetched → Consumer → Outcome (List Verdict × Consumer)
  unfolding handle_messages
  fetch_loop [] c = returns ([], c)
  fetch_loop (fetch_failed e ∷ _) c = returns ([], c)
  fetch_loop (batch_failed e ∷ _) c = returns ([], c)
  fetch_loop (batch ms ∷ fs) c = do
    (vs, c₁) ← handle_messages bit_at ms c
    (vs', c₂) ← fetch_loop fs c₁
    returns (vs ++ vs', c₂)

  -- The messages of the batches before the first error.
  abbrev pub delivered : List Fetched → List Message
  delivered [] = []
  delivered (fetch_failed e ∷ _) = []
  delivered (batch_failed e ∷ _) = []
  delivered (batch ms ∷ fs) = ms ++ delivered fs

  handle_messages-append :
      (ms ns : List Message) (c : Consumer)
      → handle_messages bit_at (ms ++ ns) c ≡ (
          handle_messages bit_at ms c >>= λ (vs, c₁).
          handle_messages bit_at ns c₁ >>= λ (vs', c₂). returns (vs ++ vs', c₂))
  unfolding handle_messages
  handle_messages-append [] ns c = elim (Outcome-cases (handle_messages bit_at ns c)) [
    | inl (r, e) ↦ rw e refl
    | inr (m, e) ↦ rw e refl
  ]
  handle_messages-append (m ∷ ms) ns c = elim (Outcome-cases (handle_message bit_at m c)) [
    | inr (x, e) ↦ rw (e, handle_messages) refl
    | inl ((v, c₁), e) ↦ (elim (Outcome-cases (handle_messages bit_at ms c₁)) [
      | inr (x, f) ↦ rw (e, handle_messages, handle_messages-append ms ns c₁, f) refl
      | inl ((vs, c₂), f) ↦ (elim (Outcome-cases (handle_messages bit_at ns c₂)) [
        | inr (x, g) ↦ rw (e, handle_messages, handle_messages-append ms ns c₁, f, g) refl
        | inl (r, g) ↦ rw (e, handle_messages, handle_messages-append ms ns c₁, f, g) refl
      ])
    ])
  ]

  -- The consumer's loop handles exactly the messages of the batches that are fetched before the
  -- first error, in order, and none after it.
  pub fetch_loop-delivered :
      (fs : List Fetched) (c : Consumer) → fetch_loop fs c ≡ handle_messages bit_at (delivered fs) c
  unfolding fetch_loop
  fetch_loop-delivered [] c = refl
  fetch_loop-delivered (fetch_failed e ∷ fs) c = refl
  fetch_loop-delivered (batch_failed e ∷ fs) c = refl
  fetch_loop-delivered (batch ms ∷ fs) c = elim (Outcome-cases (handle_messages bit_at ms c)) [
    | inr (x, e) ↦ rw (handle_messages-append ms (delivered fs) c, e, fetch_loop) refl
    | inl ((vs, c₁), e) ↦
        rw (handle_messages-append ms (delivered fs) c, e, fetch_loop, fetch_loop-delivered fs c₁)
          refl
  ]
