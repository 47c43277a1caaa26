-- ===== src/Sentry/Stream/Framing.antt =====
-- Which calls the message functions of reqresp.go make, and when they succeed.
use valtrack.Base.{ℕ, List, [], ◌∷◌, none, ok, ◌≡◌, ◌≢◌, ◌↔◌, arith, IsBeginning}
use valtrack.Sentry.Stream.{
  Stream, Payload, Call, set_read_deadline, set_write_deadline, read_code, read_all, close_write,
  write_code, encode, read_request, read_response, write_response,
}

abbrev pub response_calls : Payload → List Call
response_calls p = set_write_deadline ∷ write_code 0 ∷ encode p ∷ close_write ∷ []

module _ {A : Type 0} where
  -- A response is accepted, as a given message, exactly if every call on the stream succeeds, the
  -- code is 0 and that message is decoded.
  pub read_response-ok_iff :
      (s : Stream A) (a : A)
      → ((read_response s).result ≡ ok a)
        ↔ ((s.read_deadline ≡ none) × (s.code ≡ ok 0) × (s.message ≡ ok a) × (s.read_closed ≡ none))
  unfolding read_response
  read_response-ok_iff s a = ((λ h. ground arith), (λ h. ground arith))

  -- A response with a code other than 0 is an error, and nothing of it is decoded.
  pub read_response_refused :
      (s : Stream A) (c : ℕ)
      → s.code ≡ ok c
      → c ≢ 0
      → IsBeginning (read_response s).calls (set_read_deadline ∷ read_code ∷ read_all ∷ [])
        × ((a : A) → (read_response s).result ≢ ok a)
  unfolding read_response
  read_response_refused s c h n = (ground arith, λ a r. ground arith)

  pub read_request-ok_iff :
      (s : Stream A) (a : A)
      → ((read_request s).result ≡ ok a)
        ↔ ((s.read_deadline ≡ none) × (s.message ≡ ok a) × (s.read_closed ≡ none))
  unfolding read_request
  read_request-ok_iff s a = ((λ h. ground arith), (λ h. ground arith))

  -- The calls of writeResponse are always a beginning of deadline, code byte 0, payload, close of
  -- the writing side; it succeeds exactly if none of them fails and all of them have been made.
  pub write_response_lem :
      (s : Stream A) (p : Payload)
      → IsBeginning (write_response s p).calls (response_calls p)
        × (((write_response s p).result ≡ ok tt) ↔ (
            (s.write_deadline ≡ none)
            × (s.code_written ≡ none)
            × (s.encoded ≡ none)
            × (s.write_closed ≡ none)
            × ((write_response s p).calls ≡ response_calls p)))
  unfolding write_response
  write_response_lem s p = (ground arith, ((λ h. ground arith), (λ h. ground arith)))
