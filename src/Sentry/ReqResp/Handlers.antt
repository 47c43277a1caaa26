-- ===== src/Sentry/ReqResp/Handlers.antt =====
-- The handlers and the requests of reqresp.go, on every answer that the stream can give.
use valtrack.Base.{
  ℕ, String, none, some, Error, Result, ok, err, returns, ◌≡◌, ◌≢◌, ◌↔◌, refl, arith, inl, inr,
  Option-cases, wrap,
}
use valtrack.Sentry.Wire.{Wire, Status}
use valtrack.Sentry.Peerstore.{Peerstore}
use valtrack.Sentry.Stream.{
  Stream, Exchange, status_payload, read_request, write_response, write_request, read_response,
}
use valtrack.Sentry.ReqResp.{
  ReqResp, cpy_status, status_reply, status_handler, request_status, status_body,
}

module _ {W : Wire} where
  -- A request that cannot be read is an error, which leaves the peer store alone.
  status_handler-unread :
      (r : ReqResp) (pid : String) (now : ℕ) (s : Stream Status) (store : Peerstore W) (e : Error)
      → (read_request s).result ≡ err e
      → (x : Exchange (Unit {0})) × (status_handler r pid now s store ≡ returns (x, store))
        × (x.result ≢ ok tt)
  unfolding status_handler
  status_handler-unread r pid now s store e h = (
    record { calls = (read_request s).calls; result = err _ },
    rw (h, status_handler),
    λ (k : err (wrap "read status request" e) ≡ ok tt). cc,
  )

-- The reply to a status request succeeds exactly if the node has a status, the response with that
-- status is written, and the stream closes.
pub status_reply-ok_iff :
    (r : ReqResp) (s : Stream Status)
    → ((status_reply r s).result ≡ ok tt) ↔ (
        (st : Status) × (r.status ≡ some st)
        × ((write_response s (status_payload st)).result ≡ ok tt)
        × (s.closed ≡ none))
unfolding status_reply cpy_status
status_reply-ok_iff r s = (sent, (λ h. ground arith))
  where
    sent :
        (status_reply r s).result ≡ ok tt
        → (st : Status) × (r.status ≡ some st)
          × ((write_response s (status_payload st)).result ≡ ok tt)
          × (s.closed ≡ none)
    sent h = elim (Option-cases r.status) [
      | inl e ↦ absurd (ground arith)
      | inr (st, e) ↦ (st, e, ground arith, ground arith)
    ]

-- A status request yields an answer exactly if the stream opens, the node has a status to send, the
-- request goes out, and the response is read as that answer.
pub request_status-ok_iff :
    (r : ReqResp) (stream : Result (Stream Status)) (answer : Status)
    → ((request_status r stream).result ≡ ok answer) ↔ (
        (s : Stream Status) × (st : Status) × (stream ≡ ok s)
        × (r.status ≡ some st)
        × ((write_request s (status_payload st)).result ≡ ok tt)
        × ((read_response s).result ≡ ok answer))
unfolding request_status status_body cpy_status
request_status-ok_iff r (err e) answer = ((λ h. cc), (λ h. ground arith))
request_status-ok_iff r (ok s) answer = (got, (λ h. ground arith))
  where
    got :
        (request_status r (ok s)).result ≡ ok answer
        → (s' : Stream Status) × (st : Status) × (ok s ≡ ok s')
          × (r.status ≡ some st)
          × ((write_request s' (status_payload st)).result ≡ ok tt)
          × ((read_response s').result ≡ ok answer)
    got h = elim (Option-cases r.status) [
      | inl e ↦ absurd (ground arith)
      | inr (st, e) ↦ (s, st, refl, e, ground arith, ground arith)
    ]
