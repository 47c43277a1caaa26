-- ===== src/Sentry/Goroutines/Alone/Outbound.antt =====
-- The turns of an outbound handler of pkg/ethereum/node_notifiee.go in a row are the handler.
use valtrack.Base.{
  ℕ, suc, String, List, [], some, Error, Result, ok, err, wrap, Outcome, returns, ◌>>=◌,
  Result-cases, Option-cases, Bool-cases, >>=-assoc, >>=-same, ◌≡◌, refl, sym, ◌∙◌, inl, inr,
}
use valtrack.Sentry.Wire.{Wire, Status}
use valtrack.Sentry.Peerstore.{
  Peerstore, nil_deref, get, set_backoff, set_metadata, set_client_version, status_of,
  into_metadata_event,
}
use valtrack.Sentry.Peerstore
use valtrack.Sentry.ReqResp.{ReqResp, request_status, ping, request_meta_data}
use valtrack.Sentry.Stream.{Stream, write_request}
use valtrack.Sentry.Node.{Node, Interlude, interlude}
use valtrack.Sentry.Notifiee.{
  Meeting, follow_head, ask_metadata, handshake, clean_up, after_handshake, outbound_body,
  handle_outbound,
}
use valtrack.Sentry.Goroutines.{
  dials, awaits_status, follows, awaits_pong, awaits_metadata, fails, resume,
}
use valtrack.Sentry.Goroutines.Alone.{
  alone, goes_with, is_empty, turn_now, alone-ends, alone-versions,
}

-- Which sequence number a ping carries does not matter for how it ends.
ping-result :
    (asked r : ReqResp) (stream : Result (Stream ℕ))
    → (ping asked stream).result ≡ (ping r stream).result
unfolding ping write_request
ping-result asked r (err e) = refl
ping-result asked r (ok s) = elim (Option-cases s.write_deadline) [
  | inr (e, x) ↦ rw (x, ping, write_request) refl
  | inl x ↦ (elim (Option-cases s.encoded) [
    | inr (e, y) ↦ rw (x, y, ping, write_request) refl
    | inl y ↦ (elim (Option-cases s.write_closed) [
      | inr (e, z) ↦ rw (x, y, z, ping, write_request) refl
      | inl z ↦ rw (x, y, z, ping, write_request) refl
    ])
  ])
]

module _ {W : Wire} where
  alone-fails :
      (pid : String) (m : Meeting W) (k : ℕ) (ps : List (Interlude W)) (e : Error) (n : Node W)
      → alone pid m (suc (suc k)) ps (fails e) n
        ≡ (after_handshake pid m (err e, n) >>= clean_up pid m)
  unfolding resume after_handshake
  alone-fails pid m k ps e n =
      turn_now pid m (suc k) ps (fails e) n refl
      ∙ >>=-assoc (set_backoff pid e m.failed_at n.peerstore) _ _
      ∙ >>=-same (set_backoff pid e m.failed_at n.peerstore) _ _
          (λ r. alone-ends pid m k ps (record n { peerstore = r.1 }))
      ∙ sym (>>=-assoc (set_backoff pid e m.failed_at n.peerstore) _ (clean_up pid m))

  -- What the outbound handler still does once the handshake has come to its result.
  abbrev finishes : String → Meeting W → Result (Unit {0}) × Node W → Outcome (Node W)
  finishes pid m r = after_handshake pid m r >>= clean_up pid m

  alone-metadata :
      (pid : String) (m : Meeting W) (k : ℕ) (ps : List (Interlude W)) (n : Node W)
      → (resume pid m (is_empty ps) awaits_metadata n
          >>= goes_with (alone pid m (suc (suc (suc k))) ps))
        ≡ ((elim (request_meta_data m.handshake.metadata_stream).result [
          | err e ↦ returns (err (wrap "Failed to get metadata from peer" e), n)
          | ok md ↦ do
            store ← set_metadata pid md m.handshake.metadata_at n.peerstore
            returns (ok tt, record n { peerstore = store })
        ])
            >>= finishes pid m)
  unfolding resume after_handshake
  alone-metadata pid m k ps n =
      elim (Result-cases (request_meta_data m.handshake.metadata_stream).result) [
        | inr (e, x) ↦ rw (x, resume) (alone-fails pid m (suc k) ps _ n)
        | inl (md, x) ↦
            rw (x, resume)
              (>>=-assoc (set_metadata pid md m.handshake.metadata_at n.peerstore) _ _
                ∙ >>=-same (set_metadata pid md m.handshake.metadata_at n.peerstore) _ _
                    (λ t. alone-versions pid m k ps (some "unknown") (record n { peerstore = t }))
                ∙ sym (>>=-assoc (set_metadata pid md m.handshake.metadata_at n.peerstore) _ _))
      ]

  alone-pong :
      (pid : String) (m : Meeting W) (k : ℕ) (ps : List (Interlude W)) (n : Node W)
      (asked : ReqResp)
      → (resume pid m (is_empty ps) (awaits_pong asked) n
          >>= goes_with (alone pid m (suc (suc (suc (suc k)))) ps))
        ≡ ((elim (ping asked m.handshake.ping_stream).result [
          | err e ↦ returns (err (wrap "Failed to ping peer" e), n)
          | ok _ ↦ interlude m.handshake.during_metadata n >>= λ n'.
              elim (request_meta_data m.handshake.metadata_stream).result [
                | err e ↦ returns (err (wrap "Failed to get metadata from peer" e), n')
                | ok md ↦ do
                  store ← set_metadata pid md m.handshake.metadata_at n'.peerstore
                  returns (ok tt, record n' { peerstore = store })
              ]
        ])
            >>= finishes pid m)
  unfolding resume alone
  alone-pong pid m k ps n asked = elim (Result-cases (ping asked m.handshake.ping_stream).result) [
    | inr (e, x) ↦ rw (x, resume) (alone-fails pid m (suc (suc k)) ps _ n)
    | inl (u, x) ↦
        rw (x, resume)
          (>>=-same (interlude m.handshake.during_metadata n) _ _
              (λ n'. alone-metadata pid m k ps n')
            ∙ sym (>>=-assoc (interlude m.handshake.during_metadata n) _ (finishes pid m)))
  ]

  alone-asks :
      (pid : String) (m : Meeting W) (k : ℕ) (ps : List (Interlude W)) (asked : ReqResp)
      (n : Node W)
      → (resume pid m (is_empty ps) (awaits_pong asked) n
          >>= goes_with (alone pid m (suc (suc (suc (suc k)))) ps))
        ≡ (ask_metadata pid m.handshake n >>= finishes pid m)
  unfolding ask_metadata
  alone-asks pid m k ps asked n =
      alone-pong pid m k ps n asked ∙ rw (ping-result asked n.req_resp m.handshake.ping_stream) refl

  alone-waits :
      (pid : String) (m : Meeting W) (k : ℕ) (ps : List (Interlude W)) (asked : ReqResp)
      (n : Node W)
      → alone pid m (suc (suc (suc (suc (suc k))))) ps (awaits_pong asked) n ≡ (
          (interlude m.handshake.during_ping n >>= ask_metadata pid m.handshake) >>= finishes pid m)
  unfolding alone
  alone-waits pid m k ps asked n =
      >>=-same (interlude m.handshake.during_ping n) _ _ (λ n₃. alone-asks pid m k ps asked n₃)
      ∙ sym (>>=-assoc (interlude m.handshake.during_ping n) _ (finishes pid m))

  abbrev follows_and_asks :
      String → Meeting W → Status → Node W → Outcome (Result (Unit {0}) × Node W)
  follows_and_asks pid m st n = follow_head st n >>= λ n₂.
      interlude m.handshake.during_ping n₂ >>= ask_metadata pid m.handshake

  alone-follows :
      (pid : String) (m : Meeting W) (k : ℕ) (ps : List (Interlude W)) (st : Status) (n : Node W)
      → alone pid m (suc (suc (suc (suc (suc (suc k)))))) ps (follows st) n
        ≡ (follows_and_asks pid m st n >>= finishes pid m)
  unfolding resume
  alone-follows pid m k ps st n =
      turn_now pid m (suc (suc (suc (suc (suc k))))) ps (follows st) n refl
      ∙ >>=-assoc (follow_head st n) _ _
      ∙ >>=-same (follow_head st n) _ _ (λ n₂. alone-waits pid m k ps n₂.req_resp n₂)
      ∙ sym (>>=-assoc (follow_head st n) _ (finishes pid m))

  alone-answered :
      (pid : String) (m : Meeting W) (k : ℕ) (ps : List (Interlude W)) (asked : ReqResp)
      (n : Node W)
      → (resume pid m (is_empty ps) (awaits_status asked) n
          >>= goes_with (alone pid m (suc (suc (suc (suc (suc (suc k)))))) ps))
        ≡ ((elim (request_status asked m.handshake.status_stream).result [
          | err e ↦ returns (err (wrap "Failed to get status from peer" e), n)
          | ok st ↦ Peerstore.set_status pid st m.handshake.status_at n.peerstore >>= λ store.
              follows_and_asks pid m st (record n { peerstore = store })
        ])
            >>= finishes pid m)
  unfolding resume
  alone-answered pid m k ps asked n =
      elim (Result-cases (request_status asked m.handshake.status_stream).result) [
        | inr (e, x) ↦ rw (x, resume) (alone-fails pid m (suc (suc (suc (suc k)))) ps _ n)
        | inl (st, x) ↦
            rw (x, resume)
              (>>=-assoc (Peerstore.set_status pid st m.handshake.status_at n.peerstore) _ _
                ∙ >>=-same (Peerstore.set_status pid st m.handshake.status_at n.peerstore) _ _
                    (λ t. alone-follows pid m k ps st (record n { peerstore = t }))
                ∙ sym
                    (>>=-assoc (Peerstore.set_status pid st m.handshake.status_at n.peerstore) _ _))
      ]

  alone-awaits_status :
      (pid : String) (m : Meeting W) (k : ℕ) (ps : List (Interlude W)) (n : Node W)
      → alone pid m (suc (suc (suc (suc (suc (suc (suc k))))))) ps (awaits_status n.req_resp) n
        ≡ (handshake pid m.handshake n >>= finishes pid m)
  unfolding alone handshake
  alone-awaits_status pid m k ps n =
      >>=-same (interlude m.handshake.during_status n) _ _
        (λ n₁. alone-answered pid m k ps n.req_resp n₁)
      ∙ sym (>>=-assoc (interlude m.handshake.during_status n) _ (finishes pid m))

  pub alone-handle_outbound :
      (pid : String) (m : Meeting W) (n : Node W)
      → alone pid m 8 [] dials n ≡ handle_outbound pid m n
  unfolding resume handle_outbound outbound_body
  alone-handle_outbound pid m n = elim (Bool-cases m.has_address) [
    | inr e ↦ turn_now pid m 7 [] dials n refl ∙ simp (e, resume) (alone-ends pid m 6 [] n)
    | inl e ↦
        turn_now pid m 7 [] dials n refl
        ∙ simp (e, resume)
            (alone-awaits_status pid m 0 [] n
              ∙ sym (
                  >>=-assoc (handshake pid m.handshake n) (after_handshake pid m) (clean_up pid m)))
  ]
