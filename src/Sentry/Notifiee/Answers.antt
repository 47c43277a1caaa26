-- ===== src/Sentry/Notifiee/Answers.antt =====
-- The handshake of node_notifiee.go does not panic, and leaves a status and metadata if it succeeds.
use valtrack.Base.{
  ℕ, String, Bool, true, false, Result, ok, err, Returns, Returns->>=, Result-cases, inl, inr,
}
use valtrack.Sentry.Wire.{Wire, Status, MetaDataV1}
use valtrack.Sentry.Peerstore.{Peerstore, set_status as store_status, set_metadata}
use valtrack.Sentry.ReqResp.{request_status, ping, request_meta_data}
use valtrack.Sentry.Node.{Node, interlude}
use valtrack.Sentry.Notifiee.{Handshake, follow_head, ask_metadata, handshake}
use valtrack.Sentry.Notifiee.Ready.{
  Ready, CalmHandshake, interlude-Ready, stored-Ready, follow_head-Ready, forget-Ready,
}

abbrev pub is_ok : {A : Type 0} → Result A → Bool
is_ok (ok _) = true
is_ok (err _) = false

module _ {W : Wire} where
  -- After a handshake that succeeded the record has a status and metadata.
  abbrev pub Answered : Peerstore W → String → Result (Unit {0}) × Node W → Type 0
  Answered s₀ pid (r, n) = Ready s₀ pid (is_ok r) (is_ok r) n

  pub set_metadata-Ready :
      (s₀ : Peerstore W) (pid : String) (a b : Bool) (md : MetaDataV1) (now : ℕ) (n : Node W)
      → Ready s₀ pid a b n
      → Returns
          (set_metadata pid md now n.peerstore)
          (λ t. Ready s₀ pid a true (record n { peerstore = t }))
  unfolding set_metadata
  set_metadata-Ready s₀ pid a b md now n =
      stored-Ready s₀ pid _ _ a b a true n
        (λ i h. record { status = h.status; metadata = λ _ c. cc })

  pub ask_metadata-Ready :
      (s₀ : Peerstore W) (pid : String) (b : Bool) (h : Handshake W) (n : Node W)
      → CalmHandshake s₀ pid h
      → Ready s₀ pid true b n
      → Returns (ask_metadata pid h n) (Answered s₀ pid)
  unfolding ask_metadata
  ask_metadata-Ready s₀ pid b h n calm v =
      elim (Result-cases (ping n.req_resp h.ping_stream).result) [
        | inr (e, x) ↦ rw (x, ask_metadata) (forget-Ready v)
        | inl (u, x) ↦
            rw (x, ask_metadata)
              (Returns->>= (interlude h.during_metadata n) _ _ _
                (interlude-Ready s₀ pid true b h.during_metadata n calm.metadata v)
                (λ n' v'. elim (Result-cases (request_meta_data h.metadata_stream).result) [
                  | inr (e, y) ↦ rw y (forget-Ready v')
                  | inl (md, y) ↦ rw y (
                      Returns->>= (set_metadata pid md h.metadata_at n'.peerstore) _ _ _
                        (set_metadata-Ready s₀ pid true b md h.metadata_at n' v') (λ t w. w))
                ]))
      ]

  pub set_status-Ready :
      (s₀ : Peerstore W) (pid : String) (a b : Bool) (st : Status) (now : ℕ) (n : Node W)
      → Ready s₀ pid a b n
      → Returns
          (store_status pid st now n.peerstore)
          (λ t. Ready s₀ pid true b (record n { peerstore = t }))
  unfolding store_status
  set_status-Ready s₀ pid a b st now n =
      stored-Ready s₀ pid _ _ a b true b n
        (λ i h. record { status = λ _ c. cc; metadata = h.metadata })

  pub handshake-Ready :
      (s₀ : Peerstore W) (pid : String) (h : Handshake W) (n : Node W)
      → CalmHandshake s₀ pid h
      → Ready s₀ pid false false n
      → Returns (handshake pid h n) (Answered s₀ pid)
  unfolding handshake
  handshake-Ready s₀ pid h n calm v =
      Returns->>= (interlude h.during_status n) _ _ _
        (interlude-Ready s₀ pid false false h.during_status n calm.status v)
        (λ n₁ v₁. elim (Result-cases (request_status n.req_resp h.status_stream).result) [
          | inr (e, x) ↦ rw x v₁
          | inl (st, x) ↦ rw x (
              Returns->>= (store_status pid st h.status_at n₁.peerstore) _ _ _
                (set_status-Ready s₀ pid false false st h.status_at n₁ v₁)
                (λ t v₂.
                  Returns->>= (follow_head st (record n₁ { peerstore = t })) _ _ _
                    (follow_head-Ready s₀ pid true false st (record n₁ { peerstore = t }) v₂)
                    (λ n₃ v₃.
                      Returns->>= (interlude h.during_ping n₃) _ _ _
                        (interlude-Ready s₀ pid true false h.during_ping n₃ calm.ping v₃)
                        (λ n₄ v₄. ask_metadata-Ready s₀ pid false h n₄ calm v₄))))
        ])
