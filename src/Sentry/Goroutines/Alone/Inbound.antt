-- ===== src/Sentry/Goroutines/Alone/Inbound.antt =====
-- The turns of an inbound handler of pkg/ethereum/node_notifiee.go in a row are the handler.
use valtrack.Base.{
  ℕ, suc, String, List, [], ◌∷◌, Bool, none, ok, err, Outcome, returns, ◌>>=◌, Result-cases,
  Option-cases, Bool-cases, >>=-assoc, >>=-same, ◌≡◌, refl, sym, ◌∙◌, ap, inl, inr, if◌then◌else◌,
}
use valtrack.Sentry.Wire.{Wire}
use valtrack.Sentry.Peerstore.{set_metadata, status_of}
use valtrack.Sentry.ReqResp.{request_meta_data}
use valtrack.Sentry.Node.{Node, Interlude, interlude}
use valtrack.Sentry.Notifiee.{
  Meeting, publish, clean_up, wait_for_status, ask_inbound, inbound_body, handle_inbound,
}
use valtrack.Sentry.Goroutines.{polls, naps, checks, awaits_inbound_metadata, resume}
use valtrack.Sentry.Goroutines.Alone.{
  alone, goes_with, is_empty, turn_now, alone-ends, alone-versions,
}

-- The turns that suffice for the sleeps.
abbrev pub turns_for : {A : Type 0} → List A → ℕ
turns_for [] = 6
turns_for (x ∷ xs) = suc (suc (turns_for xs))

fuel_left :
    {A : Type 0} (ps : List A) → (k : ℕ) × (turns_for ps ≡ suc (suc (suc (suc (suc (suc k))))))
fuel_left [] = (0, refl)
fuel_left (x ∷ xs) = let (k, e) = fuel_left xs in (suc (suc k), ap (λ y. suc (suc y)) e)

module _ {W : Wire} where
  alone-inbound_metadata :
      (pid : String) (m : Meeting W) (k : ℕ) (ps : List (Interlude W)) (n : Node W)
      → (resume pid m (is_empty ps) awaits_inbound_metadata n
          >>= goes_with (alone pid m (suc (suc (suc k))) ps))
        ≡ ((elim (request_meta_data m.handshake.metadata_stream).result [
          | err e ↦ returns n
          | ok md ↦ do
            store ← set_metadata pid md m.handshake.metadata_at n.peerstore
            publish pid none m (record n { peerstore = store })
        ])
            >>= clean_up pid m)
  unfolding resume
  alone-inbound_metadata pid m k ps n =
      elim (Result-cases (request_meta_data m.handshake.metadata_stream).result) [
        | inr (e, x) ↦ rw (x, resume) (alone-ends pid m (suc (suc k)) ps n)
        | inl (md, x) ↦
            rw (x, resume)
              (>>=-assoc (set_metadata pid md m.handshake.metadata_at n.peerstore) _ _
                ∙ >>=-same (set_metadata pid md m.handshake.metadata_at n.peerstore) _ _
                    (λ t. alone-versions pid m k ps none (record n { peerstore = t }))
                ∙ sym (>>=-assoc (set_metadata pid md m.handshake.metadata_at n.peerstore) _ _))
      ]

  alone-awaits_inbound_metadata :
      (pid : String) (m : Meeting W) (k : ℕ) (ps : List (Interlude W)) (n : Node W)
      → alone pid m (suc (suc (suc (suc k)))) ps awaits_inbound_metadata n ≡ (
          (interlude m.handshake.during_metadata n >>= λ n₁.
          elim (request_meta_data m.handshake.metadata_stream).result [
            | err e ↦ returns n₁
            | ok md ↦ do
              store ← set_metadata pid md m.handshake.metadata_at n₁.peerstore
              publish pid none m (record n₁ { peerstore = store })
          ])
          >>= clean_up pid m)
  unfolding alone
  alone-awaits_inbound_metadata pid m k ps n =
      >>=-same (interlude m.handshake.during_metadata n) _ _
        (λ n₁. alone-inbound_metadata pid m k ps n₁)
      ∙ sym (>>=-assoc (interlude m.handshake.during_metadata n) _ (clean_up pid m))

  alone-checks :
      (pid : String) (m : Meeting W) (k : ℕ) (ps : List (Interlude W)) (n : Node W)
      → alone pid m (suc (suc (suc (suc (suc k))))) ps checks n
        ≡ (ask_inbound pid m n >>= clean_up pid m)
  unfolding resume ask_inbound
  alone-checks pid m k ps n = elim (Bool-cases m.still_connected) [
    | inr e ↦
        turn_now pid m (suc (suc (suc (suc k)))) ps checks n refl
        ∙ simp (e, resume, ask_inbound) (alone-ends pid m (suc (suc (suc k))) ps n)
    | inl e ↦
        turn_now pid m (suc (suc (suc (suc k)))) ps checks n refl
        ∙ simp (e, resume, ask_inbound) (alone-awaits_inbound_metadata pid m k ps n)
  ]

  -- What the inbound handler still does once the wait has come to its result.
  abbrev goes_on : String → Meeting W → Bool × Node W → Outcome (Node W)
  goes_on pid m (came, n) = (if came then ask_inbound pid m n else returns n) >>= clean_up pid m

  alone-naps :
      (pid : String) (m : Meeting W) (k : ℕ) (p : Interlude W) (ps : List (Interlude W))
      (n : Node W)
      → alone pid m (suc k) (p ∷ ps) naps n ≡ (interlude p n >>= alone pid m k ps polls)
  unfolding alone resume
  alone-naps pid m k p ps n = refl

  alone-polls :
      (pid : String) (m : Meeting W) (ps : List (Interlude W)) (n : Node W)
      → alone pid m (turns_for ps) ps polls n ≡ (wait_for_status pid ps n >>= goes_on pid m)
  unfolding resume wait_for_status
  alone-polls pid m [] n = turn_now pid m 5 [] polls n refl ∙ alone-ends pid m 4 [] n
  alone-polls pid m (p ∷ ps) n = elim (Option-cases (status_of n.peerstore pid)) [
    | inr (st, e) ↦
        let (k, enough) = fuel_left ps in
        turn_now pid m (suc (turns_for ps)) (p ∷ ps) polls n refl
        ∙ rw (e, resume, wait_for_status, enough) (alone-checks pid m (suc (suc k)) (p ∷ ps) n)
    | inl e ↦
        turn_now pid m (suc (turns_for ps)) (p ∷ ps) polls n refl
        ∙ rw (e, resume, wait_for_status)
            (alone-naps pid m (turns_for ps) p ps n
              ∙ >>=-same (interlude p n) _ _ (λ n₁. alone-polls pid m ps n₁)
              ∙ sym (>>=-assoc (interlude p n) _ (goes_on pid m)))
  ]

  pub alone-handle_inbound :
      (pid : String) (m : Meeting W) (n : Node W)
      → alone pid m (turns_for m.polls) m.polls polls n ≡ handle_inbound pid m n
  unfolding handle_inbound inbound_body
  alone-handle_inbound pid m n =
      alone-polls pid m m.polls n
      ∙ sym (>>=-assoc (wait_for_status pid m.polls n) _ (clean_up pid m))
