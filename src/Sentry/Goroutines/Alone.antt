-- ===== src/Sentry/Goroutines/Alone.antt =====
-- The steps of one handler of pkg/ethereum/node_notifiee.go in a row, with the calls of the others in
-- its waits, against the handler as it is written.
pub mod Outbound
pub mod Inbound
pub mod Handle
pub mod Answered
pub mod Met
use valtrack.Base.{
  ℕ, zero, suc, String, List, [], ◌∷◌, Bool, true, false, Option, none, some, Error, Result, ok,
  err, wrap, Outcome, returns, panics, ◌>>=◌, Result-cases, Option-cases, Bool-cases, >>=-assoc,
  >>=-returns, >>=-same, ◌≡◌, refl, sym, ◌∙◌, ap, subst, inl, inr, arith, if◌then◌else◌,
}
use valtrack.Sentry.Wire.{Wire, Status}
use valtrack.Sentry.Peerstore.{
  Peerstore, nil_deref, get, set_backoff, set_metadata, set_client_version, status_of,
  into_metadata_event,
}
use valtrack.Sentry.Peerstore
use valtrack.Sentry.Peerstore.Frame.{run}
use valtrack.Sentry.ReqResp.{ReqResp, request_status, ping, request_meta_data}
use valtrack.Sentry.Stream.{Stream, write_request}
use valtrack.Sentry.ReqResp.LocalStatus.{set_statuses}
use valtrack.Sentry.Node.{Node, Interlude, interlude, send_metadata_event}
use valtrack.Sentry.Notifiee.{
  Meeting, Handshake, follow_head, ask_metadata, handshake, save_client_version, publish, clean_up,
  after_handshake, outbound_body, handle_outbound, wait_for_status, ask_inbound, inbound_body,
  handle_inbound,
}
use valtrack.Sentry.Goroutines.{
  Phase, dials, awaits_status, follows, awaits_pong, awaits_metadata, fails, polls, naps, checks,
  awaits_inbound_metadata, versions, sleeps, ends, resume,
}

abbrev pub nothing : {W : Wire} → Interlude W
nothing = record { ops = []; statuses = [] }

-- The naps that are left when a handler has gone on.
abbrev pub naps_after : {A : Type 0} → Phase → List A → List A
naps_after naps (x ∷ xs) = xs
naps_after _ xs = xs

abbrev pub is_empty : {A : Type 0} → List A → Bool
is_empty [] = true
is_empty (x ∷ xs) = false

module _ {W : Wire} where
  -- What happens elsewhere before the handler goes on from the phase. The list has the naps.
  abbrev pub before : Meeting W → List (Interlude W) → Phase → Interlude W
  before m ps (awaits_status _) = m.handshake.during_status
  before m ps (awaits_pong _) = m.handshake.during_ping
  before m ps awaits_metadata = m.handshake.during_metadata
  before m ps awaits_inbound_metadata = m.handshake.during_metadata
  before m ps sleeps = m.during_sleep
  before m (p ∷ ps) naps = p
  before m ps _ = nothing

  abbrev pub goes_with :
      (Phase → Node W → Outcome (Node W)) → Option Phase × Node W → Outcome (Node W)
  goes_with f (none, n) = returns n
  goes_with f (some ph, n) = f ph n

  -- The handler alone, for as many turns as are given.
  unfoldable pub alone :
      String → Meeting W → ℕ → List (Interlude W) → Phase → Node W → Outcome (Node W)
  alone pid m zero ps ph n = panics "more turns"
  alone pid m (suc k) ps ph n = interlude (before m ps ph) n >>= λ n₁.
      resume pid m (is_empty ps) ph n₁ >>= goes_with (alone pid m k (naps_after ph ps))

  pub interlude-nothing : (n : Node W) → interlude nothing n ≡ returns n
  unfolding interlude run set_statuses
  interlude-nothing n = refl

  -- A turn before which nothing happens elsewhere.
  pub turn_now :
      (pid : String) (m : Meeting W) (k : ℕ) (ps : List (Interlude W)) (ph : Phase) (n : Node W)
      → before m ps ph ≡ nothing
      → alone pid m (suc k) ps ph n
        ≡ (resume pid m (is_empty ps) ph n >>= goes_with (alone pid m k (naps_after ph ps)))
  unfolding alone
  turn_now pid m k ps ph n e = rw (e, interlude-nothing n) refl

  pub alone-ends :
      (pid : String) (m : Meeting W) (k : ℕ) (ps : List (Interlude W)) (n : Node W)
      → alone pid m (suc k) ps ends n ≡ clean_up pid m n
  unfolding resume
  alone-ends pid m k ps n =
      turn_now pid m k ps ends n refl
      ∙ >>=-assoc (clean_up pid m n) _ _
      ∙ >>=-returns (clean_up pid m n)

  alone-published :
      (pid : String) (m : Meeting W) (k : ℕ) (ps : List (Interlude W)) (n : Node W)
      → (resume pid m (is_empty ps) sleeps n >>= goes_with (alone pid m (suc k) ps)) ≡ (
          (elim (get n.peerstore pid) [
            | none ↦ panics nil_deref
            | some info ↦ into_metadata_event info >>= λ event.
                returns (send_metadata_event m.in_time event n)
          ])
          >>= clean_up pid m)
  unfolding resume
  alone-published pid m k ps n = elim (Option-cases (get n.peerstore pid)) [
    | inl e ↦ rw (e, resume) refl
    | inr (info, e) ↦
        rw (e, resume)
          (>>=-assoc (into_metadata_event info) _ _
            ∙ >>=-same (into_metadata_event info) _ _
                (λ event. alone-ends pid m k ps (send_metadata_event m.in_time event n))
            ∙ sym (>>=-assoc (into_metadata_event info) _ _))
  ]

  alone-sleeps :
      (pid : String) (m : Meeting W) (k : ℕ) (ps : List (Interlude W)) (n : Node W)
      → alone pid m (suc (suc k)) ps sleeps n ≡ (
          (interlude m.during_sleep n >>= λ n₂. elim (get n₂.peerstore pid) [
            | none ↦ panics nil_deref
            | some info ↦ into_metadata_event info >>= λ event.
                returns (send_metadata_event m.in_time event n₂)
          ])
          >>= clean_up pid m)
  unfolding alone
  alone-sleeps pid m k ps n =
      >>=-same (interlude m.during_sleep n) _ _ (λ n₂. alone-published pid m k ps n₂)
      ∙ sym (>>=-assoc (interlude m.during_sleep n) _ (clean_up pid m))

  pub alone-versions :
      (pid : String) (m : Meeting W) (k : ℕ) (ps : List (Interlude W)) (fallback : Option String)
      (n : Node W)
      → alone pid m (suc (suc (suc k))) ps (versions fallback) n
        ≡ (publish pid fallback m n >>= clean_up pid m)
  unfolding resume publish
  alone-versions pid m k ps fallback n =
      turn_now pid m (suc (suc k)) ps (versions fallback) n refl
      ∙ >>=-assoc (save_client_version pid fallback m.agent_version n) _ _
      ∙ >>=-same (save_client_version pid fallback m.agent_version n) _ _
          (λ n₁. alone-sleeps pid m k ps n₁)
      ∙ sym (>>=-assoc (save_client_version pid fallback m.agent_version n) _ (clean_up pid m))
