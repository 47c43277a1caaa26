-- ===== src/Sentry/Goroutines/Rest.antt =====
-- What the other goroutines do between the steps of the handlers: a call that leaves every record that
-- a handler relies on as it needs it.
use valtrack.Base.{
  ℕ, ℤ, String, str_eq, [], ◌∷◌, Bool, true, false, Option, none, some, Error, returns,
  >>=-eq-returns, Result-cases, Outcome-cases, Bool-cases, ◌≡◌, refl, subst, inl, inr, arith, List,
}
use valtrack.Text.{Bytes}
use valtrack.Sentry.Wire.{Wire, Status, AddrInfo}
use valtrack.Sentry.Peerstore.{
  PeerInfo, Peerstore, set_backoff, backed_off, set_status as store_status,
}
use valtrack.Sentry.Peerstore.Frame.{
  Op, inserts, sets_state, resets, sets_backoff, adds_subnets, sets_status, target, apply, effect,
  Refines, apply-Refines,
}
use valtrack.Sentry.Peerstore.Calm.{is_mild, effect-Has}
use valtrack.Sentry.Stream.{Stream, Exchange, read_request}
use valtrack.Sentry.ReqResp.{status_handler}
use valtrack.Sentry.Node.{Node}
use valtrack.Sentry.Notifiee.Calls.{Leads, still, one_call}
use valtrack.Sentry.Subscriptions.{attnets_of, add_all, filter_incoming_subscriptions}
use valtrack.Sentry.System.{reconnect}
use valtrack.Sentry.Goroutines.{Phase, knows_status, knows_metadata}
use valtrack.Sentry.Goroutines.Resume.{Fits}

-- Neither forgets anything of a record nor changes its state.
abbrev is_quiet : {W : Wire} → Op W → Bool
is_quiet (inserts _ _ _ _) = false
is_quiet (resets _ _) = false
is_quiet (sets_state _ _ _) = false
is_quiet _ = true

module _ {W : Wire} where
  quiet_mild : (op : Op W) → is_quiet op ≡ true → is_mild op ≡ true
  quiet_mild (inserts _ _ _ _) h = cc
  quiet_mild (resets _ _) h = cc
  quiet_mild (sets_state _ _ _) h = refl
  quiet_mild _ h = refl

  effect-state :
      (op : Op W) (i : PeerInfo W)
      → is_quiet op ≡ true
      → (j : PeerInfo W) × (effect op (some i) ≡ some j) × (j.state ≡ i.state)
  unfolding backed_off
  effect-state (inserts _ _ _ _) i h = cc
  effect-state (resets _ _) i h = cc
  effect-state (sets_state _ _ _) i h = cc
  effect-state _ i h = (_, refl, refl)

  -- The store is as it was, or one quiet call on it has returned.
  pub data Quiet (s t : Peerstore W) : Type 0 where
    none_called : s ≡ t → Quiet s t
    called : (op : Op W) → is_quiet op ≡ true → apply op s ≡ returns t → Quiet s t

  pub Quiet-Leads : (s t : Peerstore W) → Quiet s t → Leads s t
  Quiet-Leads s t (none_called e) = subst (Leads s) e still
  Quiet-Leads s t (called op q h) = one_call op s t h

  pub Quiet-Fits :
      (s t : Peerstore W) (pid : String) (ph : Phase) → Quiet s t → Fits pid ph s → Fits pid ph t
  Quiet-Fits s t pid ph (none_called e) v = subst (Fits pid ph) e v
  Quiet-Fits s t pid ph (called op q h) v =
      let r = subst (Refines op s) h (apply-Refines op s) in
      elim (Bool-cases (str_eq (target op) pid)) [
        | inr e ↦ record {
          info = v.info;
          stored = rw (r.0 pid, e) v.stored;
          state = v.state;
          has = v.has;
        }
        | inl e ↦
            let (j, x, kept) = effect-state op v.info q in
            record {
              info = j;
              stored = rw (r.0 pid, e, v.stored) x;
              state = rw kept v.state;
              has =
                  effect-Has op v.info j (knows_status ph) (knows_metadata ph) (quiet_mild op q) x
                    v.has;
            }
      ]

  pub filter-Quiet :
      (pid : String) (topics : List Bytes) (now : ℕ) (s t : Peerstore W)
      → filter_incoming_subscriptions pid topics now s ≡ returns t
      → Quiet s t
  unfolding filter_incoming_subscriptions
  filter-Quiet pid topics now s t h =
      let (attnets, e, k) = >>=-eq-returns (attnets_of topics) _ h in added attnets k
    where
      added : (attnets : List ℤ) → add_all pid attnets now s ≡ returns t → Quiet s t
      added [] k = none_called (ground arith)
      added (i ∷ attnets) k = called (adds_subnets pid (i ∷ attnets) now) refl (unfold apply in k)

  pub status_handler-Quiet :
      (pid : String) (now : ℕ) (n : Node W) (stream : Stream Status) (x : Exchange (Unit {0}))
      (t : Peerstore W)
      → status_handler n.req_resp pid now stream n.peerstore ≡ returns (x, t)
      → Quiet n.peerstore t
  unfolding status_handler
  status_handler-Quiet pid now n stream x t h = elim (Result-cases (read_request stream).result) [
    | inr (e, p) ↦ none_called (ground arith)
    | inl (req, p) ↦
        let written = rw (p, status_handler) at h in
        elim (Outcome-cases (store_status pid req now n.peerstore)) [
          | inr (m, e) ↦ absurd (ground arith)
          | inl (u, e) ↦
              let same : u ≡ t = ground arith in
              subst (Quiet n.peerstore) same
                (called (sets_status pid req now) refl (unfold apply in e))
        ]
  ]

  pub reconnect-Quiet :
      (info : AddrInfo W) (failed : Option Error) (now : ℕ) (n n' : Node W)
      → reconnect info failed now n ≡ returns n'
      → Quiet n.peerstore n'.peerstore
  unfolding reconnect
  reconnect-Quiet info none now n n' h = none_called (ground arith)
  reconnect-Quiet info (some e) now n n' h =
      let (r, f, k) = >>=-eq-returns (set_backoff info.id e now n.peerstore) _ h in
      let k' : r.1 ≡ n'.peerstore = ground arith in
      subst (Quiet n.peerstore) k'
        (called (sets_backoff info.id e now) refl (unfold apply in rw f refl))
