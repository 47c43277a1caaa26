-- ===== src/Sentry/Peerstore/Calm.antt =====
-- Calls on the store by other goroutines that do not disturb the handler of one peer.
use valtrack.Base.{
  String, List, [], ◌∷◌, Bool, true, false, Option, none, some, Outcome, returns, panics, Returns,
  >>=-eq-returns, ◌≡◌, ◌≢◌, ◌⊎◌, refl, subst, inl, inr, str_eq, eq_iff, arith, Bool-cases,
  Option-cases, if◌then◌else◌,
}
use valtrack.Sentry.Wire.{Wire}
use valtrack.Sentry.Peerstore.{PeerInfo, Peerstore, get, modify, backed_off}
use valtrack.Sentry.Peerstore.Frame.{
  Op, inserts, resets, sets_state, sets_backoff, adds_subnets, sets_status, sets_metadata,
  sets_client_version, target, apply, run, effect, Refines, apply-Refines, get-put,
}

-- All methods but `Insert` and `Reset`, which forget a peer's status and metadata.
abbrev pub is_mild : {W : Wire} → Op W → Bool
is_mild (inserts _ _ _ _) = false
is_mild (resets _ _) = false
is_mild _ = true

abbrev pub is_insert : {W : Wire} → Op W → Bool
is_insert (inserts _ _ _ _) = true
is_insert _ = false

module _ {W : Wire} where
  -- Every peer of the first store is in the second.
  abbrev pub Extends : Peerstore W → Peerstore W → Type 0
  Extends s t = (k : String) → get s k ≢ none → get t k ≢ none

  abbrev pub IsHeld : Peerstore W → String → Type 0
  IsHeld s k = get s k ≢ none

  -- The call is an Insert, or on a peer that is known, and on `pid` it is mild.
  pub record IsCalm (Known : String → Type 0) (pid : String) (op : Op W) : Type 0 where
    pub known : (is_insert op ≡ true) ⊎ Known (target op)
    pub mild : target op ≡ pid → is_mild op ≡ true

  -- The calls are calm, where those before make their peers known.
  abbrev pub AreCalm : (String → Type 0) → String → List (Op W) → Type 0
  AreCalm Known pid [] = Unit
  AreCalm Known pid (op ∷ ops) =
      IsCalm Known pid op × AreCalm (λ k. Known k ⊎ (k ≡ target op)) pid ops

  -- The record has a status, and metadata, if it is asked to.
  pub record Has (st md : Bool) (i : PeerInfo W) : Type 0 where
    pub status : st ≡ true → i.status ≢ none
    pub metadata : md ≡ true → i.metadata ≢ none

  pub record Holds (pid : String) (st md : Bool) (s : Peerstore W) : Type 0 where
    pub info : PeerInfo W
    pub stored : get s pid ≡ some info
    pub has : Has st md info

  effect-some : (op : Op W) (i : PeerInfo W) → effect op (some i) ≢ none
  effect-some (inserts _ _ _ _) i h = ground arith
  effect-some _ i h = ground arith

  pub effect-Has :
      (op : Op W) (i j : PeerInfo W) (st md : Bool)
      → is_mild op ≡ true
      → effect op (some i) ≡ some j
      → Has st md i
      → Has st md j
  unfolding backed_off
  effect-Has (inserts _ _ _ _) i j st md m e h = cc
  effect-Has (resets _ _) i j st md m e h = cc
  effect-Has op i j st md m e h = record {
    status = λ p q. ground (arith, h.status p);
    metadata = λ p q. ground (arith, h.metadata p);
  }

  effect-known : (op : Op W) (o : Option (PeerInfo W)) → o ≢ none → effect op o ≢ none
  effect-known op none h = absurd (h refl)
  effect-known op (some i) h = effect-some op i

  effect-written :
      (op : Op W) (o : Option (PeerInfo W))
      → (is_insert op ≡ true) ⊎ (o ≢ none)
      → effect op o ≢ none
  effect-written op o (inr h) = effect-known op o h
  effect-written (inserts _ _ _ _) o (inl h) = λ e. cc
  effect-written (sets_state _ _ _) o (inl h) = cc
  effect-written (sets_backoff _ _ _) o (inl h) = cc
  effect-written (resets _ _) o (inl h) = cc
  effect-written (adds_subnets _ _ _) o (inl h) = cc
  effect-written (sets_status _ _ _) o (inl h) = cc
  effect-written (sets_metadata _ _ _) o (inl h) = cc
  effect-written (sets_client_version _ _) o (inl h) = cc

  Outcome-cases :
      (o : Outcome (Peerstore W)) (s : Peerstore W) (op : Op W)
      → Refines op s o
      → (is_insert op ≡ true) ⊎ IsHeld s (target op)
      → (t : Peerstore W) × (o ≡ returns t) × Refines op s (returns t)
  Outcome-cases (returns t) s op r k = (t, refl, r)
  Outcome-cases (panics m) s op r k = absurd (effect-written op _ k r)

  -- After a call that did not panic, its peer is in the store.
  target-IsHeld : (op : Op W) (s t : Peerstore W) → Refines op s (returns t) → IsHeld t (target op)
  target-IsHeld op s t r = rw (r.0 (target op), (eq_iff (target op) (target op)).1 refl) r.1

  apply-Extends : (op : Op W) (s t : Peerstore W) → Refines op s (returns t) → Extends s t
  apply-Extends op s t r k h = elim (Bool-cases (str_eq (target op) k)) [
    | inl e ↦ rw (r.0 k, e) (effect-known op _ h)
    | inr e ↦ rw (r.0 k, e) h
  ]

  apply-Holds :
      (op : Op W) (pid : String) (st md : Bool) (s t : Peerstore W)
      → Refines op s (returns t)
      → (target op ≡ pid → is_mild op ≡ true)
      → Holds pid st md s
      → Holds pid st md t
  apply-Holds op pid st md s t r mild h = elim (Bool-cases (str_eq (target op) pid)) [
    | inl e ↦ (elim (Option-cases (effect op (some h.info))) [
      | inl x ↦ absurd (effect-some op h.info x)
      | inr (j, x) ↦ record {
        info = j;
        stored = rw (r.0 pid, e, h.stored) x;
        has = effect-Has op h.info j st md (mild ((eq_iff _ _).0 e)) x h.has;
      }
    ])
    | inr e ↦ record { info = h.info; stored = rw (r.0 pid, e) h.stored; has = h.has }
  ]

  -- No call takes a peer out of the store.
  pub run-Extends : (ops : List (Op W)) (s t : Peerstore W) → run ops s ≡ returns t → Extends s t
  unfolding run
  run-Extends [] s t h k x = let same : s ≡ t = ground arith in subst (λ u. get u k ≢ none) same x
  run-Extends (op ∷ ops) s t h k x =
      let (m, first, rest) = >>=-eq-returns (apply op s) (run ops) h in
      run-Extends ops m t rest k
        (apply-Extends op s m (subst (Refines op s) first (apply-Refines op s)) k x)

  -- Calm calls, in any number, do not panic, keep every peer in the store, and keep what the record
  -- of `pid` has. `s₀` is any earlier store.
  pub run-Holds :
      (ops : List (Op W)) (Known : String → Type 0) (pid : String) (st md : Bool)
      (s₀ s : Peerstore W)
      → AreCalm Known pid ops
      → ((k : String) → Known k → IsHeld s k)
      → Extends s₀ s
      → Holds pid st md s
      → Returns (run ops s) (λ t. Extends s₀ t × Holds pid st md t)
  unfolding run
  run-Holds [] Known pid st md s₀ s calm held x h = (x, h)
  run-Holds (op ∷ ops) Known pid st md s₀ s calm held x h =
      let (t, e, r) =
        Outcome-cases (apply op s) s op (apply-Refines op s) (held_or_insert calm.0.known) in
      rw e (
        run-Holds ops (λ k. Known k ⊎ (k ≡ target op)) pid st md s₀ t calm.1
          (λ k. elim [
            | inl old ↦ apply-Extends op s t r k (held k old)
            | inr new ↦ rw new (target-IsHeld op s t r)
          ])
          (λ k u. apply-Extends op s t r k (x k u)) (apply-Holds op pid st md s t r calm.0.mild h))
    where
      held_or_insert :
          (is_insert op ≡ true) ⊎ Known (target op) → (is_insert op ≡ true) ⊎ IsHeld s (target op)
      held_or_insert (inl i) = inl i
      held_or_insert (inr k) = inr (held (target op) k)

  -- A write of the record of `pid` itself.
  pub modify-Holds :
      (message pid : String) (f : PeerInfo W → PeerInfo W) (st md st' md' : Bool)
      (s₀ s : Peerstore W)
      → ((i : PeerInfo W) → Has st md i → Has st' md' (f i))
      → Extends s₀ s
      → Holds pid st md s
      → Returns (modify message pid f s) (λ t. Extends s₀ t × Holds pid st' md' t)
  unfolding modify
  modify-Holds message pid f st md st' md' s₀ s keep x h =
      rw (h.stored, modify)
        (
          (λ k u. rw (get-put pid k (f h.info) s) (kept k u)),
          record {
            info = f h.info;
            stored = rw (get-put pid pid (f h.info) s, (eq_iff pid pid).1 refl);
            has = keep h.info h.has;
          },
        )
    where
      kept :
          (k : String)
          → get s₀ k ≢ none
          → (if str_eq pid k then some (f h.info) else get s k) ≢ none
      kept k u = elim (Bool-cases (str_eq pid k)) [ inl e ↦ rw e (λ c. cc) | inr e ↦ rw e (x k u) ]
