-- ===== src/Sentry/Peerstore/Frame.antt =====
-- peerstore.go as operations on one peer each, against a store that is a function from peers to
-- records.
use valtrack.Base.{
  ℕ, ◌+◌, ◌%◌, ℤ, String, List, [], ◌∷◌, ◌++◌, Option, none, some, Error, Outcome, returns, panics,
  ◌>>=◌, ◌≡◌, refl, ◌∙◌, subst, inl, inr, ◌≢◌, if◌then◌else◌, str_eq, eq_iff, arith, >>=-eq-returns,
  Bool-cases, Option-cases,
}
use mathlib.Core.Option
use valtrack.Base.Dict.{lookup-insert}
use valtrack.Sentry.Wire.{Wire, Status, MetaDataV1}
use valtrack.Sentry.Peerstore.{
  ConnectionState, not_connected, PeerInfo, Peerstore, get, put, modify, insert, set_state,
  set_backoff, reset, add_subscribed_subnets, set_status, set_metadata, set_client_version,
  backed_off, cleared,
}

-- A call of a method that writes the store.
pub data Op (W : Wire) : Type 0 where
  inserts : String → W.Multiaddr → W.Enode → ℕ → Op W
  sets_state : String → ConnectionState → ℕ → Op W
  sets_backoff : String → Error → ℕ → Op W
  resets : String → ℕ → Op W
  adds_subnets : String → List ℤ → ℕ → Op W
  sets_status : String → Status → ℕ → Op W
  sets_metadata : String → MetaDataV1 → ℕ → Op W
  sets_client_version : String → String → Op W

module _ {W : Wire} where
  abbrev pub target : Op W → String
  target (inserts id _ _ _) = id
  target (sets_state id _ _) = id
  target (sets_backoff id _ _) = id
  target (resets id _) = id
  target (adds_subnets id _ _) = id
  target (sets_status id _ _) = id
  target (sets_metadata id _ _) = id
  target (sets_client_version id _) = id

  unfoldable pub apply : Op W → Peerstore W → Outcome (Peerstore W)
  apply (inserts id addr enode now) s = returns (insert id addr enode now s)
  apply (sets_state id state now) s = set_state id state now s
  apply (sets_backoff id e now) s = set_backoff id e now s >>= λ r. returns r.1
  apply (resets id now) s = reset id now s
  apply (adds_subnets id subnets now) s = add_subscribed_subnets id subnets now s
  apply (sets_status id status now) s = set_status id status now s
  apply (sets_metadata id md now) s = set_metadata id md now s
  apply (sets_client_version id version) s = set_client_version id version s

  unfoldable pub run : List (Op W) → Peerstore W → Outcome (Peerstore W)
  run [] s = returns s
  run (op ∷ ops) s = apply op s >>= run ops

  -- What a method does to what the store holds of its own peer.
  abbrev pub effect : Op W → Option (PeerInfo W) → Option (PeerInfo W)
  effect (inserts id addr enode now) _ = some (record {
    id = id;
    enode = enode;
    last_seen = now;
    remote_addr = addr;
    status = none;
    metadata = none;
    subscribed_subnets = [];
    client_version = "";
    state = not_connected;
    last_err = none;
    backoff_counter = 0;
  })
  effect (sets_state _ state now) o =
      Option.map {A = PeerInfo W} (λ i. record i { state = state; last_seen = now }) o
  effect (sets_backoff _ e now) o =
      Option.map {A = PeerInfo W}
        (λ i. record i {
          last_err = some e;
          backoff_counter = (i.backoff_counter + 1) % 4294967296;
          last_seen = now;
        })
        o
  effect (resets _ now) o =
      Option.map {A = PeerInfo W}
        (λ i. record {
          id = i.id;
          enode = i.enode;
          last_seen = now;
          remote_addr = i.remote_addr;
          status = none;
          metadata = none;
          subscribed_subnets = [];
          client_version = i.client_version;
          state = not_connected;
          last_err = none;
          backoff_counter = 0;
        })
        o
  effect (adds_subnets _ subnets now) o =
      Option.map {A = PeerInfo W}
        (λ i. record i { subscribed_subnets = i.subscribed_subnets ++ subnets; last_seen = now }) o
  effect (sets_status _ status now) o =
      Option.map {A = PeerInfo W} (λ i. record i { status = some status; last_seen = now }) o
  effect (sets_metadata _ md now) o =
      Option.map {A = PeerInfo W} (λ i. record i { metadata = some md; last_seen = now }) o
  effect (sets_client_version _ version) o =
      Option.map {A = PeerInfo W} (λ i. record i { client_version = version }) o

  -- `Option.map` at the entry of `id`, where the entry is needed.
  abbrev Maps : String → (PeerInfo W → PeerInfo W) → Peerstore W → Outcome (Peerstore W) → Type 0
  Maps id f s (panics m) = Option.map f (get s id) ≡ none
  Maps id f s (returns t) =
      ((j : String) → get t j ≡ (if str_eq id j then Option.map f (get s j) else get s j))
      × (Option.map f (get s id) ≢ none)
      × (t.default_backoff ≡ s.default_backoff)

  -- A method panics if it has no record to write, and otherwise changes its own peer's record only.
  abbrev pub Refines : Op W → Peerstore W → Outcome (Peerstore W) → Type 0
  Refines op s (panics m) = effect op (get s (target op)) ≡ none
  Refines op s (returns t) =
      ((j : String) → get t j ≡ (if str_eq (target op) j then effect op (get s j) else get s j))
      × (effect op (get s (target op)) ≢ none)
      × (t.default_backoff ≡ s.default_backoff)

  pub get-put :
      (id j : String) (info : PeerInfo W) (s : Peerstore W)
      → get (put id info s) j ≡ (if str_eq id j then some info else get s j)
  unfolding get put
  get-put id j info s = lookup-insert id j info s.peers

  put-get :
      (id j : String) (f : PeerInfo W → PeerInfo W) (info : PeerInfo W) (s : Peerstore W)
      → get s id ≡ some info
      → get (put id (f info) s) j ≡ (if str_eq id j then Option.map f (get s j) else get s j)
  put-get id j f info s e = elim (Bool-cases (str_eq id j)) [
    | inl same ↦ rw (get-put id j (f info) s, same, ← (eq_iff id j).0 same, e)
    | inr other ↦ rw (get-put id j (f info) s, other)
  ]

  modify-Maps :
      (id message : String) (f : PeerInfo W → PeerInfo W) (s : Peerstore W)
      → Maps id f s (modify message id f s)
  unfolding modify put
  modify-Maps id message f s = elim (Option-cases (get s id)) [
    | inl h ↦ rw (h, modify) (rw h)
    | inr (info, h) ↦ rw (h, modify) (λ j. put-get id j f info s h, rw h (λ e. cc), refl)
  ]

  set_backoff-Maps :
      (id : String) (e : Error) (now : ℕ) (s : Peerstore W)
      → Maps id (backed_off e now) s (set_backoff id e now s >>= λ r. returns r.1)
  unfolding set_backoff put
  set_backoff-Maps id e now s = elim (Option-cases (get s id)) [
    | inl h ↦ rw (h, set_backoff) (rw h)
    | inr (info, h) ↦
        rw (h, set_backoff) (λ j. put-get id j (backed_off e now) info s h, rw h (λ e. cc), refl)
  ]

  -- Each method of the store that changes it panics exactly where its effect has no record to act
  -- on, and otherwise applies its effect to the record of its own peer and leaves the records of
  -- the other peers, and the default backoff, as they are.
  pub apply-Refines : (op : Op W) (s : Peerstore W) → Refines op s (apply op s)
  unfolding apply set_state reset add_subscribed_subnets set_status set_metadata set_client_version
      insert backed_off cleared
  apply-Refines (inserts id addr enode now) s = (λ j. get-put id j _ s, λ e. cc, unfold put in refl)
  apply-Refines (sets_state id state now) s = modify-Maps id _ _ s
  apply-Refines (sets_backoff id e now) s = set_backoff-Maps id e now s
  apply-Refines (resets id now) s = modify-Maps id _ _ s
  apply-Refines (adds_subnets id subnets now) s = modify-Maps id _ _ s
  apply-Refines (sets_status id status now) s = modify-Maps id _ _ s
  apply-Refines (sets_metadata id md now) s = modify-Maps id _ _ s
  apply-Refines (sets_client_version id version) s = modify-Maps id _ _ s

  -- What a peer's own operations, in order, make of its record.
  unfoldable pub replay : String → List (Op W) → Option (PeerInfo W) → Option (PeerInfo W)
  replay j [] o = o
  replay j (op ∷ ops) o = replay j ops (if str_eq (target op) j then effect op o else o)

  -- After any sequence of calls that does not panic, the record of a peer is what the calls on this
  -- peer alone make of it.
  pub get-run :
      (ops : List (Op W)) (s t : Peerstore W) (j : String)
      → run ops s ≡ returns t
      → get t j ≡ replay j ops (get s j)
  unfolding run replay
  get-run [] s t j h = ground arith
  get-run (op ∷ ops) s t j h =
      let (m, first, rest) = >>=-eq-returns (apply op s) (run ops) h in
      get-run ops m t j rest ∙ rw ((subst (Refines op s) first (apply-Refines op s)).0 j)
