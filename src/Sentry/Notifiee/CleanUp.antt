-- ===== src/Sentry/Notifiee/CleanUp.antt =====
-- What a handler of node_notifiee.go leaves behind.
use valtrack.Base.{
  ℕ, String, [], true, false, none, some, Error, err, returns, ◌≡◌, refl, sym, ◌∙◌, arith,
  >>=-eq-returns, Option-cases, eq_iff, inl, inr,
}
use valtrack.Sentry.Wire.{Wire}
use valtrack.Sentry.Peerstore.{
  PeerInfo, not_connected, get, modify, reset, cleared, is_backed_off, last_err_of, set_backoff,
  backed_off,
}
use valtrack.Sentry.Peerstore.Frame.{get-put}
use valtrack.Sentry.Node.{Node}
use valtrack.Sentry.Notifiee.{
  Meeting, clean_up, outbound_body, handle_outbound, inbound_body, handle_inbound, handshake,
  after_handshake,
}

module _ {W : Wire} where
  -- The peer has a record, which is that of a peer with which nothing is going on, with no trace of an
  -- error.
  pub record IsIdle (pid : String) (n : Node W) : Type 0 where
    pub info : PeerInfo W
    pub stored : get n.peerstore pid ≡ some info
    pub state : info.state ≡ not_connected
    pub backoff : info.backoff_counter ≡ 0
    pub last_err : info.last_err ≡ none
    pub status : info.status ≡ none
    pub metadata : info.metadata ≡ none
    pub subnets : info.subscribed_subnets ≡ []

  -- The deferred reset leaves the peer's record cleared, and seen when the handler ended.
  abbrev pub IsCleared : ℕ → String → Node W → Type 0
  IsCleared ended_at pid n = (i : PeerInfo W) × (get n.peerstore pid ≡ some (cleared ended_at i))

  clean_up-IsCleared :
      (pid : String) (m : Meeting W) (n n' : Node W)
      → clean_up pid m n ≡ returns n'
      → IsCleared m.ended_at pid n'
  unfolding clean_up reset modify
  clean_up-IsCleared pid m n n' h = elim (Option-cases (get n.peerstore pid)) [
    | inl e ↦ absurd (ground arith)
    | inr (i, e) ↦
        (i, ground (arith, get-put pid pid (cleared m.ended_at i) n.peerstore, eq_iff pid pid))
  ]

  pub IsCleared-IsIdle :
      (ended_at : ℕ) (pid : String) (n : Node W) → IsCleared ended_at pid n → IsIdle pid n
  unfolding cleared
  IsCleared-IsIdle ended_at pid n (i, e) = record {
    info = cleared ended_at i;
    stored = e;
    state = refl;
    backoff = refl;
    last_err = refl;
    status = refl;
    metadata = refl;
    subnets = refl;
  }

  pub handle_outbound-IsCleared :
      (pid : String) (m : Meeting W) (n n' : Node W)
      → handle_outbound pid m n ≡ returns n'
      → IsCleared m.ended_at pid n'
  unfolding handle_outbound
  handle_outbound-IsCleared pid m n n' h =
      let (n₁, _, e) = >>=-eq-returns (outbound_body pid m n) (clean_up pid m) h in
      clean_up-IsCleared pid m n₁ n' e

  pub handle_inbound-IsCleared :
      (pid : String) (m : Meeting W) (n n' : Node W)
      → handle_inbound pid m n ≡ returns n'
      → IsCleared m.ended_at pid n'
  unfolding handle_inbound
  handle_inbound-IsCleared pid m n n' h =
      let (n₁, _, e) = >>=-eq-returns (inbound_body pid m n) (clean_up pid m) h in
      clean_up-IsCleared pid m n₁ n' e

  -- Whatever happened in it, an outbound handler that ends leaves the peer idle.
  pub handle_outbound-IsIdle :
      (pid : String) (m : Meeting W) (n n' : Node W)
      → handle_outbound pid m n ≡ returns n'
      → IsIdle pid n'
  handle_outbound-IsIdle pid m n n' h =
      IsCleared-IsIdle m.ended_at pid n' (handle_outbound-IsCleared pid m n n' h)

  pub handle_inbound-IsIdle :
      (pid : String) (m : Meeting W) (n n' : Node W)
      → handle_inbound pid m n ≡ returns n'
      → IsIdle pid n'
  handle_inbound-IsIdle pid m n n' h =
      IsCleared-IsIdle m.ended_at pid n' (handle_inbound-IsCleared pid m n n' h)

  after_handshake-last_err :
      (pid : String) (m : Meeting W) (e : Error) (n n' : Node W)
      → after_handshake pid m (err e, n) ≡ returns n'
      → last_err_of n'.peerstore pid ≡ some e
  unfolding after_handshake set_backoff backed_off last_err_of
  after_handshake-last_err pid m e n n' h = elim (Option-cases (get n.peerstore pid)) [
    | inl x ↦ absurd (ground arith)
    | inr (i, x) ↦
        ground (arith, get-put pid pid (backed_off e m.failed_at i) n.peerstore, eq_iff pid pid)
  ]

  outbound_body_failed :
      (pid : String) (m : Meeting W) (n n₁ : Node W) (e : Error)
      → m.has_address ≡ true
      → handshake pid m.handshake n ≡ returns (err e, n₁)
      → outbound_body pid m n ≡ after_handshake pid m (err e, n₁)
  unfolding outbound_body
  outbound_body_failed pid m n n₁ e a f = rw (a, f)

  -- After a handshake that fails the outbound handler sets the peer's last error, and by its end
  -- its own deferred reset has taken it away: the peer has no last error and is not backed off at
  -- any time.
  pub failed_handshake_forgotten :
      (pid : String) (m : Meeting W) (n n₁ n' : Node W) (e : Error) (now : ℕ)
      → m.has_address ≡ true
      → handshake pid m.handshake n ≡ returns (err e, n₁)
      → handle_outbound pid m n ≡ returns n'
      → (n₂ : Node W) × (outbound_body pid m n ≡ returns n₂)
        × (last_err_of n₂.peerstore pid ≡ some e)
        × (last_err_of n'.peerstore pid ≡ none)
        × (is_backed_off n'.peerstore pid now ≡ false)
  unfolding handle_outbound is_backed_off last_err_of
  failed_handshake_forgotten pid m n n₁ n' e now a f h =
      let idle = handle_outbound-IsIdle pid m n n' h in
      let (n₂, body, _) = >>=-eq-returns (outbound_body pid m n) (clean_up pid m) h in
      let failed = sym (outbound_body_failed pid m n n₁ e a f) ∙ body in
      (
        n₂,
        body,
        after_handshake-last_err pid m e n₁ n₂ failed,
        rw (idle.stored, last_err_of) idle.last_err,
        rw (idle.stored, is_backed_off, idle.backoff),
      )
