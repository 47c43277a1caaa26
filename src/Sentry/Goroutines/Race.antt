-- ===== src/Sentry/Goroutines/Race.antt =====
-- Two overlapping calls of Connected (pkg/ethereum/node_notifiee.go) for one peer: its look at the
-- state, its Insert and its SetState each take the lock of the store on their own.
use valtrack.Base.{ℕ, String, eq_iff, [], Bool, some, returns, panics, ◌≡◌, refl, if◌then◌else◌}
use valtrack.Sentry.Wire.{Wire}
use valtrack.Sentry.Peerstore.{nil_deref, get, state_of, is_not_connected, into_metadata_event}
use valtrack.Sentry.Node.{Node}
use valtrack.Sentry.Notifiee.{Direction, Meeting, insert_peer, connected, task_of}
use valtrack.Sentry.Notifiee.Connection.{fresh_info, insert_peer-fresh}
use valtrack.Sentry.Goroutines.{sleeps, resume}

module _ {W : Wire} where
  -- A call of Connected is a look at the peer's state and, if it is not connected, an insertion
  -- that always returns; whatever has been stored for the peer since the look, a handler of the
  -- peer that sleeps before it publishes panics on a nil pointer if its next turn follows that
  -- insertion.
  pub overlapping_call_panics :
      (pid : String) (addr : W.Multiaddr) (dir : Direction) (t₁ t₂ : ℕ) (m : Meeting W)
      (timed_out : Bool) (n : Node W)
      → (n' : Node W) × (connected pid addr dir t₁ t₂ n ≡ (
          if is_not_connected (state_of n.peerstore pid)
          then insert_peer pid addr dir t₁ t₂ n
          else returns ([], n)))
        × (insert_peer pid addr dir t₁ t₂ n ≡ returns (task_of dir pid, n'))
        × (resume pid m timed_out sleeps n' ≡ panics nil_deref)
  unfolding connected resume into_metadata_event
  overlapping_call_panics pid addr dir t₁ t₂ m timed_out n =
      let (n', e, g) = insert_peer-fresh pid addr dir t₁ t₂ n in
      let here : get n'.peerstore pid ≡ some (fresh_info pid addr t₂ n) =
        rw (g pid, (eq_iff pid pid).1 refl) in
      (n', refl, e, rw (here, resume) refl)
