-- ===== src/Sentry/Goroutines/Alone/Handle.antt =====
-- The turns of either handler of pkg/ethereum/node_notifiee.go in a row are the handler.
use valtrack.Base.{ℕ, List, [], ◌≡◌}
use valtrack.Sentry.Wire.{Wire}
use valtrack.Sentry.Node.{Node, Interlude}
use valtrack.Sentry.Notifiee.{Task, handle_outbound_of, handle_inbound_of, Meeting}
use valtrack.Sentry.System.{peer_of, handle}
use valtrack.Sentry.Goroutines.{first_phase}
use valtrack.Sentry.Goroutines.Alone.{alone}
use valtrack.Sentry.Goroutines.Alone.Outbound.{alone-handle_outbound}
use valtrack.Sentry.Goroutines.Alone.Inbound.{turns_for, alone-handle_inbound}

module _ {W : Wire} where
  -- The sleeps of waitForStatus, and the turns that suffice.
  abbrev pub naps_of : Task → Meeting W → List (Interlude W)
  naps_of (handle_outbound_of pid) m = []
  naps_of (handle_inbound_of pid) m = m.polls

  abbrev pub turns_of : Task → Meeting W → ℕ
  turns_of (handle_outbound_of pid) m = 8
  turns_of (handle_inbound_of pid) m = turns_for m.polls

  -- The turns of a handler one after the other, with the calls of the other goroutines in its
  -- waits, make of the node what the handler as a whole does, panics included, for either
  -- direction: eight turns suffice outbound, and six and two for each sleep inbound.
  pub alone-handle :
      (task : Task) (m : Meeting W) (n : Node W)
      → alone (peer_of task) m (turns_of task m) (naps_of task m) (first_phase task) n
        ≡ handle task m n
  alone-handle (handle_outbound_of pid) m n = alone-handle_outbound pid m n
  alone-handle (handle_inbound_of pid) m n = alone-handle_inbound pid m n
