-- ===== src/Sentry/System/Live.antt =====
-- What the node at work always can do: end its handlers, try its reconnections, and come back to a
-- peer that it has dealt with.
use valtrack.Base.{
  ℕ, ◌+◌, ◌<◌, String, str_eq, eq_iff, List, [], ◌∷◌, All, In, Option, none, some, Error, returns,
  ◌≡◌, ◌≢◌, refl, ◌∙◌, inl, inr, Bool-cases, Option-cases,
}
use valtrack.Sentry.Wire.{Wire, AddrInfo}
use valtrack.Sentry.Peerstore.{
  Peerstore, PeerInfo, get, put, backed_off, cleared, set_backoff, epoch_duration,
  peers_to_reconnect,
}
use valtrack.Sentry.Peerstore.Frame.{Op, target, run, replay, get-run}
use valtrack.Sentry.Peerstore.Reconnect.{In-peers_to_reconnect, time_since_later}
use valtrack.Sentry.Peerstore.Validity.{run-IsValid}
use valtrack.Sentry.Node.{Node}
use valtrack.Sentry.Notifiee.{Task, handle_outbound_of, handle_inbound_of, Meeting}
use valtrack.Sentry.Notifiee.CleanUp.{
  IsIdle, IsCleared, handle_outbound-IsCleared, handle_inbound-IsCleared,
}
use valtrack.Sentry.Notifiee.Safety.{CalmMeeting, handle_outbound-Returns}
use valtrack.Sentry.Notifiee.Safety.Inbound.{handle_inbound-Returns}
use valtrack.Sentry.System.{System, peer_of, handle, reconnect, IsStarted, Reachable}
use valtrack.Sentry.System.Moves.{handle-Leads}
use valtrack.Sentry.System.Sound.{Reachable-IsSound}

module _ {W : Wire} where
  ends :
      (task : Task) (m : Meeting W) (n : Node W)
      → get n.peerstore (peer_of task) ≢ none
      → n.req_resp.status ≢ none
      → CalmMeeting n.peerstore (peer_of task) m
      → (n' : Node W) × (handle task m n ≡ returns n') × IsIdle (peer_of task) n'
  ends (handle_outbound_of pid) m n k o c = handle_outbound-Returns pid m n k o c
  ends (handle_inbound_of pid) m n k o c = handle_inbound-Returns pid m n k o c

  -- From a node that has started, whatever connections, subscriptions, status requests, ticks and
  -- attempts to reconnect have come in whatever order without a panic, every handler that was
  -- started and has not ended can end without a panic and then leaves its peer idle, if the calls
  -- made elsewhere while a handler waits are calm and the agent version the host may have of the
  -- peer is a string.
  pub Reachable-handle :
      (s t : System W) (task : Task) (m : Meeting W)
      → IsStarted s
      → Reachable s t
      → In task t.tasks
      → CalmMeeting t.node.peerstore (peer_of task) m
      → (n' : Node W) × (handle task m t.node ≡ returns n') × IsIdle (peer_of task) n'
  Reachable-handle s t task m v r i calm =
      let sound = Reachable-IsSound s t v r in
      ends task m t.node (sound.known task i) sound.own calm

  -- From a node that has started, whatever has happened in whatever order without a panic, the
  -- waits of the handlers being calm, an attempt to reconnect to a peer that is in the channel does
  -- not panic, whether or not it fails.
  pub Reachable-reconnect :
      (s t : System W) (info : AddrInfo W) (failed : Option Error) (now : ℕ)
      → IsStarted s
      → Reachable s t
      → In info t.reconnect_chan
      → (n' : Node W) × (reconnect info failed now t.node ≡ returns n')
  unfolding reconnect set_backoff
  Reachable-reconnect s t info none now v r i = (t.node, refl)
  Reachable-reconnect s t info (some e) now v r i =
      let sound = Reachable-IsSound s t v r in
      elim (Option-cases (get t.node.peerstore info.id)) [
        | inl gone ↦ absurd (sound.queued info i gone)
        | inr (j, there) ↦ (
          record (t.node) { peerstore = put info.id (backed_off e now j) t.node.peerstore },
          rw (there, set_backoff) refl,
        )
      ]

  replay-other :
      (j : String) (ops : List (Op W)) (o : Option (PeerInfo W))
      → All (λ op. target op ≢ j) ops
      → replay j ops o ≡ o
  unfolding replay
  replay-other j [] o h = refl
  replay-other j (op ∷ ops) o h = elim (Bool-cases (str_eq (target op) j)) [
    | inl e ↦ absurd (h.0 ((eq_iff _ _).0 e))
    | inr e ↦ rw e (replay-other j ops o h.1)
  ]

  handle-IsCleared :
      (task : Task) (m : Meeting W) (n n' : Node W)
      → handle task m n ≡ returns n'
      → IsCleared m.ended_at (peer_of task) n'
  handle-IsCleared (handle_outbound_of pid) m n n' h = handle_outbound-IsCleared pid m n n' h
  handle-IsCleared (handle_inbound_of pid) m n n' h = handle_inbound-IsCleared pid m n n' h

  -- From a node that has started, after a handler has ended in whatever state of the node was
  -- reached without a panic, the waits of the earlier handlers being calm, its peer is among the
  -- peers to reconnect to at any time more than an epoch after the end of the handler, whatever
  -- calls on other peers come in between.
  pub handled_peer_comes_back :
      (s t : System W) (task : Task) (m : Meeting W) (n' : Node W) (ops : List (Op W))
      (later : Peerstore W) (now : ℕ)
      → IsStarted s
      → Reachable s t
      → handle task m t.node ≡ returns n'
      → All (λ op. target op ≢ peer_of task) ops
      → run ops n'.peerstore ≡ returns later
      → m.ended_at + epoch_duration < now
      → (a : AddrInfo W) × (a.id ≡ peer_of task) × In a (peers_to_reconnect now later)
  unfolding cleared
  handled_peer_comes_back s t task m n' ops later now v r h others ran late =
      let (i, stored) = handle-IsCleared task m t.node n' h in
      let there =
        get-run ops n'.peerstore later (peer_of task) ran
        ∙ replay-other (peer_of task) ops (get n'.peerstore (peer_of task)) others
        ∙ stored in
      let l = handle-Leads task m t.node n' h in
      let valid =
        run-IsValid ops n'.peerstore later
          (run-IsValid l.calls.ops t.node.peerstore n'.peerstore (Reachable-IsSound s t v r).valid
            l.calls.ran)
          ran in
      (
        record { id = peer_of task; addrs = i.remote_addr ∷ [] },
        refl,
        (In-peers_to_reconnect later now _ valid).1 (
          cleared m.ended_at i,
          there,
          refl,
          (refl, inr (refl, time_since_later now m.ended_at late)),
        ),
      )
