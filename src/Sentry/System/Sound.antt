-- ===== src/Sentry/System/Sound.antt =====
-- What holds of the node at work, whatever order its steps come in.
use valtrack.Base.{
  List, ◌∷◌, ◌++◌, All, In, In-append, In-append_left, In-append_right, none, ◌≡◌, ◌≢◌, refl, sym,
  subst, ◌⊎◌, inl, inr, some-known,
}
use valtrack.Sentry.Wire.{Wire, AddrInfo}
use valtrack.Sentry.Peerstore.{Peerstore, get, peers_to_reconnect}
use valtrack.Sentry.Peerstore.Calm.{Extends, run-Extends}
use valtrack.Sentry.Peerstore.Reconnect.{node_backoff, In-peers_to_reconnect}
use valtrack.Sentry.Peerstore.Validity.{IsValid, run-IsValid, new_peerstore-IsValid}
use valtrack.Sentry.Notifiee.{Task}
use valtrack.Sentry.Notifiee.Calls.{Leads, IsDescribed, NodeLeads, led, stays, connected-Leads}
use valtrack.Sentry.System.{
  System, peer_of, handle, reconnection_tick, Step, connects, handles, subscribes, answers, ticks,
  retries, IsStarted, Reachable, stay, step,
}
use valtrack.Sentry.System.Moves.{
  connected-req_resp, connected-added, handle-Leads, handle-Ready, filter-Leads,
  status_handler-Leads, reconnect-Leads, Ready-own,
}

module _ {W : Wire} where
  -- The node has a status, its store is valid, each event on its channel has metadata, and the store holds the peers of the handlers that run
  -- and of the channel of peers to reconnect to.
  pub record IsSound (s : System W) : Type 0 where
    pub own : s.node.req_resp.status ≢ none
    pub valid : IsValid s.node.peerstore
    pub described : All IsDescribed s.node.metadata_events
    pub known : (task : Task) → In task s.tasks → get s.node.peerstore (peer_of task) ≢ none
    pub queued : (a : AddrInfo W) → In a s.reconnect_chan → get s.node.peerstore a.id ≢ none

  Leads-IsValid : (s t : Peerstore W) → Leads s t → IsValid s → IsValid t
  Leads-IsValid s t l v = run-IsValid l.ops s t v l.ran

  Leads-Extends : (s t : Peerstore W) → Leads s t → Extends s t
  Leads-Extends s t l = run-Extends l.ops s t l.ran

  -- A step whose calls lead from store to store keeps the system sound if what it adds is known.
  led-IsSound :
      (s t : System W)
      → NodeLeads s.node t.node
      → t.node.req_resp.status ≢ none
      → ((task : Task)
          → In task t.tasks
          → In task s.tasks ⊎ (get t.node.peerstore (peer_of task) ≢ none))
      → ((a : AddrInfo W)
          → In a t.reconnect_chan
          → In a s.reconnect_chan ⊎ (get t.node.peerstore a.id ≢ none))
      → IsSound s
      → IsSound t
  led-IsSound s t l own tasks chan v =
      let grows = Leads-Extends s.node.peerstore t.node.peerstore l.calls in
      record {
        own = own;
        valid = Leads-IsValid s.node.peerstore t.node.peerstore l.calls v.valid;
        described = l.described v.described;
        known = λ task h. elim (tasks task h) [
          | inl old ↦ grows (peer_of task) (v.known task old)
          | inr new ↦ new
        ];
        queued = λ a h. elim (chan a h) [ inl old ↦ grows a.id (v.queued a old) | inr new ↦ new ];
      }

  kept :
      (s : System W) (task : Task) (before after : List Task) (x : Task)
      → s.tasks ≡ before ++ (task ∷ after)
      → In x (before ++ after)
      → In x s.tasks
  kept s task before after x e h = rw e (elim (In-append x before after h) [
    | inl l ↦ In-append_left x before (task ∷ after) l
    | inr r ↦ In-append_right x before (task ∷ after) (inr r)
  ])

  -- Whatever step the node takes, it stays sound.
  step-IsSound : (s t : System W) → Step s t → IsSound s → IsSound t
  unfolding reconnection_tick
  step-IsSound s t (connects pid addr dir t₁ t₂ ts n' h e) v = rw e (
      led-IsSound s (record s { node = n'; tasks = s.tasks ++ ts })
        (connected-Leads pid addr dir t₁ t₂ s.node n' ts h)
        (rw (connected-req_resp pid addr dir t₁ t₂ s.node n' ts h) v.own)
        (λ task i. elim (In-append task s.tasks ts i) [
          | inl old ↦ inl old
          | inr new ↦ inr (connected-added pid addr dir t₁ t₂ s.node n' ts task h new)
        ])
        (λ a i. inl i) v)
  step-IsSound s t (handles task before after m n' at calm h e) v =
      let here = v.known task (rw at (In-append_right task before (task ∷ after) (inl refl))) in
      rw e (
        led-IsSound s (record s { node = n'; tasks = before ++ after })
          (handle-Leads task m s.node n' h)
          (Ready-own s.node.peerstore (peer_of task) (handle task m s.node) n'
            (handle-Ready task m s.node here v.own calm) h)
          (λ x i. inl (kept s task before after x at i)) (λ a i. inl i) v)
  step-IsSound s t (subscribes pid topics now store h e) v = rw e (
      led-IsSound s (record s { node = record (s.node) { peerstore = store } })
        (led s.node _ (filter-Leads pid topics now s.node.peerstore store h) refl) v.own
        (λ x i. inl i) (λ a i. inl i) v)
  step-IsSound s t (answers pid now stream x store h e) v = rw e (
      led-IsSound s (record s { node = record (s.node) { peerstore = store } })
        (led s.node _ (status_handler-Leads pid now s.node stream x store h) refl) v.own
        (λ x i. inl i) (λ a i. inl i) v)
  step-IsSound s t (ticks now e) v = rw e (
      led-IsSound s (reconnection_tick now s) (stays s.node s.node refl refl) v.own (λ x i. inl i)
        (λ a i. elim (In-append a s.reconnect_chan (peers_to_reconnect now s.node.peerstore) i) [
          | inl old ↦ inl old
          | inr new ↦
              let (_, stored, _, _) =
                (In-peers_to_reconnect s.node.peerstore now a v.valid).0 new in
              inr (some-known stored)
        ])
        v)
  step-IsSound s t (retries info rest failed now n' at h e) v =
      let (l, same) = reconnect-Leads info failed now s.node n' h in
      rw e (
        led-IsSound s (record s { node = n'; reconnect_chan = rest }) l (rw same v.own)
          (λ x i. inl i) (λ a i. inl (rw at (inr i))) v)

  IsStarted-IsSound : (s : System W) → IsStarted s → IsSound s
  IsStarted-IsSound s v = record {
    own = v.own;
    valid = rw v.store (new_peerstore-IsValid node_backoff);
    described = subst (All IsDescribed) (sym v.unsent) tt;
    known = λ task h. absurd (subst (In task) v.idle h);
    queued = λ a h. absurd (subst (In a) v.drained h);
  }

  pub Reachable-IsSound : (s t : System W) → IsStarted s → Reachable s t → IsSound t
  Reachable-IsSound s t v stay = IsStarted-IsSound s v
  Reachable-IsSound s t v (step r x) = step-IsSound _ t x (Reachable-IsSound s _ v r)
