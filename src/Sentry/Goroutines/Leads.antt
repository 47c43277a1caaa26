-- ===== src/Sentry/Goroutines/Leads.antt =====
-- A step of a handler of pkg/ethereum/node_notifiee.go changes the store by its methods alone.
use valtrack.Base.{
  String, Bool, true, false, Option, Error, Outcome, returns, panics, ◌>>=◌, >>=-eq-returns,
  Result-cases, Option-cases, ◌≡◌, refl, subst, inl, inr, arith,
}
use valtrack.Sentry.Wire.{Wire}
use valtrack.Sentry.Peerstore.{
  Peerstore, get, set_backoff, set_metadata, status_of, into_metadata_event,
}
use valtrack.Sentry.Peerstore
use valtrack.Sentry.Peerstore.Frame.{Op, sets_backoff, sets_status, sets_metadata, apply}
use valtrack.Sentry.ReqResp.{request_status, ping, request_meta_data}
use valtrack.Sentry.Node.{Node, send_metadata_event}
use valtrack.Sentry.Notifiee.{Meeting, follow_head, save_client_version, clean_up}
use valtrack.Sentry.Notifiee.Calls.{NodeLeads, stays, led, one_call}
use valtrack.Sentry.Notifiee.Calls.Handlers.{
  clean_up-Leads, follow_head-Leads, save_client_version-Leads, into_metadata_event-IsDescribed,
  send_metadata_event-Leads,
}
use valtrack.Sentry.Goroutines.{
  Phase, dials, awaits_status, follows, awaits_pong, awaits_metadata, fails, polls, naps, checks,
  awaits_inbound_metadata, versions, sleeps, ends, resume,
}

module _ {W : Wire} where
  abbrev goes_on : Option Phase → Node W → Outcome (Option Phase × Node W)
  goes_on next n = returns (next, n)

  same_node :
      (next r : Option Phase) (n n' : Node W) → goes_on next n ≡ returns (r, n') → NodeLeads n n'
  same_node next r n n' h = stays n n' (ground arith) (ground arith)

  moved :
      (next r : Option Phase) (n m n' : Node W)
      → NodeLeads n m
      → goes_on next m ≡ returns (r, n')
      → NodeLeads n n'
  moved next r n m n' l h = let same : m ≡ n' = ground arith in subst (NodeLeads n) same l

  stored_by :
      (op : Op W) (o : Outcome (Peerstore W)) (next r : Option Phase) (n n' : Node W)
      → apply op n.peerstore ≡ o
      → (o >>= λ t. goes_on next (record n { peerstore = t })) ≡ returns (r, n')
      → NodeLeads n n'
  stored_by op (panics m) next r n n' a h = absurd (ground arith)
  stored_by op (returns t) next r n n' a h =
      moved next r n (record n { peerstore = t }) n' (led n _ (one_call op n.peerstore t a) refl) h

  backed :
      (pid : String) (m : Meeting W) (e : Error) (next r : Option Phase) (n n' : Node W)
      → (set_backoff pid e m.failed_at n.peerstore >>= λ b.
          goes_on next (record n { peerstore = b.1 }))
        ≡ returns (r, n')
      → NodeLeads n n'
  backed pid m e next r n n' h =
      let (b, f, k) = >>=-eq-returns (set_backoff pid e m.failed_at n.peerstore) _ h in
      moved next r n (record n { peerstore = b.1 }) n'
        (led n _
          (one_call (sets_backoff pid e m.failed_at) n.peerstore b.1 (unfold apply in rw f refl))
          refl)
        k

  pub resume-Leads :
      (pid : String) (m : Meeting W) (timed_out : Bool) (ph : Phase) (r : Option Phase)
      (n n' : Node W)
      → resume pid m timed_out ph n ≡ returns (r, n')
      → NodeLeads n n'
  unfolding resume
  resume-Leads pid m timed_out dials r n n' h = same_node _ r n n' h
  resume-Leads pid m timed_out (awaits_status asked) r n n' h =
      elim (Result-cases (request_status asked m.handshake.status_stream).result) [
        | inr (x, e) ↦ same_node _ r n n' (rw (e, resume) at h)
        | inl (st, e) ↦
            stored_by (sets_status pid st m.handshake.status_at)
              (Peerstore.set_status pid st m.handshake.status_at n.peerstore) _ r n n'
              (unfold apply in refl) (rw (e, resume) at h)
      ]
  resume-Leads pid m timed_out (follows st) r n n' h =
      let (n₁, e, k) = >>=-eq-returns (follow_head st n) _ h in
      moved _ r n n₁ n' (follow_head-Leads st n n₁ e) k
  resume-Leads pid m timed_out (awaits_pong asked) r n n' h =
      elim (Result-cases (ping asked m.handshake.ping_stream).result) [
        | inr (x, e) ↦ same_node _ r n n' (rw (e, resume) at h)
        | inl (u, e) ↦ same_node _ r n n' (rw (e, resume) at h)
      ]
  resume-Leads pid m timed_out awaits_metadata r n n' h =
      elim (Result-cases (request_meta_data m.handshake.metadata_stream).result) [
        | inr (x, e) ↦ same_node _ r n n' (rw (e, resume) at h)
        | inl (md, e) ↦
            stored_by (sets_metadata pid md m.handshake.metadata_at)
              (set_metadata pid md m.handshake.metadata_at n.peerstore) _ r n n'
              (unfold apply in refl) (rw (e, resume) at h)
      ]
  resume-Leads pid m timed_out (fails e) r n n' h = backed pid m e _ r n n' h
  resume-Leads pid m true polls r n n' h = same_node _ r n n' h
  resume-Leads pid m false polls r n n' h = elim (Option-cases (status_of n.peerstore pid)) [
    | inl e ↦ same_node _ r n n' (rw (e, resume) at h)
    | inr (st, e) ↦ same_node _ r n n' (rw (e, resume) at h)
  ]
  resume-Leads pid m timed_out naps r n n' h = same_node _ r n n' h
  resume-Leads pid m timed_out checks r n n' h = same_node _ r n n' h
  resume-Leads pid m timed_out awaits_inbound_metadata r n n' h =
      elim (Result-cases (request_meta_data m.handshake.metadata_stream).result) [
        | inr (x, e) ↦ same_node _ r n n' (rw (e, resume) at h)
        | inl (md, e) ↦
            stored_by (sets_metadata pid md m.handshake.metadata_at)
              (set_metadata pid md m.handshake.metadata_at n.peerstore) _ r n n'
              (unfold apply in refl) (rw (e, resume) at h)
      ]
  resume-Leads pid m timed_out (versions fallback) r n n' h =
      let (n₁, e, k) = >>=-eq-returns (save_client_version pid fallback m.agent_version n) _ h in
      moved _ r n n₁ n' (save_client_version-Leads pid fallback m.agent_version n n₁ e) k
  resume-Leads pid m timed_out sleeps r n n' h = elim (Option-cases (get n.peerstore pid)) [
    | inl e ↦ absurd (ground arith)
    | inr (info, e) ↦
        let (event, f, k) = >>=-eq-returns (into_metadata_event info) _ (rw (e, resume) at h) in
        moved _ r n (send_metadata_event m.in_time event n) n'
          (send_metadata_event-Leads m.in_time event n
            (into_metadata_event-IsDescribed info event f))
          k
  ]
  resume-Leads pid m timed_out ends r n n' h =
      let (n₁, e, k) = >>=-eq-returns (clean_up pid m n) _ h in
      moved _ r n n₁ n' (clean_up-Leads pid m n n₁ e) k
