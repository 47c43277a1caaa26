-- ===== src/Sentry/System/Moves.antt =====
-- What each step of the node at work does to the node.
use valtrack.Base.{
  ℕ, ℤ, String, eq_iff, List, [], ◌∷◌, In, false, Option, none, some, Error, Outcome, returns,
  panics, >>=-eq-returns, Returns, ◌≡◌, ◌≢◌, refl, sym, ap, subst, inl, inr, arith, some-known,
  Result-cases, Outcome-cases,
}
use valtrack.Base.Dict
use valtrack.Text.{Bytes}
use valtrack.Sentry.Wire.{Wire, Status, AddrInfo}
use valtrack.Sentry.Peerstore.{
  Peerstore, get, state_of, insert, set_state, connecting, set_backoff, set_status as store_status,
}
use valtrack.Sentry.Peerstore.Frame.{sets_backoff, adds_subnets, sets_status, apply}
use valtrack.Sentry.Stream.{Stream, Exchange, read_request}
use valtrack.Sentry.ReqResp.{status_handler}
use valtrack.Sentry.Node.{Node}
use valtrack.Sentry.Notifiee.{
  Direction, outbound, inbound, unknown, task_of, node_of_seen, Task, handle_outbound_of,
  handle_inbound_of, Meeting, connected,
}
use valtrack.Sentry.Notifiee.Connection.{fresh_info, state-cases, connected-cases}
use valtrack.Sentry.Notifiee.Ready.{Ready}
use valtrack.Sentry.Notifiee.Calls.{Leads, still, one_call, NodeLeads, led, stays}
use valtrack.Sentry.Notifiee.Calls.Handlers.{handle_outbound-Leads, handle_inbound-Leads}
use valtrack.Sentry.Notifiee.Safety.{CalmMeeting, handle_outbound-Ready}
use valtrack.Sentry.Notifiee.Safety.Inbound.{handle_inbound-Ready}
use valtrack.Sentry.Subscriptions.{attnets_of, add_all, filter_incoming_subscriptions}
use valtrack.Sentry.System.{peer_of, handle, reconnect}

task_of-peer :
    (dir : Direction) (pid : String) (task : Task) → In task (task_of dir pid) → peer_of task ≡ pid
task_of-peer outbound pid task (inl e) = ap peer_of e
task_of-peer outbound pid task (inr h) = absurd h
task_of-peer inbound pid task (inl e) = ap peer_of e
task_of-peer inbound pid task (inr h) = absurd h
task_of-peer unknown pid task h = absurd h

module _ {W : Wire} where
  pub connected-req_resp :
      (pid : String) (addr : W.Multiaddr) (dir : Direction) (t₁ t₂ : ℕ) (n n' : Node W)
      (ts : List Task)
      → connected pid addr dir t₁ t₂ n ≡ returns (ts, n')
      → n'.req_resp ≡ n.req_resp
  unfolding connected
  connected-req_resp pid addr dir t₁ t₂ n n' ts h = elim (state-cases (state_of n.peerstore pid)) [
    | inl e ↦ ground arith
    | inr e ↦
        let enode = node_of_seen (Dict.lookup pid n.seen_nodes) in
        let (t, f, k) =
          >>=-eq-returns (set_state pid connecting t₂ (insert pid addr enode t₁ n.peerstore)) _
            (rw e at h) in
        let k' : record n { peerstore = t } ≡ n' = ground arith in sym (ap (λ x. x.req_resp) k')
  ]

  pub connected-added :
      (pid : String) (addr : W.Multiaddr) (dir : Direction) (t₁ t₂ : ℕ) (n n' : Node W)
      (ts : List Task) (task : Task)
      → connected pid addr dir t₁ t₂ n ≡ returns (ts, n')
      → In task ts
      → get n'.peerstore (peer_of task) ≢ none
  connected-added pid addr dir t₁ t₂ n n' ts task h i =
      elim (connected-cases pid addr dir t₁ t₂ n) [
        | inl (_, r) ↦
            let none_added : [] ≡ ts = ground (arith, r, h) in
            absurd (subst (In task) (sym none_added) i)
        | inr (m, _, r, g) ↦
            let (same_tasks, same) : (task_of dir pid ≡ ts) × (m ≡ n') = ground (arith, r, h) in
            let whose = task_of-peer dir pid task (subst (In task) (sym same_tasks) i) in
            let here : get m.peerstore pid ≡ some (fresh_info pid addr t₂ n) =
              rw (g pid, (eq_iff pid pid).1 refl) in
            rw (whose, ← same) (some-known here)
      ]

  pub handle-Leads :
      (task : Task) (m : Meeting W) (n n' : Node W) → handle task m n ≡ returns n' → NodeLeads n n'
  handle-Leads (handle_outbound_of pid) m n n' h = handle_outbound-Leads pid m n n' h
  handle-Leads (handle_inbound_of pid) m n n' h = handle_inbound-Leads pid m n n' h

  pub handle-Ready :
      (task : Task) (m : Meeting W) (n : Node W)
      → get n.peerstore (peer_of task) ≢ none
      → n.req_resp.status ≢ none
      → CalmMeeting n.peerstore (peer_of task) m
      → Returns (handle task m n) (Ready n.peerstore (peer_of task) false false)
  handle-Ready (handle_outbound_of pid) m n k o c = handle_outbound-Ready pid m n k o c
  handle-Ready (handle_inbound_of pid) m n k o c = handle_inbound-Ready pid m n k o c

  pub filter-Leads :
      (pid : String) (topics : List Bytes) (now : ℕ) (s t : Peerstore W)
      → filter_incoming_subscriptions pid topics now s ≡ returns t
      → Leads s t
  unfolding filter_incoming_subscriptions
  filter-Leads pid topics now s t h =
      let (attnets, e, k) = >>=-eq-returns (attnets_of topics) _ h in added attnets k
    where
      added : (attnets : List ℤ) → add_all pid attnets now s ≡ returns t → Leads s t
      added [] k = let same : s ≡ t = ground arith in subst (Leads s) same still
      added (i ∷ attnets) k = one_call (adds_subnets pid (i ∷ attnets) now) s t (unfold apply in k)

  pub status_handler-Leads :
      (pid : String) (now : ℕ) (n : Node W) (stream : Stream Status) (x : Exchange (Unit {0}))
      (t : Peerstore W)
      → status_handler n.req_resp pid now stream n.peerstore ≡ returns (x, t)
      → Leads n.peerstore t
  unfolding status_handler
  status_handler-Leads pid now n stream x t h = elim (Result-cases (read_request stream).result) [
    | inr (e, p) ↦ let same : n.peerstore ≡ t = ground arith in subst (Leads n.peerstore) same still
    | inl (req, p) ↦
        let written = rw (p, status_handler) at h in
        elim (Outcome-cases (store_status pid req now n.peerstore)) [
          | inr (m, e) ↦ absurd (ground arith)
          | inl (u, e) ↦
              let same : u ≡ t = ground arith in
              subst (Leads n.peerstore) same
                (one_call (sets_status pid req now) n.peerstore u (unfold apply in e))
        ]
  ]

  pub reconnect-Leads :
      (info : AddrInfo W) (failed : Option Error) (now : ℕ) (n n' : Node W)
      → reconnect info failed now n ≡ returns n'
      → NodeLeads n n' × (n'.req_resp ≡ n.req_resp)
  unfolding reconnect
  reconnect-Leads info none now n n' h =
      let same : n ≡ n' = ground arith in
      (subst (NodeLeads n) same (stays n n refl refl), ground arith)
  reconnect-Leads info (some e) now n n' h =
      let (r, f, k) = >>=-eq-returns (set_backoff info.id e now n.peerstore) _ h in
      let k' : record n { peerstore = r.1 } ≡ n' = ground arith in
      (
        subst (NodeLeads n) k' (
            led n (record n { peerstore = r.1 })
              (one_call (sets_backoff info.id e now) n.peerstore r.1 (unfold apply in rw f refl))
              refl),
        ground arith,
      )

  pub Ready-own :
      (s₀ : Peerstore W) (pid : String) (o : Outcome (Node W)) (n' : Node W)
      → Returns o (Ready s₀ pid false false)
      → o ≡ returns n'
      → n'.req_resp.status ≢ none
  Ready-own s₀ pid (returns m) n' r h =
      let same : m ≡ n' = ground arith in subst (λ x. x.req_resp.status ≢ none) same r.own
  Ready-own s₀ pid (panics m) n' r h = absurd r
