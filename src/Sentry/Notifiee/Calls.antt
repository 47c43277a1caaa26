-- ===== src/Sentry/Notifiee/Calls.antt =====
-- Connected and the waits of the handlers of node_notifiee.go change the store by its methods alone.
pub mod Handlers
use valtrack.Base.{
  ℕ, String, List, [], ◌∷◌, ◌++◌, All, All-append, Bool, true, false, Option, none, some, Error,
  wrap, Result, ok, err, Outcome, returns, panics, ◌>>=◌, >>=-eq-returns, ◌≡◌, ◌≢◌, refl, sym, ap,
  ◌∙◌, subst, ◌⊎◌, inl, inr, arith, Bool-cases, Option-cases, Result-cases, if◌then◌else◌,
}
use valtrack.Base.Dict
use valtrack.Types.{MetadataReceivedEvent}
use valtrack.Sentry.Wire.{Wire, Status, MetaDataV1}
use valtrack.Sentry.Peerstore
use valtrack.Sentry.Peerstore.{
  nil_deref, Peerstore, ConnectionState, connecting, get, insert, set_state, reset, set_backoff,
  set_metadata, set_client_version, into_metadata_event, state_of, is_not_connected, status_of,
}
use valtrack.Sentry.Peerstore.Frame.{
  Op, inserts, sets_state, sets_backoff, resets, sets_status, sets_metadata, sets_client_version,
  apply, run,
}
use valtrack.Sentry.ReqResp.{request_status, ping, request_meta_data}
use valtrack.Sentry.Node.{Node, Interlude, interlude, send_metadata_event}
use valtrack.Sentry.Notifiee.Connection.{state-cases}
use valtrack.Sentry.Notifiee.{
  Direction, Task, Handshake, Meeting, connected, node_of_seen, follow_head, ask_metadata,
  handshake, save_client_version, publish, clean_up, after_handshake, outbound_body,
  handle_outbound, wait_for_status, ask_inbound, inbound_body, handle_inbound,
}

-- The pointer to the metadata is not nil.
abbrev pub IsDescribed : MetadataReceivedEvent → Type 0
IsDescribed event = event.meta_data ≢ none

module _ {W : Wire} where
  -- A sequence of calls that leads from one store to the other.
  pub record Leads (s t : Peerstore W) : Type 0 where
    pub ops : List (Op W)
    pub ran : run ops s ≡ returns t

  run-append :
      (ops ops' : List (Op W)) (s t : Peerstore W)
      → run ops s ≡ returns t
      → run (ops ++ ops') s ≡ run ops' t
  unfolding run
  run-append [] ops' s t h = ap (λ o. o >>= run ops') h
  run-append (op ∷ ops) ops' s t h =
      let (m, first, rest) = >>=-eq-returns (apply op s) (run ops) h in
      rw first (run-append ops ops' m t rest)

  pub still : {s : Peerstore W} → Leads s s
  unfolding run
  still = record { ops = []; ran = refl }

  pub then_leads : {s t u : Peerstore W} → Leads s t → Leads t u → Leads s u
  then_leads {s} {t} {u} a b = record {
    ops = a.ops ++ b.ops;
    ran = run-append a.ops b.ops s t a.ran ∙ b.ran;
  }

  pub one_call : (op : Op W) (s t : Peerstore W) → apply op s ≡ returns t → Leads s t
  unfolding run
  one_call op s t h = record { ops = op ∷ []; ran = rw h refl }

  -- The store changes by calls alone, and the events on the channel keep their metadata.
  pub record NodeLeads (n n' : Node W) : Type 0 where
    pub calls : Leads n.peerstore n'.peerstore
    pub described : All IsDescribed n.metadata_events → All IsDescribed n'.metadata_events

  pub then_node : {n₁ n₂ n₃ : Node W} → NodeLeads n₁ n₂ → NodeLeads n₂ n₃ → NodeLeads n₁ n₃
  then_node a b = record {
    calls = then_leads a.calls b.calls;
    described = λ h. b.described (a.described h);
  }

  -- The calls lead to the node's store, and the channel is as it was.
  pub led :
      (n n' : Node W)
      → Leads n.peerstore n'.peerstore
      → n.metadata_events ≡ n'.metadata_events
      → NodeLeads n n'
  led n n' calls same = record { calls = calls; described = subst (All IsDescribed) same }

  pub stays :
      (n n' : Node W)
      → n.peerstore ≡ n'.peerstore
      → n.metadata_events ≡ n'.metadata_events
      → NodeLeads n n'
  stays n n' e = led n n' (subst (Leads n.peerstore) e still)

  -- A write of the store by one method.
  pub written_by :
      (op : Op W) (n : Node W) (o : Outcome (Peerstore W)) (n' : Node W)
      → apply op n.peerstore ≡ o
      → (o >>= λ t. returns (record n { peerstore = t })) ≡ returns n'
      → NodeLeads n n'
  written_by op n o n' a h =
      let (t, e, k) = >>=-eq-returns o (λ t. returns (record n { peerstore = t })) h in
      let k' : record n { peerstore = t } ≡ n' = ground arith in
      subst (NodeLeads n) k'
        (led n (record n { peerstore = t }) (one_call op n.peerstore t (a ∙ e)) refl)

  pub interlude-Leads :
      (m : Interlude W) (n n' : Node W) → interlude m n ≡ returns n' → NodeLeads n n'
  unfolding interlude
  interlude-Leads m n n' h =
      let (t, e, k) = >>=-eq-returns (run m.ops n.peerstore) _ h in
      led n n' (record { ops = m.ops; ran = ground arith }) (ground arith)

  pub connected-Leads :
      (pid : String) (addr : W.Multiaddr) (dir : Direction) (t₁ t₂ : ℕ) (n n' : Node W)
      (ts : List Task)
      → connected pid addr dir t₁ t₂ n ≡ returns (ts, n')
      → NodeLeads n n'
  unfolding connected
  connected-Leads pid addr dir t₁ t₂ n n' ts h = elim (state-cases (state_of n.peerstore pid)) [
    | inl e ↦ stays n n' (ground arith) (ground arith)
    | inr e ↦
        let enode = node_of_seen (Dict.lookup pid n.seen_nodes) in
        let inserted = insert pid addr enode t₁ n.peerstore in
        let (t, f, k) = >>=-eq-returns (set_state pid connecting t₂ inserted) _ (rw e at h) in
        let k' : record n { peerstore = t } ≡ n' = ground arith in
        subst (λ x. NodeLeads n x) k'
          (led n (record n { peerstore = t })
            (then_leads
              (one_call (inserts pid addr enode t₁) n.peerstore inserted (unfold apply in refl))
              (one_call (sets_state pid connecting t₂) inserted t (unfold apply in f)))
            refl)
  ]
