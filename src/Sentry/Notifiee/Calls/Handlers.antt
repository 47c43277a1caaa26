-- ===== src/Sentry/Notifiee/Calls/Handlers.antt =====
-- What the calls of a handler of node_notifiee.go make of the node: its store changes by the store's
-- methods alone, and each event that it publishes has metadata.
use valtrack.Base.{
  String, List, [], ◌∷◌, All-append, Bool, Option, none, some, Result, ok, err, returns, panics,
  ◌>>=◌, >>=-eq-returns, ◌≡◌, refl, subst, inl, inr, arith, Bool-cases, Option-cases, Result-cases,
}
use valtrack.Types.{MetadataReceivedEvent}
use valtrack.Sentry.Wire.{Wire, Status}
use valtrack.Sentry.Peerstore
use valtrack.Sentry.Peerstore.{
  nil_deref, PeerInfo, Peerstore, ConnectionState, connecting, get, insert, set_state, reset,
  set_backoff, set_metadata, set_client_version, into_metadata_event, state_of, is_not_connected,
  status_of,
}
use valtrack.Sentry.Peerstore.Frame.{
  sets_backoff, resets, sets_status, sets_metadata, sets_client_version, apply,
}
use valtrack.Sentry.ReqResp.{request_status, ping, request_meta_data}
use valtrack.Sentry.Node.{Node, Interlude, interlude, send_metadata_event}
use valtrack.Sentry.Notifiee.{
  Handshake, Meeting, follow_head, ask_metadata, handshake, save_client_version, publish, clean_up,
  after_handshake, outbound_body, handle_outbound, wait_for_status, ask_inbound, inbound_body,
  handle_inbound,
}
use valtrack.Sentry.Notifiee.Calls.{
  still, one_call, IsDescribed, NodeLeads, then_node, led, stays, written_by, interlude-Leads,
}

module _ {W : Wire} where
  pub clean_up-Leads :
      (pid : String) (m : Meeting W) (n n' : Node W)
      → clean_up pid m n ≡ returns n'
      → NodeLeads n n'
  unfolding clean_up
  clean_up-Leads pid m n n' h =
      written_by (resets pid m.ended_at) n (reset pid m.ended_at n.peerstore) n'
        (unfold apply in refl) h

  pub follow_head-Leads :
      (st : Status) (n n' : Node W) → follow_head st n ≡ returns n' → NodeLeads n n'
  unfolding follow_head
  follow_head-Leads st n n' h = stays n n' (ground arith) (ground arith)

  pub save_client_version-Leads :
      (pid : String) (fallback : Option String) (v : Result (Option String)) (n n' : Node W)
      → save_client_version pid fallback v n ≡ returns n'
      → NodeLeads n n'
  unfolding save_client_version
  save_client_version-Leads pid fallback (ok none) n n' h = absurd (ground arith)
  save_client_version-Leads pid fallback (ok (some v)) n n' h =
      written_by (sets_client_version pid v) n (set_client_version pid v n.peerstore) n'
        (unfold apply in refl) h
  save_client_version-Leads pid none (err e) n n' h = stays n n' (ground arith) (ground arith)
  save_client_version-Leads pid (some v) (err e) n n' h =
      written_by (sets_client_version pid v) n (set_client_version pid v n.peerstore) n'
        (unfold apply in refl) h

  pub into_metadata_event-IsDescribed :
      (info : PeerInfo W) (event : MetadataReceivedEvent)
      → into_metadata_event info ≡ returns event
      → IsDescribed event
  unfolding into_metadata_event
  into_metadata_event-IsDescribed info event h = elim (Option-cases info.metadata) [
    | inl e ↦ absurd (ground arith)
    | inr (md, e) ↦ (elim (Option-cases info.status) [
      | inl x ↦ absurd (ground arith)
      | inr (st, x) ↦ λ k. ground arith
    ])
  ]

  pub send_metadata_event-Leads :
      (in_time : Bool) (event : MetadataReceivedEvent) (n : Node W)
      → IsDescribed event
      → NodeLeads n (send_metadata_event in_time event n)
  unfolding send_metadata_event
  send_metadata_event-Leads in_time event n d = elim (Bool-cases n.jetstream) [
    | inr e ↦ simp e (led n _ still refl)
    | inl e ↦ (elim (Bool-cases in_time) [
      | inr x ↦ simp (e, x) (stays n n refl refl)
      | inl x ↦
          simp (e, x)
            (record {
              calls = still;
              described = λ h. All-append IsDescribed n.metadata_events _ h d;
            })
    ])
  ]

  publish-Leads :
      (pid : String) (fallback : Option String) (m : Meeting W) (n n' : Node W)
      → publish pid fallback m n ≡ returns n'
      → NodeLeads n n'
  unfolding publish
  publish-Leads pid fallback m n n' h =
      let (n₁, e₁, k₁) = >>=-eq-returns (save_client_version pid fallback m.agent_version n) _ h in
      let (n₂, e₂, k₂) = >>=-eq-returns (interlude m.during_sleep n₁) _ k₁ in
      then_node (save_client_version-Leads pid fallback m.agent_version n n₁ e₁)
        (then_node (interlude-Leads m.during_sleep n₁ n₂ e₂) (sent n₂ k₂))
    where
      sent :
          (n₂ : Node W)
          → (elim (get n₂.peerstore pid) [
            | none ↦ panics nil_deref
            | some info ↦ into_metadata_event info >>= λ event.
                returns (send_metadata_event m.in_time event n₂)
          ])
            ≡ returns n'
          → NodeLeads n₂ n'
      sent n₂ k = elim (Option-cases (get n₂.peerstore pid)) [
        | inl e ↦ absurd (ground arith)
        | inr (info, e) ↦
            let (event, f, r) = >>=-eq-returns (into_metadata_event info) _ (rw e at k) in
            let r' : send_metadata_event m.in_time event n₂ ≡ n' = ground arith in
            subst (NodeLeads n₂) r' (
              send_metadata_event-Leads m.in_time event n₂
                (into_metadata_event-IsDescribed info event f))
      ]

  ask_metadata-Leads :
      (pid : String) (net : Handshake W) (n n' : Node W) (r : Result (Unit {0}))
      → ask_metadata pid net n ≡ returns (r, n')
      → NodeLeads n n'
  unfolding ask_metadata
  ask_metadata-Leads pid net n n' r h =
      elim (Result-cases (ping n.req_resp net.ping_stream).result) [
        | inr (e, p) ↦ stays n n' (ground arith) (ground arith)
        | inl (u, p) ↦
            let (n₁, e₁, k) =
              >>=-eq-returns (interlude net.during_metadata n) _ (rw (p, ask_metadata) at h) in
            then_node (interlude-Leads net.during_metadata n n₁ e₁)
              (elim (Result-cases (request_meta_data net.metadata_stream).result) [
                | inr (e, q) ↦ stays n₁ n' (ground arith) (ground arith)
                | inl (md, q) ↦
                    let (t, f, l) =
                      >>=-eq-returns (set_metadata pid md net.metadata_at n₁.peerstore) _
                        (rw q at k) in
                    let l' : record n₁ { peerstore = t } ≡ n' = ground arith in
                    subst (NodeLeads n₁) l' (
                      led n₁ (record n₁ { peerstore = t })
                        (one_call (sets_metadata pid md net.metadata_at) n₁.peerstore t
                          (unfold apply in f))
                        refl)
              ])
      ]

  handshake-Leads :
      (pid : String) (net : Handshake W) (n n' : Node W) (r : Result (Unit {0}))
      → handshake pid net n ≡ returns (r, n')
      → NodeLeads n n'
  unfolding handshake
  handshake-Leads pid net n n' r h =
      let (n₁, e₁, k) = >>=-eq-returns (interlude net.during_status n) _ h in
      then_node (interlude-Leads net.during_status n n₁ e₁)
        (elim (Result-cases (request_status n.req_resp net.status_stream).result) [
          | inr (e, p) ↦ stays n₁ n' (ground arith) (ground arith)
          | inl (st, p) ↦
              let (t, f, k₁) =
                >>=-eq-returns (Peerstore.set_status pid st net.status_at n₁.peerstore) _
                  (rw p at k) in
              let (n₂, e₂, k₂) =
                >>=-eq-returns (follow_head st (record n₁ { peerstore = t })) _ k₁ in
              let (n₃, e₃, k₃) = >>=-eq-returns (interlude net.during_ping n₂) _ k₂ in
              then_node
                (led n₁ (record n₁ { peerstore = t })
                  (one_call (sets_status pid st net.status_at) n₁.peerstore t (unfold apply in f))
                  refl)
                (then_node (follow_head-Leads st (record n₁ { peerstore = t }) n₂ e₂) (
                  then_node (interlude-Leads net.during_ping n₂ n₃ e₃)
                    (ask_metadata-Leads pid net n₃ n' r k₃)))
        ])

  after_handshake-Leads :
      (pid : String) (m : Meeting W) (r : Result (Unit {0})) (n n' : Node W)
      → after_handshake pid m (r, n) ≡ returns n'
      → NodeLeads n n'
  unfolding after_handshake
  after_handshake-Leads pid m (ok u) n n' h = publish-Leads pid (some "unknown") m n n' h
  after_handshake-Leads pid m (err e) n n' h =
      let (r, f, k) = >>=-eq-returns (set_backoff pid e m.failed_at n.peerstore) _ h in
      let k' : record n { peerstore = r.1 } ≡ n' = ground arith in
      subst (NodeLeads n) k' (
        led n (record n { peerstore = r.1 })
          (one_call (sets_backoff pid e m.failed_at) n.peerstore r.1 (unfold apply in rw f refl))
          refl)

  outbound_body-Leads :
      (pid : String) (m : Meeting W) (n n' : Node W)
      → outbound_body pid m n ≡ returns n'
      → NodeLeads n n'
  unfolding outbound_body
  outbound_body-Leads pid m n n' h = elim (Bool-cases m.has_address) [
    | inr e ↦ stays n n' (ground arith) (ground arith)
    | inl e ↦
        let ((r, n₁), f, k) =
          >>=-eq-returns (handshake pid m.handshake n) (after_handshake pid m) (simp e at h) in
        then_node (handshake-Leads pid m.handshake n n₁ r f) (after_handshake-Leads pid m r n₁ n' k)
  ]

  -- An outbound handler changes the store by sequences of its methods alone, and each event it puts on
  -- the channel has metadata.
  pub handle_outbound-Leads :
      (pid : String) (m : Meeting W) (n n' : Node W)
      → handle_outbound pid m n ≡ returns n'
      → NodeLeads n n'
  unfolding handle_outbound
  handle_outbound-Leads pid m n n' h =
      let (n₁, e, k) = >>=-eq-returns (outbound_body pid m n) (clean_up pid m) h in
      then_node (outbound_body-Leads pid m n n₁ e) (clean_up-Leads pid m n₁ n' k)

  wait_for_status-Leads :
      (pid : String) (ms : List (Interlude W)) (n n' : Node W) (b : Bool)
      → wait_for_status pid ms n ≡ returns (b, n')
      → NodeLeads n n'
  unfolding wait_for_status
  wait_for_status-Leads pid [] n n' b h = stays n n' (ground arith) (ground arith)
  wait_for_status-Leads pid (m ∷ ms) n n' b h = elim (Option-cases (status_of n.peerstore pid)) [
    | inr (st, e) ↦ stays n n' (ground arith) (ground arith)
    | inl e ↦
        let (n₁, f, k) =
          >>=-eq-returns (interlude m n) (wait_for_status pid ms) (rw (e, wait_for_status) at h) in
        then_node (interlude-Leads m n n₁ f) (wait_for_status-Leads pid ms n₁ n' b k)
  ]

  ask_inbound-Leads :
      (pid : String) (m : Meeting W) (n n' : Node W)
      → ask_inbound pid m n ≡ returns n'
      → NodeLeads n n'
  unfolding ask_inbound
  ask_inbound-Leads pid m n n' h = elim (Bool-cases m.still_connected) [
    | inr e ↦ stays n n' (ground arith) (ground arith)
    | inl e ↦
        let (n₁, f, k) = >>=-eq-returns (interlude m.handshake.during_metadata n) _ (simp e at h) in
        then_node (interlude-Leads m.handshake.during_metadata n n₁ f)
          (elim (Result-cases (request_meta_data m.handshake.metadata_stream).result) [
            | inr (x, p) ↦ stays n₁ n' (ground arith) (ground arith)
            | inl (md, p) ↦
                let (t, g, l) =
                  >>=-eq-returns (set_metadata pid md m.handshake.metadata_at n₁.peerstore) _
                    (rw p at k) in
                then_node
                  (led n₁ (record n₁ { peerstore = t })
                    (one_call (sets_metadata pid md m.handshake.metadata_at) n₁.peerstore t
                      (unfold apply in g))
                    refl)
                  (publish-Leads pid none m (record n₁ { peerstore = t }) n' l)
          ])
  ]

  pub handle_inbound-Leads :
      (pid : String) (m : Meeting W) (n n' : Node W)
      → handle_inbound pid m n ≡ returns n'
      → NodeLeads n n'
  unfolding handle_inbound inbound_body
  handle_inbound-Leads pid m n n' h =
      let (n₁, e, k) = >>=-eq-returns (inbound_body pid m n) (clean_up pid m) h in
      let ((b, n₂), f, l) = >>=-eq-returns (wait_for_status pid m.polls n) _ e in
      then_node (wait_for_status-Leads pid m.polls n n₂ b f) (
        then_node
          (elim (Bool-cases b) [
            | inl t ↦ ask_inbound-Leads pid m n₂ n₁ (rw t at l)
            | inr t ↦ stays n₂ n₁ (ground arith) (ground arith)
          ])
          (clean_up-Leads pid m n₁ n' k))
