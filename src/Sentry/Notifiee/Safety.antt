-- ===== src/Sentry/Notifiee/Safety.antt =====
-- The handlers of node_notifiee.go do not panic, whatever the network answers: what both share, and the
-- handler of an outbound connection.
pub mod Inbound
use valtrack.Base.{
  ℕ, String, List, [], ◌∷◌, All, Bool, true, false, Option, none, some, Error, Result, ok, err,
  returns, Returns, Returns->>=, Returns-weaken, Returns-eq, Result-cases, ◌≡◌, ◌≢◌, refl, subst,
  inl, inr, Bool-cases, Option-cases,
}
use valtrack.Types.{MetadataReceivedEvent}
use valtrack.Sentry.Wire.{Wire}
use valtrack.Sentry.Peerstore.{
  PeerInfo, Peerstore, get, modify, reset, cleared, set_metadata, set_client_version, set_backoff,
  backed_off, status_of, into_metadata_event,
}
use valtrack.Sentry.Peerstore.Calm.{Has}
use valtrack.Sentry.ReqResp.{request_meta_data}
use valtrack.Sentry.Node.{Node, Interlude, interlude, send_metadata_event}
use valtrack.Sentry.Notifiee.{
  Meeting, handshake, save_client_version, publish, clean_up, after_handshake, outbound_body,
  handle_outbound, wait_for_status, ask_inbound, inbound_body, handle_inbound,
}
use valtrack.Sentry.Notifiee.CleanUp.{IsIdle, handle_outbound-IsIdle, handle_inbound-IsIdle}
use valtrack.Sentry.Notifiee.Ready.{
  Ready, CalmInterlude, CalmHandshake, interlude-Ready, stored-Ready, forget-Ready,
}
use valtrack.Sentry.Notifiee.Answers.{Answered, set_metadata-Ready, handshake-Ready}

module _ {W : Wire} where
  -- Every interlude of a meeting is calm, and the agent version, if the host has one, is a string.
  pub record CalmMeeting (s₀ : Peerstore W) (pid : String) (m : Meeting W) : Type 0 where
    pub shake : CalmHandshake s₀ pid m.handshake
    pub polls : All (CalmInterlude s₀ pid) m.polls
    pub sleep : CalmInterlude s₀ pid m.during_sleep
    pub version : m.agent_version ≢ ok none

  version-Ready :
      (s₀ : Peerstore W) (pid : String) (a b : Bool) (v : String) (n : Node W)
      → Ready s₀ pid a b n
      → Returns
          (set_client_version pid v n.peerstore)
          (λ t. Ready s₀ pid a b (record n { peerstore = t }))
  unfolding set_client_version
  version-Ready s₀ pid a b v n =
      stored-Ready s₀ pid _ _ a b a b n (λ i h. record { status = h.status; metadata = h.metadata })

  save_client_version-Ready :
      (s₀ : Peerstore W) (pid : String) (a b : Bool) (fallback : Option String)
      (version : Result (Option String)) (n : Node W)
      → version ≢ ok none
      → Ready s₀ pid a b n
      → Returns (save_client_version pid fallback version n) (Ready s₀ pid a b)
  unfolding save_client_version
  save_client_version-Ready s₀ pid a b fallback (ok none) n k v = absurd (k refl)
  save_client_version-Ready s₀ pid a b fallback (ok (some x)) n k v =
      Returns->>= (set_client_version pid x n.peerstore) _ _ _ (version-Ready s₀ pid a b x n v)
        (λ t w. w)
  save_client_version-Ready s₀ pid a b none (err e) n k v = v
  save_client_version-Ready s₀ pid a b (some x) (err e) n k v =
      Returns->>= (set_client_version pid x n.peerstore) _ _ _ (version-Ready s₀ pid a b x n v)
        (λ t w. w)

  pub into_metadata_event-Returns :
      (i : PeerInfo W) → Has true true i → Returns (into_metadata_event i) (λ _. Unit)
  unfolding into_metadata_event
  into_metadata_event-Returns i h = elim (Option-cases i.metadata) [
    | inl e ↦ absurd (h.metadata refl e)
    | inr (md, e) ↦ (elim (Option-cases i.status) [
      | inl x ↦ absurd (h.status refl x)
      | inr (st, x) ↦ rw (e, into_metadata_event, x) tt
    ])
  ]

  send_metadata_event-Ready :
      (s₀ : Peerstore W) (pid : String) (a b in_time : Bool) (event : MetadataReceivedEvent)
      (n : Node W)
      → Ready s₀ pid a b n
      → Ready s₀ pid a b (send_metadata_event in_time event n)
  unfolding send_metadata_event
  send_metadata_event-Ready s₀ pid a b in_time event n v = elim (Bool-cases n.jetstream) [
    | inr e ↦ simp e (record { extends = v.extends; holds = v.holds; own = v.own })
    | inl e ↦ (elim (Bool-cases in_time) [
      | inl x ↦ simp (e, x) (record { extends = v.extends; holds = v.holds; own = v.own })
      | inr x ↦ simp (e, x) v
    ])
  ]

  publish-Ready :
      (s₀ : Peerstore W) (pid : String) (fallback : Option String) (m : Meeting W) (n : Node W)
      → CalmMeeting s₀ pid m
      → Ready s₀ pid true true n
      → Returns (publish pid fallback m n) (Ready s₀ pid true true)
  unfolding publish
  publish-Ready s₀ pid fallback m n calm v =
      Returns->>= (save_client_version pid fallback m.agent_version n) _ _ _
        (save_client_version-Ready s₀ pid true true fallback m.agent_version n calm.version v)
        (λ n₁ v₁.
          Returns->>= (interlude m.during_sleep n₁) _ _ _
            (interlude-Ready s₀ pid true true m.during_sleep n₁ calm.sleep v₁)
            (λ n₂ v₂. rw v₂.holds.stored (
              Returns->>= (into_metadata_event v₂.holds.info) _ _ _
                (into_metadata_event-Returns v₂.holds.info v₂.holds.has)
                (λ event _. send_metadata_event-Ready s₀ pid true true m.in_time event n₂ v₂))))

  backed_off-Has :
      (e : Error) (now : ℕ) (a b : Bool) (i : PeerInfo W) → Has a b i → Has a b (backed_off e now i)
  unfolding backed_off
  backed_off-Has e now a b i h = record { status = h.status; metadata = h.metadata }

  set_backoff-Ready :
      (s₀ : Peerstore W) (pid : String) (a b : Bool) (e : Error) (now : ℕ) (n : Node W)
      → Ready s₀ pid a b n
      → Returns
          (set_backoff pid e now n.peerstore)
          (λ r. Ready s₀ pid a b (record n { peerstore = r.1 }))
  unfolding set_backoff modify
  set_backoff-Ready s₀ pid a b e now n v =
      let x = stored-Ready s₀ pid "" (backed_off e now) a b a b n (backed_off-Has e now a b) v in
      rw (v.holds.stored, set_backoff) (rw (v.holds.stored, modify) at x)

  clean_up-Ready :
      (s₀ : Peerstore W) (pid : String) (a b : Bool) (m : Meeting W) (n : Node W)
      → Ready s₀ pid a b n
      → Returns (clean_up pid m n) (Ready s₀ pid false false)
  unfolding clean_up reset
  clean_up-Ready s₀ pid a b m n v =
      Returns->>= (reset pid m.ended_at n.peerstore) _ _ _
        (stored-Ready s₀ pid _ (cleared m.ended_at) a b false false n
          (λ i h. record { status = λ c. cc; metadata = λ c. cc }) v)
        (λ t w. w)

  after_handshake-Ready :
      (s₀ : Peerstore W) (pid : String) (m : Meeting W) (r : Result (Unit {0})) (n : Node W)
      → CalmMeeting s₀ pid m
      → Answered s₀ pid (r, n)
      → Returns (after_handshake pid m (r, n)) (Ready s₀ pid false false)
  unfolding after_handshake
  after_handshake-Ready s₀ pid m (err e) n calm v =
      Returns->>= (set_backoff pid e m.failed_at n.peerstore) _ _ _
        (set_backoff-Ready s₀ pid false false e m.failed_at n v) (λ r w. w)
  after_handshake-Ready s₀ pid m (ok _) n calm v =
      Returns-weaken (publish pid (some "unknown") m n) _ _
        (publish-Ready s₀ pid (some "unknown") m n calm v) (λ n' w. forget-Ready w)

  outbound_body-Ready :
      (s₀ : Peerstore W) (pid : String) (m : Meeting W) (n : Node W)
      → CalmMeeting s₀ pid m
      → Ready s₀ pid false false n
      → Returns (outbound_body pid m n) (Ready s₀ pid false false)
  unfolding outbound_body
  outbound_body-Ready s₀ pid m n calm v = elim (Bool-cases m.has_address) [
    | inr e ↦ simp e v
    | inl e ↦ simp e (
        Returns->>= (handshake pid m.handshake n) _ _ _
          (handshake-Ready s₀ pid m.handshake n calm.shake v)
          (λ r w. after_handshake-Ready s₀ pid m r.0 r.1 calm w))
  ]

  first-Ready :
      (pid : String) (n : Node W)
      → get n.peerstore pid ≢ none
      → n.req_resp.status ≢ none
      → Ready n.peerstore pid false false n
  first-Ready pid n known own = elim (Option-cases (get n.peerstore pid)) [
    | inl e ↦ absurd (known e)
    | inr (i, e) ↦ record {
      extends = λ k h. h;
      holds = record {
        info = i;
        stored = e;
        has = record { status = λ c. cc; metadata = λ c. cc };
      };
      own = own;
    }
  ]

  -- An outbound handler that starts with the peer in the store and a status of the node's own ends
  -- with both.
  pub handle_outbound-Ready :
      (pid : String) (m : Meeting W) (n : Node W)
      → get n.peerstore pid ≢ none
      → n.req_resp.status ≢ none
      → CalmMeeting n.peerstore pid m
      → Returns (handle_outbound pid m n) (Ready n.peerstore pid false false)
  unfolding handle_outbound
  handle_outbound-Ready pid m n known own calm =
      Returns->>= (outbound_body pid m n) _ _ _
        (outbound_body-Ready n.peerstore pid m n calm (first-Ready pid n known own))
        (clean_up-Ready n.peerstore pid false false m)

  -- The handler of an outbound connection to a peer in the store ends without a panic, whatever the
  -- network answers, and leaves the peer idle, if the node has a status, the calls made elsewhere
  -- meanwhile are calm, and the agent version the host may have of the peer is a string.
  pub handle_outbound-Returns :
      (pid : String) (m : Meeting W) (n : Node W)
      → get n.peerstore pid ≢ none
      → n.req_resp.status ≢ none
      → CalmMeeting n.peerstore pid m
      → (n' : Node W) × (handle_outbound pid m n ≡ returns n') × IsIdle pid n'
  handle_outbound-Returns pid m n known own calm =
      let (n', e, _) =
        Returns-eq (handle_outbound pid m n) _ (handle_outbound-Ready pid m n known own calm) in
      (n', e, handle_outbound-IsIdle pid m n n' e)
