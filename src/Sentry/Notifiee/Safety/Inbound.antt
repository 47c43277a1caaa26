-- ===== src/Sentry/Notifiee/Safety/Inbound.antt =====
-- That the handler of an inbound connection does not panic.
use valtrack.Base.{
  String, List, [], ◌∷◌, All, true, false, none, some, returns, Returns, Returns->>=,
  Returns-weaken, Returns-eq, Result-cases, ◌≡◌, ◌≢◌, subst, inl, inr, Bool-cases, Option-cases,
}
use valtrack.Sentry.Wire.{Wire}
use valtrack.Sentry.Peerstore.{PeerInfo, Peerstore, get, set_metadata, status_of}
use valtrack.Sentry.ReqResp.{request_meta_data}
use valtrack.Sentry.Node.{Node, Interlude, interlude}
use valtrack.Sentry.Notifiee.{
  Meeting, publish, wait_for_status, ask_inbound, inbound_body, handle_inbound,
}
use valtrack.Sentry.Notifiee.CleanUp.{IsIdle, handle_inbound-IsIdle}
use valtrack.Sentry.Notifiee.Ready.{Ready, CalmInterlude, interlude-Ready, forget-Ready}
use valtrack.Sentry.Notifiee.Answers.{set_metadata-Ready}
use valtrack.Sentry.Notifiee.Safety.{CalmMeeting, publish-Ready, clean_up-Ready, first-Ready}

module _ {W : Wire} where
  status_of-stored :
      (pid : String) (i : PeerInfo W) (s : Peerstore W)
      → get s pid ≡ some i
      → status_of s pid ≡ i.status
  unfolding status_of
  status_of-stored pid i s e = rw (e, status_of)

  wait_for_status-Ready :
      (s₀ : Peerstore W) (pid : String) (ms : List (Interlude W)) (n : Node W)
      → All (CalmInterlude s₀ pid) ms
      → Ready s₀ pid false false n
      → Returns (wait_for_status pid ms n) (λ r. Ready s₀ pid r.0 false r.1)
  unfolding wait_for_status
  wait_for_status-Ready s₀ pid [] n calm v = v
  wait_for_status-Ready s₀ pid (m ∷ ms) n calm v = elim (Option-cases (status_of n.peerstore pid)) [
    | inr (st, e) ↦
        rw (e, wait_for_status)
          (record {
            extends = v.extends;
            holds = record {
              info = v.holds.info;
              stored = v.holds.stored;
              has = record {
                status =
                    λ _ c. cc (status_of-stored pid v.holds.info n.peerstore v.holds.stored, c, e);
                metadata = λ c. cc;
              };
            };
            own = v.own;
          })
    | inl e ↦
        rw (e, wait_for_status)
          (Returns->>= (interlude m n) _ _ _ (interlude-Ready s₀ pid false false m n calm.0 v)
            (λ n' w. wait_for_status-Ready s₀ pid ms n' calm.1 w))
  ]

  ask_inbound-Returns :
      (s₀ : Peerstore W) (pid : String) (m : Meeting W) (n : Node W)
      → CalmMeeting s₀ pid m
      → Ready s₀ pid true false n
      → Returns (ask_inbound pid m n) (Ready s₀ pid false false)
  unfolding ask_inbound
  ask_inbound-Returns s₀ pid m n calm v = elim (Bool-cases m.still_connected) [
    | inr e ↦ simp e (forget-Ready v)
    | inl e ↦ simp e (
        Returns->>= (interlude m.handshake.during_metadata n) _ _ _
          (interlude-Ready s₀ pid true false m.handshake.during_metadata n calm.shake.metadata v)
          (λ n₁ v₁. elim (Result-cases (request_meta_data m.handshake.metadata_stream).result) [
            | inr (x, y) ↦ rw y (forget-Ready v₁)
            | inl (md, y) ↦ rw y (
                Returns->>= (set_metadata pid md m.handshake.metadata_at n₁.peerstore) _ _ _
                  (set_metadata-Ready s₀ pid true false md m.handshake.metadata_at n₁ v₁)
                  (λ t w.
                    Returns-weaken (publish pid none m (record n₁ { peerstore = t })) _ _
                      (publish-Ready s₀ pid none m (record n₁ { peerstore = t }) calm w)
                      (λ n' u. forget-Ready u)))
          ]))
  ]

  inbound_body-Ready :
      (s₀ : Peerstore W) (pid : String) (m : Meeting W) (n : Node W)
      → CalmMeeting s₀ pid m
      → Ready s₀ pid false false n
      → Returns (inbound_body pid m n) (Ready s₀ pid false false)
  unfolding inbound_body
  inbound_body-Ready s₀ pid m n calm v =
      Returns->>= (wait_for_status pid m.polls n) _ _ _
        (wait_for_status-Ready s₀ pid m.polls n calm.polls v)
        (λ r w. elim (Bool-cases r.0) [
          | inl e ↦
              simp e
                (ask_inbound-Returns s₀ pid m r.1 calm (subst (λ b. Ready s₀ pid b false r.1) e w))
          | inr e ↦ simp e (forget-Ready w)
        ])

  pub handle_inbound-Ready :
      (pid : String) (m : Meeting W) (n : Node W)
      → get n.peerstore pid ≢ none
      → n.req_resp.status ≢ none
      → CalmMeeting n.peerstore pid m
      → Returns (handle_inbound pid m n) (Ready n.peerstore pid false false)
  unfolding handle_inbound
  handle_inbound-Ready pid m n known own calm =
      Returns->>= (inbound_body pid m n) _ _ _
        (inbound_body-Ready n.peerstore pid m n calm (first-Ready pid n known own))
        (clean_up-Ready n.peerstore pid false false m)

  -- The handler of an inbound connection from a peer in the store ends without a panic, whether or
  -- not the peer sends its status and whatever the network answers, and leaves the peer idle, if
  -- the node has a status, the calls made elsewhere meanwhile are calm, and the agent version the
  -- host may have of the peer is a string.
  pub handle_inbound-Returns :
      (pid : String) (m : Meeting W) (n : Node W)
      → get n.peerstore pid ≢ none
      → n.req_resp.status ≢ none
      → CalmMeeting n.peerstore pid m
      → (n' : Node W) × (handle_inbound pid m n ≡ returns n') × IsIdle pid n'
  handle_inbound-Returns pid m n known own calm =
      let (n', e, _) =
        Returns-eq (handle_inbound pid m n) _ (handle_inbound-Ready pid m n known own calm) in
      (n', e, handle_inbound-IsIdle pid m n n' e)
