-- ===== src/Sentry/Goroutines/Alone/Answered.antt =====
-- What the handshake of pkg/ethereum/node_notifiee.go makes of a peer that answers.
use valtrack.Base.{
  ℕ, ltb, ℤ, String, str_eq, eq_iff, List, [], ◌∷◌, true, false, some, Option, Result, ok, returns,
  if◌then◌else◌, ◌&&◌, ◌≡◌, refl, ◌∙◌, ap, inl, inr, arith, Bool-cases,
}
use valtrack.Sentry.Wire.{Wire, Status, MetaDataV1}
use valtrack.Sentry.Stream.{Stream}
use valtrack.Sentry.Peerstore.{
  PeerInfo, Peerstore, get, put, modify, not_connected, set_metadata, set_client_version, reset,
  cleared, add_subscribed_subnets, into_metadata_event,
}
use valtrack.Sentry.Peerstore
use valtrack.Sentry.Peerstore.Frame.{adds_subnets, get-put}
use valtrack.Sentry.ReqResp.{ReqResp, request_status, ping, request_meta_data, bytes_equal}
use valtrack.Sentry.ReqResp.LocalStatus.{set_status-some, bytes_equal_iff}
use valtrack.Sentry.Notifiee.Connection.{follow_head-newer}
use valtrack.Sentry.Node.{Node}
use valtrack.Sentry.Notifiee.{Meeting, Handshake, follow_head, ask_metadata, handshake}
use valtrack.Sentry.Goroutines.Alone.{nothing, interlude-nothing}

-- The node's status after a handshake: the peer's, if it is of the node's own fork, of the same fork as
-- the status held, and ahead of it.
abbrev pub followed : List ℕ → Status → Status → Status
followed fork own st =
    if bytes_equal st.fork_digest fork
      && (bytes_equal own.fork_digest st.fork_digest && ltb own.head_slot st.head_slot)
    then st
    else own

ping-status :
    (o : Option Status) (r : ReqResp) (stream : Result (Stream ℕ))
    → ping (record r { status = o }) stream ≡ ping r stream
unfolding ping
ping-status o r stream = refl

module _ {W : Wire} where
  -- The peer answers all three requests, with this status and this metadata, and while the handler
  -- sleeps only these subscriptions come in.
  pub record Answers (pid : String) (m : Meeting W) (n : Node W) (st : Status) (md : MetaDataV1)
      (subnets : List ℤ) (subscribed_at : ℕ) : Type 0 where
    pub dialed : m.has_address ≡ true
    pub status : (request_status n.req_resp m.handshake.status_stream).result ≡ ok st
    pub pong : (ping n.req_resp m.handshake.ping_stream).result ≡ ok tt
    pub metadata : (request_meta_data m.handshake.metadata_stream).result ≡ ok md
    pub before_status : m.handshake.during_status ≡ nothing
    pub before_pong : m.handshake.during_ping ≡ nothing
    pub before_metadata : m.handshake.during_metadata ≡ nothing
    pub sleep :
        m.during_sleep ≡ record { ops = adds_subnets pid subnets subscribed_at ∷ []; statuses = [] }

  pub get-put_self :
      (pid : String) (i : PeerInfo W) (s : Peerstore W) → get (put pid i s) pid ≡ some i
  get-put_self pid i s = rw (get-put pid pid i s, (eq_iff pid pid).1 refl)

  pub get-put_ne :
      (pid j : String) (i : PeerInfo W) (s : Peerstore W)
      → str_eq pid j ≡ false
      → get (put pid i s) j ≡ get s j
  get-put_ne pid j i s e = rw (get-put pid j i s, e) refl

  pub modify-known :
      (message pid : String) (f : PeerInfo W → PeerInfo W) (i : PeerInfo W) (s : Peerstore W)
      → get s pid ≡ some i
      → modify message pid f s ≡ returns (put pid (f i) s)
  unfolding modify
  modify-known message pid f i s e = rw (e, modify)

  follow_head-followed :
      (st own : Status) (n : Node W)
      → n.req_resp.status ≡ some own
      → (r : ReqResp) × (follow_head st n ≡ returns (record n { req_resp = r }))
        × (r.status ≡ some (followed n.fork_digest own st))
        × ((stream : _) → ping r stream ≡ ping n.req_resp stream)
  unfolding follow_head
  follow_head-followed st own n h = elim (Bool-cases (bytes_equal st.fork_digest n.fork_digest)) [
    | inr e ↦ (n.req_resp, rw e refl, rw (e, h) refl, λ stream. refl)
    | inl e ↦ (elim (Bool-cases (ltb own.head_slot st.head_slot)) [
      | inr x ↦ (n.req_resp, ground arith, ground arith, λ stream. refl)
      | inl x ↦ (elim (set_status-some st own n.req_resp h) [
        | inl (d, q) ↦ (
          record n.req_resp { status = some st },
          follow_head-newer st own n h e x ∙ rw q refl,
          ground (arith, e, x, bytes_equal_iff own.fork_digest st.fork_digest),
          λ stream. ping-status (some st) n.req_resp stream,
        )
        | inr (d, q) ↦ (
          n.req_resp,
          follow_head-newer st own n h e x ∙ rw q refl,
          ground (arith, h, e, x, bytes_equal_iff own.fork_digest st.fork_digest),
          λ stream. refl,
        )
      ])
    ])
  ]

  ask_metadata-met :
      (pid : String) (h : Handshake W) (n : Node W) (i : PeerInfo W) (md : MetaDataV1)
      → h.during_metadata ≡ nothing
      → (ping n.req_resp h.ping_stream).result ≡ ok tt
      → (request_meta_data h.metadata_stream).result ≡ ok md
      → get n.peerstore pid ≡ some i
      → ask_metadata pid h n
        ≡ returns (
          ok tt,
          record n {
            peerstore =
                put pid (record i { metadata = some md; last_seen = h.metadata_at }) n.peerstore;
          },
        )
  unfolding ask_metadata set_metadata
  ask_metadata-met pid h n i md q p r e =
      simp (p, q, interlude-nothing n, r, modify-known _ pid _ i n.peerstore e, ask_metadata) refl

  pub handshake-met :
      (pid : String) (m : Meeting W) (n : Node W) (i : PeerInfo W) (own st : Status)
      (md : MetaDataV1) (subnets : List ℤ) (subscribed_at : ℕ)
      → Answers pid m n st md subnets subscribed_at
      → get n.peerstore pid ≡ some i
      → n.req_resp.status ≡ some own
      → (r : ReqResp) × (s : Peerstore W) × (handshake pid m.handshake n
          ≡ returns (ok tt, record n { peerstore = s; req_resp = r }))
        × (r.status ≡ some (followed n.fork_digest own st))
        × (s
            ≡ put pid
                (record i {
                  status = some st;
                  metadata = some md;
                  last_seen = m.handshake.metadata_at;
                })
                (put pid
                  (record i { status = some st; last_seen = m.handshake.status_at })
                  n.peerstore))
  unfolding handshake Peerstore.set_status
  handshake-met pid m n i own st md subnets subscribed_at a e h =
      let i₁ : PeerInfo W = record i { status = some st; last_seen = m.handshake.status_at } in
      let s₁ : Peerstore W = put pid i₁ n.peerstore in
      let (r, f, q, p) = follow_head-followed st own (record n { peerstore = s₁ }) h in
      let asked =
        ask_metadata-met pid m.handshake (record n { peerstore = s₁; req_resp = r }) i₁ md
          a.before_metadata (ap (λ x. x.result) (p m.handshake.ping_stream) ∙ a.pong) a.metadata
          (get-put_self pid i₁ n.peerstore) in
      (
        r,
        _,
        simp
            (
              a.before_status,
              a.before_pong,
              interlude-nothing n,
              a.status,
              modify-known _ pid _ i n.peerstore e,
              f,
              interlude-nothing (record n { peerstore = s₁; req_resp = r }),
              asked,
              handshake,
            )
            refl,
        q,
        refl,
      )
