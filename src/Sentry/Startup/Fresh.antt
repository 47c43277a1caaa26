-- ===== src/Sentry/Startup/Fresh.antt =====
-- The node as NewNode and Start leave it, and what NewNode needs.
use valtrack.Base.{
  ℕ, zero, suc, String, List, [], ◌∷◌, ◌++◌, In, In-append_left, Bool, true, false, Option, none,
  some, Error, Result, ok, err, ◌≡◌, ◌↔◌, inl, inr, refl, sym, ap, ◌∙◌, arith, some-known,
}
use valtrack.Sentry.Wire.{Wire}
use valtrack.Sentry.Peerstore.{new_peerstore}
use valtrack.Sentry.Peerstore.Reconnect.{node_backoff}
use valtrack.Sentry.ReqResp.{
  ReqResp, Bitvector64, Topic, ping_v1, goodbye_v1, status_v1, metadata_topic_v1, metadata_topic_v2,
  new_req_resp, set_status, register_handlers,
}
use valtrack.Sentry.Node.{Node}
use valtrack.Sentry.Discovery.{Network, Discovery, maddr_from}
use valtrack.Sentry.Configuration.{default_disc_config, NodeConfig, Environment}
use valtrack.Sentry.Startup.{
  check, let_ok, NodeCalls, create_nats_stream, new_discovery_v5, new_node, Service, stream_handler,
  metadata_publisher, initial_status, start, handlers_of, publisher_if, background, notifiee,
  discovery,
}
use valtrack.Sentry.System.{IsStarted}

check-ok :
    {A : Type 0} (message : String) (e : Option Error) (r : Result A) (a : A)
    → check message e r ≡ ok a
    → (e ≡ none) × (r ≡ ok a)
check-ok message none r a h = (refl, h)
check-ok message (some e) r a h = absurd (ground arith)

let_ok-ok :
    {A B : Type 0} (f : Error → Error) (r : Result A) (k : A → Result B) (b : B)
    → let_ok f r k ≡ ok b
    → (a : A) × (r ≡ ok a) × (k a ≡ ok b)
let_ok-ok f (ok a) k b h = (a, refl, h)
let_ok-ok f (err e) k b h = absurd (ground arith)

new_req_resp-status : (B : Bitvector64) (r : ReqResp) → new_req_resp B true ≡ ok r → r.status ≡ none
unfolding new_req_resp
new_req_resp-status B r h = ground arith

In-handlers_of : (t : Topic) (ts : List Topic) → In t ts → In (stream_handler t) (handlers_of ts)
In-handlers_of t (x ∷ ts) (inl e) = inl (ap stream_handler e)
In-handlers_of t (x ∷ ts) (inr h) = inr (In-handlers_of t ts h)
In-handlers_of t [] h = absurd h

abbrev all_topics : List Topic
all_topics = ping_v1 ∷ goodbye_v1 ∷ status_v1 ∷ metadata_topic_v1 ∷ metadata_topic_v2 ∷ []

In-all_topics : (t : Topic) → In t all_topics
In-all_topics ping_v1 = inl refl
In-all_topics goodbye_v1 = inr (inl refl)
In-all_topics status_v1 = inr (inr (inl refl))
In-all_topics metadata_topic_v1 = inr (inr (inr (inl refl)))
In-all_topics metadata_topic_v2 = inr (inr (inr (inr (inl refl))))

no_publisher : (n : ℕ) → ¬ In metadata_publisher (background n)
no_publisher zero (inl e) = cc
no_publisher zero (inr (inl e)) = cc
no_publisher zero (inr (inr h)) = absurd h
no_publisher (suc n) (inl e) = cc
no_publisher (suc n) (inr h) = no_publisher n h

published :
    (js : Bool) (n : ℕ)
    → In metadata_publisher
        (handlers_of all_topics ++ (notifiee ∷ (publisher_if js ++ (discovery ∷ background n))))
      ↔ (js ≡ true)
published true n = ((λ _. refl), (λ _. inr (inr (inr (inr (inr (inr (inl refl))))))))
published false n = ((λ h. ground (arith, no_publisher n)), (λ e. cc))

module _ {W : Wire} where
  -- A node made without an error: an empty store, no status, the fork digest of the configuration.
  pub record IsFresh (cfg : NodeConfig) (n : Node W) : Type 0 where
    pub store : n.peerstore ≡ new_peerstore node_backoff
    pub no_status : n.req_resp.status ≡ none
    pub unsent : n.metadata_events ≡ []
    pub digest : n.fork_digest ≡ cfg.fork_digest

  new_node-IsFresh :
      (N : Network W) (B : Bitvector64) (env : Environment) (calls : NodeCalls)
      (bootnodes : List W.Enode) (cfg : NodeConfig) (n : Node W) (d : Discovery W)
      → new_node N B env calls bootnodes cfg ≡ ok (n, d)
      → IsFresh cfg n
  unfolding new_node
  new_node-IsFresh N B env calls bootnodes cfg n d h =
      let (_, h₁) = check-ok _ calls.create_log _ _ h in
      let (_, h₂) = check-ok _ calls.raw_key _ _ h₁ in
      let (disc, _, h₃) =
        let_ok-ok _
          (new_discovery_v5 env calls.disc
            (record (default_disc_config bootnodes) { nats_url = cfg.nats_url }))
          _ _ h₂ in
      let (_, _, h₄) = let_ok-ok _ (maddr_from N cfg.ip cfg.port) _ _ h₃ in
      let (_, h₅) = check-ok _ calls.libp2p _ _ h₄ in
      let (r, e, h₆) = let_ok-ok _ (new_req_resp B true) _ _ h₅ in
      let (js, _, h₇) = let_ok-ok _ (create_nats_stream env calls.nats cfg.nats_url) _ _ h₆ in
      let own = new_req_resp-status B r e in
      record {
        store = ground arith;
        no_status = ground arith;
        unsent = ground arith;
        digest = ground arith;
      }

  abbrev after_start : NodeConfig → Node W → Node W
  after_start cfg n = record n {
    req_resp = record (n.req_resp) { status = some (initial_status n.fork_digest) };
  }

  start-some :
      (cfg : NodeConfig) (gossip : Option Error) (n : Node W)
      → n.req_resp.status ≡ none
      → start cfg gossip n ≡ (
        after_start cfg n,
        handlers_of all_topics
            ++ (notifiee
                ∷ (publisher_if n.jetstream ++ (discovery ∷ background cfg.concurrent_dialers))),
        check "failed to create GossipSub" gossip (ok tt),
      )
  unfolding start register_handlers set_status
  start-some cfg gossip n h = rw h refl

  -- A node that NewNode makes without an error starts with an empty store, no events, and a status
  -- of zeros with the configured fork digest, handles each of the five protocols, and publishes its
  -- metadata events exactly if it has a JetStream.
  pub new_node-start :
      (N : Network W) (B : Bitvector64) (env : Environment) (calls : NodeCalls)
      (bootnodes : List W.Enode) (cfg : NodeConfig) (gossip : Option Error) (n n' : Node W)
      (d : Discovery W) (services : List Service) (r : Result (Unit {0}))
      → new_node N B env calls bootnodes cfg ≡ ok (n, d)
      → start cfg gossip n ≡ (n', services, r)
      → IsStarted (record { node = n'; tasks = []; reconnect_chan = [] })
        × (n'.req_resp.status ≡ some (initial_status cfg.fork_digest))
        × ((t : Topic) → In (stream_handler t) services)
        × (In metadata_publisher services ↔ (n.jetstream ≡ true))
  new_node-start N B env calls bootnodes cfg gossip n n' d services r h st =
      let fresh = new_node-IsFresh N B env calls bootnodes cfg n d h in
      let run = sym (start-some cfg gossip n fresh.no_status) ∙ st in
      let node = ap (λ p. p.0) run in
      let listed = ap (λ p. p.1) run in
      let set : n'.req_resp.status ≡ some (initial_status cfg.fork_digest) =
        sym (ap (λ x. x.req_resp.status) node) ∙ ap (λ x. some (initial_status x)) fresh.digest in
      (
        record {
          store = sym (ap (λ x. x.peerstore) node) ∙ fresh.store;
          own = some-known set;
          unsent = sym (ap (λ x. x.metadata_events) node) ∙ fresh.unsent;
          idle = refl;
          drained = refl;
        },
        set,
        λ t. rw (← listed) (
            In-append_left (stream_handler t) (handlers_of all_topics)
              (notifiee
                ∷ (publisher_if n.jetstream ++ (discovery ∷ background cfg.concurrent_dialers)))
              (In-handlers_of t all_topics (In-all_topics t))),
        rw (← listed) (published n.jetstream cfg.concurrent_dialers),
      )
