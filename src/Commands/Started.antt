-- ===== src/Commands/Started.antt =====
-- What the sentry command of cmd/cmd.go starts.
use valtrack.Base.{
  String, List, [], In, true, Option, none, some, Error, Result, ok, returns, >>=-eq-returns,
  Result-cases, ◌≡◌, ◌↔◌, refl, sym, ap, inl, inr, arith,
}
use valtrack.Sentry.Wire.{Wire}
use valtrack.Sentry.Node.{Node}
use valtrack.Sentry.Discovery.{Network, Discovery}
use valtrack.Sentry.ReqResp.{Bitvector64, Topic, set_status, register_handlers}
use valtrack.Sentry.Configuration.{
  NodeConfig, default_node_config, Environment, get_ethereum_bootnodes, mainnet_digest,
}
use valtrack.Sentry.Startup.{
  NodeCalls, new_node, Service, stream_handler, metadata_publisher, initial_status, start,
}
use valtrack.Sentry.Startup.Fresh.{new_node-start}
use valtrack.Sentry.Goroutines.{Goroutines, IsFresh}
use valtrack.Commands.{Context, sentry_config, new_discovery, run_sentry}

module _ {W : Wire} where
  abbrev pub goroutines_of : Node W → Goroutines W
  goroutines_of n = record { node = n; running = []; reconnect_chan = [] }

  -- The node that is started, and what NewDiscovery and Start did to get there.
  record Ran (N : Network W) (B : Bitvector64) (env : Environment) (key : Option Error)
      (calls : NodeCalls) (gossip : Option Error) (c : Context) (n : Node W)
      (services : List Service) : Type 0 where
    bootnodes : List W.Enode
    made : Node W
    disc : Discovery W
    result : Result (Unit {0})
    discovered :
        new_discovery N B env key calls bootnodes (sentry_config c).nats_url ≡ ok (made, disc)
    started : start (sentry_config c) gossip made ≡ (n, services, result)

  run_sentry-Ran :
      (N : Network W) (B : Bitvector64) (parse : String → Result W.Enode) (enrs : List String)
      (env : Environment) (key : Option Error) (calls : NodeCalls) (gossip : Option Error)
      (c : Context) (n : Node W) (services : List Service)
      → run_sentry N B parse enrs env key calls gossip c ≡ returns (n, services)
      → Ran N B env key calls gossip c n services
  unfolding run_sentry
  run_sentry-Ran N B parse enrs env key calls gossip c n services h =
      let url = (sentry_config c).nats_url in
      let (bootnodes, _, k) = >>=-eq-returns (get_ethereum_bootnodes parse enrs) _ h in
      elim (Result-cases (new_discovery N B env key calls bootnodes url)) [
        | inr (e, x) ↦ absurd (ground (arith, rw x at k))
        | inl ((made, disc), x) ↦
            let k' = rw x at k in
            let r = start (sentry_config c) gossip made in
            elim (Result-cases r.2) [
              | inr (e, y) ↦ absurd (ground (arith, rw y at k'))
              | inl (u, y) ↦ record {
                bootnodes = bootnodes;
                made = made;
                disc = disc;
                result = r.2;
                discovered = x;
                started = ground (arith, rw y at k');
              }
            ]
      ]

  start-jetstream :
      (cfg : NodeConfig) (gossip : Option Error) (n n' : Node W) (services : List Service)
      (r : Result (Unit {0}))
      → start cfg gossip n ≡ (n', services, r)
      → n'.jetstream ≡ n.jetstream
  unfolding start
  start-jetstream cfg gossip n n' services r h =
      let set = set_status (initial_status n.fork_digest) n.req_resp in
      elim (Result-cases (register_handlers set)) [
        | inl (topics, e) ↦ sym (ap (λ x. x.0.jetstream) (rw (e, start) at h))
        | inr (x, e) ↦ sym (ap (λ x. x.0.jetstream) (rw (e, start) at h))
      ]

  made-new_node :
      (N : Network W) (B : Bitvector64) (env : Environment) (key : Option Error) (calls : NodeCalls)
      (bootnodes : List W.Enode) (c : Context) (made : Node W × Discovery W)
      → new_discovery N B env key calls bootnodes (sentry_config c).nats_url ≡ ok made
      → new_node N B env calls bootnodes (sentry_config c) ≡ ok made
  unfolding new_discovery
  made-new_node N B env (some e) calls bootnodes c made h = absurd (ground arith)
  made-new_node N B env none calls bootnodes c made h = h

  -- When the sentry's command comes up, its node is fresh: an empty store, no events, and a status
  -- of its own, of zeros with the digest of the main net; it handles each of the five protocols,
  -- and publishes its metadata events exactly if it has a JetStream.
  pub run_sentry-IsFresh :
      (N : Network W) (B : Bitvector64) (parse : String → Result W.Enode) (enrs : List String)
      (env : Environment) (key : Option Error) (calls : NodeCalls) (gossip : Option Error)
      (c : Context) (n : Node W) (services : List Service)
      → run_sentry N B parse enrs env key calls gossip c ≡ returns (n, services)
      → IsFresh (goroutines_of n)
        × (n.req_resp.status ≡ some (initial_status mainnet_digest))
        × ((t : Topic) → In (stream_handler t) services)
        × (In metadata_publisher services ↔ (n.jetstream ≡ true))
  unfolding default_node_config
  run_sentry-IsFresh N B parse enrs env key calls gossip c n services h =
      let v = run_sentry-Ran N B parse enrs env key calls gossip c n services h in
      let (fresh, own, handled, publishes) =
        new_node-start N B env calls v.bootnodes (sentry_config c) gossip v.made n v.disc services
          v.result (made-new_node N B env key calls v.bootnodes c (v.made, v.disc) v.discovered)
          v.started in
      let same = start-jetstream (sentry_config c) gossip v.made n services v.result v.started in
      (
        record {
          store = fresh.store;
          own = fresh.own;
          unsent = fresh.unsent;
          idle = refl;
          drained = refl;
        },
        own,
        handled,
        rw same publishes,
      )
