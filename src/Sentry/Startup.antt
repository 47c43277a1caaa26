-- ===== src/Sentry/Startup.antt =====
-- How the sentry comes up: createNatsStream of pkg/ethereum/nats.go, NewDiscoveryV5 of
-- pkg/ethereum/discv5.go, Eth2EnrEntry of config/config.go, and NewNode and Start of
-- pkg/ethereum/node.go. The answers of the calls that can fail are given; `none` is a nil error.
pub mod Fresh
use Prim.Native.String.{◌++◌ as ◌^^◌}
use valtrack.Base.{
  ℕ, zero, suc, ◌==◌, String, str_eq, List, [], ◌∷◌, ◌++◌, length, Bool, true, false, Option, none,
  some, Error, new, wrap, Result, ok, err, Outcome, returns, panics, ◌>>=◌, if◌then◌else◌,
}
use valtrack.Hex.{encode_to_string}
use valtrack.Sentry.Wire.{Wire, Status}
use valtrack.Sentry.Peerstore.{new_peerstore}
use valtrack.Sentry.Peerstore.Reconnect.{node_backoff}
use valtrack.Sentry.ReqResp.{
  ReqResp, Bitvector64, Topic, new_req_resp, set_status, register_handlers,
}
use valtrack.Sentry.Node.{Node}
use valtrack.Sentry.Configuration.{
  DiscConfig, mainnet_digest, get_ethereum_bootnodes, default_disc_config, NodeConfig,
  default_node_config, Environment, get_crawler_location, get_crawler_machine_id,
}
use valtrack.Sentry.Discovery.{Network, Discovery, maddr_from}

-- `if err != nil { return …, errors.Wrap(err, message) }`
abbrev pub check : {A : Type 0} → String → Option Error → Result A → Result A
check message none rest = rest
check message (some e) rest = err (wrap message e)

abbrev pub let_ok : {A B : Type 0} → (Error → Error) → Result A → (A → Result B) → Result B
let_ok f (ok a) rest = rest a
let_ok f (err e) rest = err (f e)

-- `nats.Connect`, at a URL, `jetstream.New` and `CreateOrUpdateStream`.
pub record NatsCalls : Type 0 where
  pub connect : String → Option Error
  pub jetstream : Option Error
  pub stream : Option Error

-- Whether there is a JetStream: with no URL the sentry runs without NATS.
unfoldable pub create_nats_stream : Environment → NatsCalls → String → Result Bool
create_nats_stream env nats url =
    let url' = if str_eq url "" then env.nats_url else url in
    if str_eq url' ""
    then ok false
    else check "Failed to connect to NATS" (nats.connect url') (
        check "Failed to create JetStream context" nats.jetstream
          (check "Failed to create JetStream stream" nats.stream (ok true)))

-- The entry of the ENR is made from `forks.NextForkData` and its encoding.
pub record DiscCalls : Type 0 where
  pub nats : NatsCalls
  pub open_db : Option Error
  pub next_fork : Option Error
  pub marshal : Option Error
  pub listen_udp : Option Error
  pub listen_v5 : Option Error
  pub create_log : Option Error

-- Eth2EnrEntry, as far as its error.
unfoldable pub eth2_enr_entry : DiscCalls → Option Error
eth2_enr_entry calls = elim calls.next_fork [
  | some e ↦ some (wrap "calculate next fork data" e)
  | none ↦ elim calls.marshal [ some e ↦ some (wrap "marshal enr fork id" e) | none ↦ none ]
]

abbrev check_bare : {A : Type 0} → Option Error → Result A → Result A
check_bare none rest = rest
check_bare (some e) rest = err e

abbrev check_bootnodes : {A E : Type 0} → List E → Result A → Result A
check_bootnodes [] rest = err (new "No bootnodes provided")
check_bootnodes (e ∷ es) rest = rest

-- An error of ResolveUDPAddr is wrapped and dropped; what follows from it is an answer of ListenUDP.
unfoldable pub new_discovery_v5 :
    {W : Wire} → Environment → DiscCalls → DiscConfig W.Enode → Result (Discovery W)
unfolding create_nats_stream eth2_enr_entry
new_discovery_v5 env calls cfg =
    let_ok (wrap "failed to create NATS JetStream") (create_nats_stream env calls.nats cfg.nats_url)
      λ js. check "Failed to open the DB" calls.open_db (
        check_bare (eth2_enr_entry calls) (
          check_bootnodes cfg.bootnodes (
            check "Failed to listen on UDP" calls.listen_udp (
              check "Failed to start discv5 listener" calls.listen_v5 (
                check "Failed to create log file" calls.create_log (
                  ok (record {
                    filter_digest = "0x" ^^ encode_to_string cfg.fork_digest;
                    seen_nodes = [];
                    out = [];
                    jetstream = js;
                    disc_events = [];
                    logged = [];
                    crawler_id = get_crawler_machine_id env;
                    crawler_loc = get_crawler_location env;
                  })))))))

-- The log file, the raw key, NewDiscoveryV5, `libp2p.New` and the node's own JetStream.
pub record NodeCalls : Type 0 where
  pub create_log : Option Error
  pub raw_key : Option Error
  pub disc : DiscCalls
  pub libp2p : Option Error
  pub nats : NatsCalls

-- The node and its discovery. `seen_nodes` of the node is the discovery's map.
unfoldable pub new_node :
    {W : Wire}
    → Network W
    → Bitvector64
    → Environment
    → NodeCalls
    → List W.Enode
    → NodeConfig
    → Result (Node W × Discovery W)
unfolding new_discovery_v5 maddr_from default_disc_config
new_node N B env calls bootnodes cfg = check "failed to create log file" calls.create_log (
    check "failed to generate discv5 key" calls.raw_key (
      let_ok (wrap "failed to create DiscoveryV5 service")
        (new_discovery_v5 env calls.disc
          (record (default_disc_config bootnodes) { nats_url = cfg.nats_url }))
        λ disc. let_ok (wrap "failed to create multiaddr") (maddr_from N cfg.ip cfg.port) λ listen.
          check "failed to create libp2p host" calls.libp2p (
            let_ok (wrap "failed to create reqresp") (new_req_resp B true) λ req_resp.
              let_ok (wrap "failed to create NATS JetStream")
                (create_nats_stream env calls.nats cfg.nats_url)
                λ js. ok (
                  record {
                    peerstore = new_peerstore node_backoff;
                    req_resp = req_resp;
                    seen_nodes = disc.seen_nodes;
                    fork_digest = cfg.fork_digest;
                    jetstream = js;
                    metadata_events = [];
                    logged = [];
                    crawler_id = get_crawler_machine_id env;
                    crawler_loc = get_crawler_location env;
                  },
                  disc,
                ))))

-- What Start sets going.
pub data Service : Type 0 where
  stream_handler : Topic → Service
  notifiee metadata_publisher discovery peer_dialer reconnection_timer reconnect_listener : Service

abbrev pub zeros : ℕ → List ℕ
zeros zero = []
zeros (suc n) = 0 ∷ zeros n

abbrev pub dialers : ℕ → List Service
dialers zero = []
dialers (suc n) = peer_dialer ∷ dialers n

unfoldable pub initial_status : List ℕ → Status
initial_status fork_digest = record {
  fork_digest = fork_digest;
  finalized_root = zeros 32;
  finalized_epoch = 0;
  head_root = zeros 32;
  head_slot = 0;
}

abbrev pub handlers_of : List Topic → List Service
handlers_of [] = []
handlers_of (t ∷ ts) = stream_handler t ∷ handlers_of ts

abbrev pub publisher_if : Bool → List Service
publisher_if js = if js then metadata_publisher ∷ [] else []

abbrev pub background : ℕ → List Service
background n = dialers n ++ (reconnection_timer ∷ reconnect_listener ∷ [])

-- The node, the services in the order of their start, and the error of `pubsub.NewGossipSub`, or nil
-- once the context ends.
unfoldable pub start :
    {W : Wire} → NodeConfig → Option Error → Node W → Node W × List Service × Result (Unit {0})
unfolding initial_status
start cfg gossip n =
    let r = set_status (initial_status n.fork_digest) n.req_resp in
    let n' = record n { req_resp = r } in
    elim (register_handlers r) [
      | err e ↦ (n', [], err (wrap "register RPC handlers" e))
      | ok topics ↦ (
        n',
        handlers_of topics
            ++ (notifiee
                ∷ (publisher_if n.jetstream ++ (discovery ∷ background cfg.concurrent_dialers))),
        check "failed to create GossipSub" gossip (ok tt),
      )
    ]
