-- ===== src/Sentry/Tests/Startups.antt =====
-- The theorems on the start of the node at concrete inputs.
use valtrack.Base.{List, [], ◌∷◌, true, none, Result, ok, ◌≡◌, refl}
use valtrack.Hex.{encode_to_string}
use valtrack.Sentry.Peerstore.{new_peerstore}
use valtrack.Sentry.Peerstore.Reconnect.{node_backoff}
use valtrack.Sentry.ReqResp.{new_req_resp, set_bits_below}
use valtrack.Sentry.Node.{Node}
use valtrack.Sentry.Discovery.{Discovery, maddr_from}
use valtrack.Sentry.Tests.{text_wire}
use valtrack.Sentry.Tests.Discoveries.{network}
use valtrack.Sentry.Tests.Requests.{index_list, own_status}
use valtrack.Sentry.Configuration.{
  Environment, default_disc_config, default_node_config, get_crawler_location,
  get_crawler_machine_id,
}
use valtrack.Sentry.Startup.{
  NatsCalls, NodeCalls, create_nats_stream, eth2_enr_entry, new_discovery_v5, new_node, Service,
  start,
}

abbrev pub env : Environment
env = record { nats_url = "nats://localhost:4222"; fly_region = ""; fly_machine_id = "machine" }

abbrev nats_calls : NatsCalls
nats_calls = record { connect = λ url. none; jetstream = none; stream = none }

abbrev pub calls : NodeCalls
calls = record {
  create_log = none;
  raw_key = none;
  disc = record {
    nats = nats_calls;
    open_db = none;
    next_fork = none;
    marshal = none;
    listen_udp = none;
    listen_v5 = none;
    create_log = none;
  };
  libp2p = none;
  nats = nats_calls;
}

abbrev pub fresh_node : Node text_wire
fresh_node = record {
  peerstore = new_peerstore node_backoff;
  req_resp = record {
    meta_data = record {
      seq_number = 0;
      attnets = set_bits_below index_list 64 [];
      syncnets = 0 ∷ [];
    };
    status = none;
  };
  seen_nodes = [];
  fork_digest = own_status.fork_digest;
  jetstream = true;
  metadata_events = [];
  logged = [];
  crawler_id = "machine";
  crawler_loc = "FLY_REGION";
}

abbrev pub fresh_discovery : Discovery text_wire
fresh_discovery = record {
  filter_digest = "0x6a95a1a9";
  seen_nodes = [];
  out = [];
  jetstream = true;
  disc_events = [];
  logged = [];
  crawler_id = "machine";
  crawler_loc = "FLY_REGION";
}

made :
    new_node network index_list env calls ("enr:-boot" ∷ []) default_node_config
    ≡ ok (fresh_node, fresh_discovery)
unfolding new_node new_discovery_v5 create_nats_stream eth2_enr_entry maddr_from new_req_resp
    get_crawler_location get_crawler_machine_id default_disc_config default_node_config
    encode_to_string
made = refl

abbrev pub started : Node text_wire × List Service × Result (Unit {0})
started = start default_node_config none fresh_node
