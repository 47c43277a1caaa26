-- ===== src/Commands/Tests.antt =====
-- The theorems on the commands at concrete inputs.
use valtrack.Base.{[], ◌∷◌, In, true, none, some, ok, returns, ◌≡◌, ◌↔◌, refl}
use valtrack.Hex.{encode_to_string}
use valtrack.Sentry.ReqResp.{Topic, new_req_resp, set_status, register_handlers}
use valtrack.Sentry.Discovery.{maddr_from}
use valtrack.Sentry.Configuration.{
  default_disc_config, default_node_config, get_crawler_location, get_crawler_machine_id,
  get_ethereum_bootnodes, mainnet_digest,
}
use valtrack.Sentry.Startup.{
  create_nats_stream, eth2_enr_entry, new_discovery_v5, new_node, stream_handler,
  metadata_publisher, initial_status, start,
}
use valtrack.Sentry.Goroutines.{IsFresh}
use valtrack.Sentry.Tests.{text_wire}
use valtrack.Sentry.Tests.Discoveries.{network}
use valtrack.Sentry.Tests.Requests.{index_list}
use valtrack.Sentry.Tests.Startups.{env, calls, started}
use valtrack.Commands.{Context, new_discovery, run_sentry}
use valtrack.Commands.Started.{goroutines_of, run_sentry-IsFresh}

-- The flag for the URL of NATS is not set.
abbrev bare : Context
bare = record { string = λ name. ""; uint64 = λ name. 0 }

ran :
    run_sentry {W = text_wire} network index_list
      (λ enr. ok enr)
      ("enr:-boot" ∷ [])
      env
      none
      calls
      none
      bare
    ≡ returns (started.0, started.1)
unfolding run_sentry get_ethereum_bootnodes new_discovery new_node new_discovery_v5
    create_nats_stream eth2_enr_entry maddr_from new_req_resp get_crawler_location
    get_crawler_machine_id default_disc_config default_node_config encode_to_string start
    register_handlers set_status
ran = refl

run_sentry-IsFresh_example :
    IsFresh (goroutines_of started.0)
    × (started.0.req_resp.status ≡ some (initial_status mainnet_digest))
    × ((t : Topic) → In (stream_handler t) started.1)
    × (In metadata_publisher started.1 ↔ (started.0.jetstream ≡ true))
run_sentry-IsFresh_example =
    run_sentry-IsFresh network index_list (λ enr. ok enr) ("enr:-boot" ∷ []) env none calls none
      bare started.0 started.1 ran
