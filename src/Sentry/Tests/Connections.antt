-- ===== src/Sentry/Tests/Connections.antt =====
-- The theorems on connections and handlers at concrete inputs.
use valtrack.Base.{
  List, inr, String, str_eq, [], ◌∷◌, true, false, none, some, Error, wrap, ok, err, returns, ◌≡◌,
  ◌⊎◌, refl, if◌then◌else◌, pos,
}
use valtrack.Base.Dict.{lookup, insert as dict_insert}
use valtrack.Sentry.Peerstore.{
  get, put, modify, insert, set_state, set_backoff, backed_off, reset, cleared, not_connected,
  connecting, state_of, last_err_of, is_backed_off,
}
use valtrack.Sentry.Peerstore.Frame.{adds_subnets, run}
use valtrack.Sentry.ReqResp.{request_status}
use valtrack.Sentry.ReqResp.LocalStatus.{set_statuses}
use valtrack.Sentry.Node.{Node, Interlude, interlude}
use valtrack.Sentry.Notifiee.{
  outbound, Task, handle_outbound_of, Handshake, Meeting, connected, handshake, outbound_body,
  after_handshake, clean_up, handle_outbound,
}
use valtrack.Sentry.Notifiee.CleanUp.{failed_handshake_forgotten}
use valtrack.Sentry.Notifiee.Connection.{fresh_info, Fits, connected_lem}
use valtrack.Sentry.Notifiee.Ready.{CalmInterlude}
use valtrack.Sentry.Tests.{text_wire, store_one, failed_once, refused}
use valtrack.Sentry.Tests.Requests.{own_status, newer_status, own_meta_data, served, clear_stream}

abbrev pub node_one : Node text_wire
node_one = record {
  peerstore = store_one;
  req_resp = served;
  seen_nodes = [];
  fork_digest = own_status.fork_digest;
  jetstream = true;
  metadata_events = [];
  logged = [];
  crawler_id = "machine";
  crawler_loc = "ams";
}

abbrev pub quiet : Interlude text_wire
quiet = record { ops = []; statuses = [] }

-- While the handler sleeps, the peer's subscriptions come in.
abbrev pub subscribing : Interlude text_wire
subscribing = record { ops = adds_subnets "peer" (pos 3 ∷ pos 9 ∷ []) 50 ∷ []; statuses = [] }

abbrev pub good_handshake : Handshake text_wire
good_handshake = record {
  status_stream = ok (clear_stream 0 newer_status);
  ping_stream = ok (clear_stream 0 7);
  metadata_stream = ok (clear_stream 0 own_meta_data);
  status_at = 40;
  metadata_at = 41;
  during_status = quiet;
  during_ping = quiet;
  during_metadata = quiet;
}

abbrev pub meeting : Handshake text_wire → Meeting text_wire
meeting h = record {
  has_address = true;
  handshake = h;
  polls = quiet ∷ [];
  still_connected = true;
  agent_version = ok (some "Lighthouse");
  during_sleep = subscribing;
  in_time = true;
  failed_at = 45;
  ended_at = 60;
}

subscribing-calm : CalmInterlude store_one "peer" subscribing
unfolding CalmInterlude get lookup
subscribing-calm = (record { known = inr (λ e. cc); mild = λ e. refl }, tt)

-- The stream for the status does not open.
abbrev pub bad_handshake : Handshake text_wire
bad_handshake = record good_handshake { status_stream = err refused }

abbrev status_failed : Error
status_failed = wrap "Failed to get status from peer" refused

bad_handshake_run : handshake "peer" bad_handshake node_one ≡ returns (err status_failed, node_one)
unfolding handshake interlude run set_statuses request_status
bad_handshake_run = refl

abbrev node_after : Node text_wire
node_after = record node_one {
  peerstore = record store_one {
    peers =
        ("peer", record failed_once { last_seen = 60; last_err = none; backoff_counter = 0 }) ∷ [];
  };
}

bad_handshake_end : handle_outbound "peer" (meeting bad_handshake) node_one ≡ returns node_after
unfolding handle_outbound handshake interlude run set_statuses request_status after_handshake
    clean_up reset modify set_backoff backed_off cleared get put lookup dict_insert
bad_handshake_end = refl

failed_handshake_forgotten_example :
    (n₂ : Node text_wire) × (outbound_body "peer" (meeting bad_handshake) node_one ≡ returns n₂)
    × (last_err_of n₂.peerstore "peer" ≡ some status_failed)
    × (last_err_of node_after.peerstore "peer" ≡ none)
    × (is_backed_off node_after.peerstore "peer" 61 ≡ false)
failed_handshake_forgotten_example =
    failed_handshake_forgotten "peer" (meeting bad_handshake) node_one node_one node_after
      status_failed 61 refl bad_handshake_run bad_handshake_end

state_one : state_of store_one "peer" ≡ not_connected
unfolding state_of get lookup
state_one = refl

connected_lem_example :
    ((state_of store_one "peer" ≡ connecting)
      × (connected "peer" "/ip4/5.6.7.8/tcp/9000" outbound 70 71 node_one ≡ returns ([], node_one)))
    ⊎ ((ts : List Task) × (n' : Node text_wire) × (state_of store_one "peer" ≡ not_connected)
        × (connected "peer" "/ip4/5.6.7.8/tcp/9000" outbound 70 71 node_one ≡ returns (ts, n'))
        × Fits outbound "peer" ts
        × ((j : String)
            → get n'.peerstore j ≡ (
                if str_eq "peer" j
                then some (fresh_info "peer" "/ip4/5.6.7.8/tcp/9000" 71 node_one)
                else get store_one j)))
connected_lem_example = connected_lem "peer" "/ip4/5.6.7.8/tcp/9000" outbound 70 71 node_one

abbrev node_connecting : Node text_wire
node_connecting = record node_one {
  peerstore = record store_one {
    peers = ("peer", fresh_info "peer" "/ip4/5.6.7.8/tcp/9000" 71 node_one) ∷ [];
  };
}

connected_once :
    connected "peer" "/ip4/5.6.7.8/tcp/9000" outbound 70 71 node_one
    ≡ returns (handle_outbound_of "peer" ∷ [], node_connecting)
unfolding connected state_of insert set_state modify get put lookup dict_insert
connected_once = refl
