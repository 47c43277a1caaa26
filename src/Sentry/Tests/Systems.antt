-- ===== src/Sentry/Tests/Systems.antt =====
-- The theorems on the node at work and on its start at concrete inputs.
use valtrack.Base.{
  inr, All, In, eq_iff, List, [], ◌∷◌, none, some, returns, ◌≡◌, ◌≢◌, refl, arith, quot_ℤ, to_int64,
  pos,
}
use valtrack.Base.Dict.{lookup, insert as dict_insert}
use valtrack.Types.{MetadataReceivedEvent}
use valtrack.Sentry.Wire.{AddrInfo}
use valtrack.Sentry.Peerstore.{
  PeerInfo, Peerstore, new_peerstore, get, put, modify, insert, set_state, set_backoff, backed_off,
  reset, cleared, not_connected, connecting, state_of, time_since, peers_to_reconnect,
  into_metadata_event, set_metadata, set_client_version, add_subscribed_subnets, second,
}
use valtrack.Sentry.Peerstore
use valtrack.Sentry.Peerstore.Reconnect.{node_backoff}
use valtrack.Sentry.Peerstore.Frame.{Op, inserts, target, apply, run}
use valtrack.Sentry.ReqResp.{
  request_status, request_meta_data, ping, set_status, cpy_status, bytes_equal,
}
use valtrack.Sentry.Stream.{write_request, read_response}
use valtrack.Sentry.ReqResp.LocalStatus.{set_statuses}
use valtrack.Sentry.Node.{Node, interlude, send_metadata_event}
use valtrack.Sentry.Notifiee.{
  outbound, handle_outbound_of, connected, handshake, outbound_body, after_handshake, clean_up,
  handle_outbound, ask_metadata, follow_head, publish, save_client_version,
}
use valtrack.Sentry.Notifiee.Safety.{CalmMeeting}
use valtrack.Sentry.Tests.{text_wire}
use valtrack.Sentry.Tests.Connections.{node_one, meeting, good_handshake}
use valtrack.Sentry.Tests.Requests.{newer_status, served}
use valtrack.Sentry.Notifiee.Ready.{CalmInterlude}
use valtrack.Sentry.System.{System, connects, IsStarted, Reachable, stay, step}
use valtrack.Sentry.System.Live.{handled_peer_comes_back}

abbrev pub at_start : System text_wire
at_start = record {
  node = record node_one { peerstore = new_peerstore node_backoff };
  tasks = [];
  reconnect_chan = [];
}

abbrev pub connected_node : Node text_wire
connected_node = record node_one {
  peerstore = record {
    peers =
        (
          "peer",
          record {
            id = "peer";
            enode = text_wire.no_enode;
            last_seen = 31;
            remote_addr = "/ip4/1.2.3.4/tcp/9000";
            status = none;
            metadata = none;
            subscribed_subnets = [];
            client_version = "";
            state = connecting;
            last_err = none;
            backoff_counter = 0;
          },
        )
        ∷ [];
    default_backoff = node_backoff;
  };
}

abbrev at_work : System text_wire
at_work = record {
  node = connected_node;
  tasks = handle_outbound_of "peer" ∷ [];
  reconnect_chan = [];
}

connects_peer :
    connected "peer" "/ip4/1.2.3.4/tcp/9000" outbound 30 31 at_start.node
    ≡ returns (handle_outbound_of "peer" ∷ [], connected_node)
unfolding connected state_of insert set_state modify get put lookup dict_insert new_peerstore
connects_peer = refl

pub at_start-IsStarted : IsStarted at_start
at_start-IsStarted = record {
  store = refl;
  own = λ e. cc;
  unsent = refl;
  idle = refl;
  drained = refl;
}

at_work-Reachable : Reachable at_start at_work
at_work-Reachable = step stay (
    connects "peer" "/ip4/1.2.3.4/tcp/9000" outbound 30 31 (handle_outbound_of "peer" ∷ [])
      connected_node connects_peer refl)

abbrev pub handled_event : MetadataReceivedEvent
handled_event = record {
  enr = "";
  id = "peer";
  multiaddr = "/ip4/1.2.3.4/tcp/9000";
  epoch = pos 4;
  meta_data = some (record { seq_number = pos 0; attnets = 255 ∷ []; syncnets = 0 ∷ [] });
  subscribed_subnets = pos 3 ∷ pos 9 ∷ [];
  client_version = "Lighthouse";
  crawler_id = "machine";
  crawler_loc = "ams";
  timestamp = pos 0;
}

abbrev pub met_info : PeerInfo text_wire
met_info = record {
  id = "peer";
  enode = text_wire.no_enode;
  last_seen = 60;
  remote_addr = "/ip4/1.2.3.4/tcp/9000";
  status = none;
  metadata = none;
  subscribed_subnets = [];
  client_version = "Lighthouse";
  state = not_connected;
  last_err = none;
  backoff_counter = 0;
}

abbrev pub handled_node : Node text_wire
handled_node = record node_one {
  peerstore = record { peers = ("peer", met_info) ∷ []; default_backoff = node_backoff };
  req_resp = record served { status = some newer_status };
  metadata_events = handled_event ∷ [];
}

handled_run : handle_outbound "peer" (meeting good_handshake) connected_node ≡ returns handled_node
unfolding handle_outbound outbound_body handshake ask_metadata follow_head interlude run
    set_statuses set_status request_status request_meta_data ping after_handshake publish
    save_client_version send_metadata_event into_metadata_event set_metadata set_client_version
    add_subscribed_subnets apply clean_up reset modify set_backoff backed_off cleared get put lookup
    dict_insert Peerstore.set_status cpy_status write_request read_response bytes_equal quot_ℤ
    to_int64
handled_run = refl

meeting-CalmMeeting : CalmMeeting connected_node.peerstore "peer" (meeting good_handshake)
unfolding CalmInterlude get lookup
meeting-CalmMeeting = record {
  shake = record { status = tt; ping = tt; metadata = tt };
  polls = (tt, tt);
  sleep = (record { known = inr (λ e. cc); mild = λ e. refl }, tt);
  version = λ e. ground arith;
}

-- Another peer is met after the handler has ended.
abbrev later_ops : List (Op text_wire)
later_ops = inserts "other" "/ip4/9.9.9.9/tcp/9000" "enr:b" 70 ∷ []

abbrev later : Peerstore text_wire
later = record {
  peers =
      ("peer", met_info)
      ∷ (
        "other",
        record met_info {
          id = "other";
          enode = "enr:b";
          last_seen = 70;
          remote_addr = "/ip4/9.9.9.9/tcp/9000";
          client_version = "";
        },
      )
      ∷ [];
  default_backoff = node_backoff;
}

later_ops-run : run later_ops handled_node.peerstore ≡ returns later
unfolding run apply insert put dict_insert
later_ops-run = refl

others : All (λ (op : Op text_wire). target op ≢ "peer") later_ops
others = ((λ e. let same = (eq_iff "other" "peer").1 e in ground arith), tt)

handled_peer_comes_back_example :
    (a : AddrInfo text_wire) × (a.id ≡ "peer") × In a (peers_to_reconnect 400000000000 later)
handled_peer_comes_back_example =
    handled_peer_comes_back at_start at_work (handle_outbound_of "peer") (meeting good_handshake)
      handled_node later_ops later 400000000000 at_start-IsStarted at_work-Reachable handled_run
      others later_ops-run (omega arith)
