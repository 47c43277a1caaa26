-- ===== src/Sentry/Tests/Turns.antt =====
-- The theorems on handlers that take turns at concrete inputs.
use valtrack.Base.{
  pos, str_eq, ℕ, zero, suc, String, List, [], ◌∷◌, ◌++◌, Bool, true, false, Option, none, some, ok,
  Outcome, returns, panics, ◌>>=◌, >>=-eq-returns, ◌≡◌, ◌≢◌, refl, subst, inl, arith, quot_ℤ,
  to_int64, if◌then◌else◌,
}
use valtrack.Base.Dict.{lookup, insert as dict_insert}
use valtrack.Sentry.Wire.{Wire, AddrInfo}
use valtrack.Sentry.Peerstore.{
  PeerInfo, Peerstore, nil_deref, new_peerstore, get, put, modify, insert, set_state, set_backoff,
  backed_off, reset, cleared, connecting, state_of, is_not_connected, into_metadata_event,
  set_metadata, set_client_version, status_of, peers_to_reconnect, time_since,
}
use valtrack.Sentry.Peerstore
use valtrack.Sentry.Peerstore.Reconnect.{node_backoff}
use valtrack.Sentry.ReqResp.{
  request_status, request_meta_data, ping, set_status, cpy_status, bytes_equal,
}
use valtrack.Sentry.Stream.{write_request, read_response}
use valtrack.Sentry.Node.{Node, send_metadata_event}
use valtrack.Sentry.Notifiee.{
  outbound, inbound, handle_outbound_of, Meeting, insert_peer, connected, follow_head,
  save_client_version, clean_up, task_of,
}
use valtrack.Sentry.Tests.{text_wire, refused}
use valtrack.Sentry.Tests.Connections.{node_one, meeting, good_handshake}
use valtrack.Sentry.Tests.Systems.{connected_node, handled_node, handled_event, met_info}
use valtrack.Sentry.Tests.Requests.{own_status, served, newer_status, own_meta_data}
use valtrack.Types.{MetadataReceivedEvent}
use valtrack.Sentry.Goroutines.{
  Phase, dials, sleeps, awaits_status, left, resume, Goroutines, connects, resumes, ticks, Reaches,
  stay, turn, IsFresh,
}
use valtrack.Sentry.Goroutines.Resume.{Remains, Fits}
use valtrack.Sentry.Goroutines.Turns.{IsOrderly}
use valtrack.Sentry.Goroutines.Orderly.{Reaches-IsOrderly}
use valtrack.Sentry.Goroutines.Progress.{
  Reaches-resume, Reaches-reconnect, course, IsSupported, course-ends,
}
use valtrack.Sentry.Goroutines.Alone.{alone}
use valtrack.Sentry.Goroutines.Alone.Answered.{Answers, followed}
use valtrack.Sentry.Goroutines.Alone.Met.{met_event, left_info, alone-outbound_met}
use valtrack.Sentry.Goroutines.Race.{overlapping_call_panics}
use valtrack.Sentry.System.{reconnect}

abbrev pub fresh_one : Goroutines text_wire
fresh_one = record {
  node = record node_one { peerstore = new_peerstore node_backoff };
  running = [];
  reconnect_chan = [];
}

pub fresh_one-IsFresh : IsFresh fresh_one
fresh_one-IsFresh = record {
  store = refl;
  own = λ e. cc;
  unsent = refl;
  idle = refl;
  drained = refl;
}

abbrev dialing : Goroutines text_wire
dialing = record { node = connected_node; running = ("peer", dials) ∷ []; reconnect_chan = [] }

connects_one :
    connected "peer" "/ip4/1.2.3.4/tcp/9000" outbound 30 31 fresh_one.node
    ≡ returns (handle_outbound_of "peer" ∷ [], connected_node)
unfolding connected state_of insert set_state modify get put lookup dict_insert new_peerstore
connects_one = refl

dialing-Reaches : Reaches fresh_one dialing
dialing-Reaches = turn stay (
    connects "peer" "/ip4/1.2.3.4/tcp/9000" outbound 30 31 (handle_outbound_of "peer" ∷ [])
      connected_node connects_one refl)

module _ {W : Wire} where
  -- The first handler takes a turn.
  abbrev advance : Meeting W → Goroutines W → Outcome (Goroutines W)
  advance m s = elim s.running [
    | [] ↦ returns s
    | (g ∷ gs) ↦ resume g.0 m false g.1 s.node >>= λ r.
        returns (record s { node = r.1; running = left g.0 r.0 ++ gs })
  ]

  abbrev advances : Meeting W → ℕ → Goroutines W → Outcome (Goroutines W)
  advances m zero s = returns s
  advances m (suc k) s = advance m s >>= advances m k

  advance-Reaches :
      (m : Meeting W) (s₀ : Goroutines W) (node : Node W) (running : List (String × Phase))
      (chan : List _) (t : Goroutines W)
      → m.agent_version ≢ ok none
      → Reaches s₀ (record { node = node; running = running; reconnect_chan = chan })
      → advance m (record { node = node; running = running; reconnect_chan = chan }) ≡ returns t
      → Reaches s₀ t
  advance-Reaches m s₀ node [] chan t v r h =
      let same : record { node = node; running = []; reconnect_chan = chan } ≡ t = ground arith in
      subst (Reaches s₀) same r
  advance-Reaches m s₀ node (g ∷ gs) chan t v r h =
      let ((next, n), e, k) = >>=-eq-returns (resume g.0 m false g.1 node) _ h in
      let same : record { node = n; running = left g.0 next ++ gs; reconnect_chan = chan } ≡ t =
        ground arith in
      subst (Reaches s₀) same (turn r (resumes g.0 g.1 [] gs m false next n refl v e refl))

  advances-Reaches :
      (m : Meeting W) (k : ℕ) (s₀ s t : Goroutines W)
      → m.agent_version ≢ ok none
      → Reaches s₀ s
      → advances m k s ≡ returns t
      → Reaches s₀ t
  advances-Reaches m zero s₀ s t v r h =
      let same : s ≡ t = ground arith in subst (Reaches s₀) same r
  advances-Reaches m (suc k) s₀ s t v r h =
      let (u, e, f) = >>=-eq-returns (advance m s) (advances m k) h in
      advances-Reaches m k s₀ u t v (advance-Reaches m s₀ s.node s.running s.reconnect_chan u v r e)
        f

abbrev asking : Goroutines text_wire
asking = record {
  node = connected_node;
  running = ("peer", awaits_status served) ∷ [];
  reconnect_chan = [];
}

asking_run : advances (meeting good_handshake) 1 dialing ≡ returns asking
unfolding resume
asking_run = refl

version_known : (meeting good_handshake).agent_version ≢ ok none
version_known e = ground arith

pub asking-Reaches : Reaches fresh_one asking
asking-Reaches =
    advances-Reaches (meeting good_handshake) 1 fresh_one dialing asking version_known
      dialing-Reaches asking_run

Reaches-IsOrderly_example : IsOrderly asking
Reaches-IsOrderly_example = Reaches-IsOrderly fresh_one asking fresh_one-IsFresh asking-Reaches

Reaches-resume_example :
    (next : Option Phase) × (n : Node text_wire) × (resume "peer"
        (meeting good_handshake)
        false
        (awaits_status served)
        connected_node
      ≡ returns (next, n))
    × Remains "peer" next n
Reaches-resume_example =
    Reaches-resume fresh_one asking "peer" (awaits_status served) (meeting good_handshake) false
      fresh_one-IsFresh asking-Reaches (inl refl) version_known

abbrev pub quiet_event : MetadataReceivedEvent
quiet_event = record handled_event { subscribed_subnets = [] }

abbrev pub over : Goroutines text_wire
over = record {
  node = record handled_node { metadata_events = quiet_event ∷ [] };
  running = [];
  reconnect_chan = [];
}

over_run : advances (meeting good_handshake) 8 dialing ≡ returns over
unfolding resume request_status request_meta_data ping follow_head save_client_version clean_up
    send_metadata_event into_metadata_event set_metadata set_client_version Peerstore.set_status
    set_status cpy_status write_request read_response bytes_equal quot_ℤ to_int64 reset modify
    cleared get put lookup dict_insert
over_run = refl

pub over-Reaches : Reaches fresh_one over
over-Reaches =
    advances-Reaches (meeting good_handshake) 8 fresh_one dialing over version_known dialing-Reaches
      over_run

abbrev peer_info : AddrInfo text_wire
peer_info = record { id = "peer"; addrs = "/ip4/1.2.3.4/tcp/9000" ∷ [] }

abbrev queued : Goroutines text_wire
queued = record over { reconnect_chan = peer_info ∷ [] }

queues_once : queued ≡ record over {
  reconnect_chan = over.reconnect_chan ++ peers_to_reconnect 400000000000 over.node.peerstore;
}
unfolding peers_to_reconnect time_since
queues_once = refl

Reaches-reconnect_example :
    (n : Node text_wire) × (reconnect peer_info (some refused) 400000000001 over.node ≡ returns n)
Reaches-reconnect_example =
    Reaches-reconnect fresh_one queued peer_info (some refused) 400000000001 fresh_one-IsFresh
      (turn over-Reaches (ticks 400000000000 queues_once)) (inl refl)

abbrev new_info : PeerInfo text_wire
new_info = record {
  id = "peer";
  enode = text_wire.no_enode;
  last_seen = 31;
  remote_addr = "/ip4/1.2.3.4/tcp/9000";
  status = none;
  metadata = none;
  subscribed_subnets = [];
  client_version = "";
  state = connecting;
  last_err = none;
  backoff_counter = 0;
}

connected_info : get connected_node.peerstore "peer" ≡ some new_info
unfolding get lookup
connected_info = refl

answers :
    Answers "peer"
      (meeting good_handshake)
      connected_node
      newer_status
      own_meta_data
      (pos 3 ∷ pos 9 ∷ [])
      50
unfolding request_status request_meta_data ping cpy_status write_request read_response
answers = record {
  dialed = refl;
  status = refl;
  pong = refl;
  metadata = refl;
  before_status = refl;
  before_pong = refl;
  before_metadata = refl;
  sleep = refl;
}

alone-outbound_met_example :
    (n : Node text_wire) × (alone "peer" (meeting good_handshake) 8 [] dials connected_node
      ≡ returns n)
    × (n.metadata_events
        ≡ met_event new_info newer_status own_meta_data
            (pos 3 ∷ pos 9 ∷ [])
            50
            "Lighthouse"
            connected_node
          ∷ [])
    × ((j : String)
        → get n.peerstore j ≡ (
            if str_eq "peer" j
            then some (left_info new_info "Lighthouse" 60)
            else get connected_node.peerstore j))
    × (n.req_resp.status ≡ some (followed connected_node.fork_digest own_status newer_status))
alone-outbound_met_example =
    alone-outbound_met "peer" (meeting good_handshake) connected_node new_info own_status
      newer_status own_meta_data (pos 3 ∷ pos 9 ∷ []) 50 "Lighthouse" answers refl refl refl
      connected_info refl

overlapping_call_panics_example :
    (n' : Node text_wire) × (connected "peer" "/ip4/1.2.3.4/tcp/9001" inbound 50 51 connected_node
      ≡ (if is_not_connected (state_of connected_node.peerstore "peer")
          then insert_peer "peer" "/ip4/1.2.3.4/tcp/9001" inbound 50 51 connected_node
          else returns ([], connected_node)))
    × (insert_peer "peer" "/ip4/1.2.3.4/tcp/9001" inbound 50 51 connected_node
        ≡ returns (task_of inbound "peer", n'))
    × (resume "peer" (meeting good_handshake) false sleeps n' ≡ panics nil_deref)
overlapping_call_panics_example =
    overlapping_call_panics "peer" "/ip4/1.2.3.4/tcp/9001" inbound 50 51 (meeting good_handshake)
      false connected_node

-- The peer's record has all that any phase relies on.
abbrev known_node : Node text_wire
known_node = record connected_node {
  peerstore = record {
    peers =
        (
          "peer",
          record met_info {
            state = connecting;
            status = some newer_status;
            metadata = some own_meta_data;
          },
        )
        ∷ [];
    default_backoff = node_backoff;
  };
}

abbrev late_turns : ℕ → List (Meeting text_wire × Bool × Node text_wire)
late_turns zero = []
late_turns (suc k) = (meeting good_handshake, true, known_node) ∷ late_turns k

known_node-Fits : (ph : Phase) → Fits "peer" ph known_node.peerstore
unfolding get lookup
known_node-Fits ph = record {
  info = _;
  stored = refl;
  state = refl;
  has = record { status = λ _ e. cc; metadata = λ _ e. cc };
}

late_turns-IsSupported : (k : ℕ) (ph : Phase) → IsSupported "peer" (late_turns k) ph
late_turns-IsSupported zero ph = tt
late_turns-IsSupported (suc k) ph =
    (refl, λ e. cc, version_known, known_node-Fits ph, λ ph' n' e. late_turns-IsSupported k ph')

course-ends_example : course "peer" (late_turns 8) dials ≡ returns none
course-ends_example =
    course-ends "peer" (late_turns 8) dials (late_turns-IsSupported 8 dials) (omega arith)
