-- ===== src/Sentry/Notifiee.antt =====
-- pkg/ethereum/node_notifiee.go: what the node does with a new connection.
pub mod CleanUp
pub mod Connection
pub mod Ready
pub mod Answers
pub mod Safety
pub mod Calls
use valtrack.Base.{
  ℕ, ltb, String, List, [], ◌∷◌, ◌++◌, Bool, true, false, Option, none, some, Error, new, wrap,
  Result, ok, err, Outcome, returns, panics, ◌>>=◌, if◌then◌else◌,
}
use valtrack.Base.Dict
use valtrack.Sentry.Wire.{Wire, Status, MetaDataV1}
use valtrack.Sentry.Peerstore.{
  ConnectionState, not_connected, connecting, Peerstore, nil_deref, is_not_connected, state_of, get,
  insert, set_state, reset, set_backoff, set_metadata, set_client_version, status_of,
  into_metadata_event,
}
use valtrack.Sentry.Peerstore
use valtrack.Sentry.Stream.{Stream}
use valtrack.Sentry.ReqResp.{
  ReqResp, bytes_equal, set_status, request_status, ping, request_meta_data,
}
use valtrack.Sentry.Node.{Node, NodeInfo, Interlude, interlude, send_metadata_event}

pub data Direction : Type 0 where
  outbound inbound unknown : Direction

-- A goroutine that `Connected` starts.
pub data Task : Type 0 where
  handle_outbound_of handle_inbound_of : String → Task

-- What the network answers in a handshake, the clock where the answers are stored, and what happens
-- elsewhere while the handler waits for each.
pub record Handshake (W : Wire) : Type 0 where
  pub status_stream : Result (Stream Status)
  pub ping_stream : Result (Stream ℕ)
  pub metadata_stream : Result (Stream MetaDataV1)
  pub status_at : ℕ
  pub metadata_at : ℕ
  pub during_status : Interlude W
  pub during_ping : Interlude W
  pub during_metadata : Interlude W

-- What a handler meets besides: whether the host knows an address of the peer, the peer's agent version
-- (`ok none` is a value that is no string), the sleep, and the clock at the end. `poll` has what happens
-- in each sleep of waitForStatus before its context ends.
pub record Meeting (W : Wire) : Type 0 where
  pub has_address : Bool
  pub handshake : Handshake W
  pub polls : List (Interlude W)
  pub still_connected : Bool
  pub agent_version : Result (Option String)
  pub during_sleep : Interlude W
  pub in_time : Bool
  pub failed_at : ℕ
  pub ended_at : ℕ

abbrev pub node_of_seen : {W : Wire} → Option (NodeInfo W) → W.Enode
node_of_seen {W} none = W.no_enode
node_of_seen (some info) = info.node

abbrev pub task_of : Direction → String → List Task
task_of outbound pid = handle_outbound_of pid ∷ []
task_of inbound pid = handle_inbound_of pid ∷ []
task_of unknown pid = []

module _ {W : Wire} where
  -- The rest of Connected, for a peer that it has found not connected: the goroutines that are
  -- started, and the node.
  abbrev pub insert_peer :
      String → W.Multiaddr → Direction → ℕ → ℕ → Node W → Outcome (List Task × Node W)
  insert_peer pid addr dir inserted_at set_at n = do
    let enode = node_of_seen (Dict.lookup pid n.seen_nodes)
    store ← set_state pid connecting set_at (insert pid addr enode inserted_at n.peerstore)
    returns (task_of dir pid, record n { peerstore = store })

  unfoldable pub connected :
      String → W.Multiaddr → Direction → ℕ → ℕ → Node W → Outcome (List Task × Node W)
  connected pid addr dir inserted_at set_at n =
      if is_not_connected (state_of n.peerstore pid)
      then insert_peer pid addr dir inserted_at set_at n
      else returns ([], n)

  -- `n.reqResp.status` is followed, so it must not be nil.
  unfoldable pub follow_head : Status → Node W → Outcome (Node W)
  follow_head st n =
      if bytes_equal st.fork_digest n.fork_digest
      then (elim n.req_resp.status [
        | none ↦ panics nil_deref
        | some own ↦ returns (
            if ltb own.head_slot st.head_slot
            then record n { req_resp = set_status st n.req_resp }
            else n)
      ])
      else returns n

  -- The handshake from the ping on.
  unfoldable pub ask_metadata : String → Handshake W → Node W → Outcome (Result (Unit {0}) × Node W)
  ask_metadata pid net n = elim (ping n.req_resp net.ping_stream).result [
    | err e ↦ returns (err (wrap "Failed to ping peer" e), n)
    | ok _ ↦ do
      n' ← interlude net.during_metadata n
      elim (request_meta_data net.metadata_stream).result [
        | err e ↦ returns (err (wrap "Failed to get metadata from peer" e), n')
        | ok md ↦ do
          store ← set_metadata pid md net.metadata_at n'.peerstore
          returns (ok tt, record n' { peerstore = store })
      ]
  ]

  unfoldable pub handshake : String → Handshake W → Node W → Outcome (Result (Unit {0}) × Node W)
  handshake pid net n = do
    n₁ ← interlude net.during_status n
    elim (request_status n.req_resp net.status_stream).result [
      | err e ↦ returns (err (wrap "Failed to get status from peer" e), n₁)
      | ok st ↦ do
        store ← Peerstore.set_status pid st net.status_at n₁.peerstore
        n₂ ← follow_head st (record n₁ { peerstore = store })
        n₃ ← interlude net.during_ping n₂
        ask_metadata pid net n₃
    ]

  -- `SetClientVersion(pid, v.(string))`; the outbound handler alone has an `else` branch.
  unfoldable pub save_client_version :
      String → Option String → Result (Option String) → Node W → Outcome (Node W)
  save_client_version pid fallback (ok none) n = panics "interface conversion"
  save_client_version pid fallback (ok (some v)) n = do
    store ← set_client_version pid v n.peerstore
    returns (record n { peerstore = store })
  save_client_version pid none (err e) n = returns n
  save_client_version pid (some v) (err e) n = do
    store ← set_client_version pid v n.peerstore
    returns (record n { peerstore = store })

  -- From the client version on, both handlers run the same statements. `info` is nil, and its method
  -- panics, if the peer has no record.
  unfoldable pub publish : String → Option String → Meeting W → Node W → Outcome (Node W)
  publish pid fallback m n = do
    n₁ ← save_client_version pid fallback m.agent_version n
    n₂ ← interlude m.during_sleep n₁
    elim (get n₂.peerstore pid) [
      | none ↦ panics nil_deref
      | some info ↦ do
        event ← into_metadata_event info
        returns (send_metadata_event m.in_time event n₂)
    ]

  -- The deferred function, up to the goodbye, which changes nothing of the node.
  unfoldable pub clean_up : String → Meeting W → Node W → Outcome (Node W)
  clean_up pid m n = do
    store ← reset pid m.ended_at n.peerstore
    returns (record n { peerstore = store })

  -- The body of the outbound handler once the handshake has returned.
  unfoldable pub after_handshake :
      String → Meeting W → Result (Unit {0}) × Node W → Outcome (Node W)
  after_handshake pid m (err e, n) = do
    r ← set_backoff pid e m.failed_at n.peerstore
    returns (record n { peerstore = r.1 })
  after_handshake pid m (ok _, n) = publish pid (some "unknown") m n

  unfoldable pub outbound_body : String → Meeting W → Node W → Outcome (Node W)
  outbound_body pid m n =
      if m.has_address then handshake pid m.handshake n >>= after_handshake pid m else returns n

  unfoldable pub handle_outbound : String → Meeting W → Node W → Outcome (Node W)
  unfolding outbound_body
  handle_outbound pid m n = outbound_body pid m n >>= clean_up pid m

  -- Whether a status came in, and the node then. The list has the sleeps before the context ends.
  unfoldable pub wait_for_status : String → List (Interlude W) → Node W → Outcome (Bool × Node W)
  wait_for_status pid [] n = returns (false, n)
  wait_for_status pid (m ∷ ms) n = elim (status_of n.peerstore pid) [
    | some st ↦ returns (true, n)
    | none ↦ interlude m n >>= wait_for_status pid ms
  ]

  -- The inbound handler after a status has come in.
  unfoldable pub ask_inbound : String → Meeting W → Node W → Outcome (Node W)
  ask_inbound pid m n =
      if m.still_connected
      then (do
        n₁ ← interlude m.handshake.during_metadata n
        elim (request_meta_data m.handshake.metadata_stream).result [
          | err e ↦ returns n₁
          | ok md ↦ do
            store ← set_metadata pid md m.handshake.metadata_at n₁.peerstore
            publish pid none m (record n₁ { peerstore = store })
        ])
      else returns n

  unfoldable pub inbound_body : String → Meeting W → Node W → Outcome (Node W)
  inbound_body pid m n = do
    (came, n') ← wait_for_status pid m.polls n
    if came then ask_inbound pid m n' else returns n'

  unfoldable pub handle_inbound : String → Meeting W → Node W → Outcome (Node W)
  unfolding inbound_body
  handle_inbound pid m n = inbound_body pid m n >>= clean_up pid m
