-- ===== src/Sentry/System.antt =====
-- The node at work: the handlers that connections start, the subscriptions and status requests of
-- peers, and the reconnection timer and listener of pkg/ethereum/node.go, as steps in any order. A
-- handler is one step, in which the other goroutines' calls are its interludes.
pub mod Moves
pub mod Sound
pub mod Live
use valtrack.Base.{
  ℕ, String, List, [], ◌∷◌, ◌++◌, Bool, Option, none, some, Error, Outcome, returns, ◌>>=◌, ◌≡◌,
  ◌≢◌,
}
use valtrack.Text.{Bytes}
use valtrack.Sentry.Wire.{Wire, Status, AddrInfo}
use valtrack.Sentry.Peerstore.{Peerstore, get, new_peerstore, set_backoff, peers_to_reconnect}
use valtrack.Sentry.Peerstore.Reconnect.{node_backoff}
use valtrack.Sentry.Stream.{Stream, Exchange}
use valtrack.Sentry.ReqResp.{Bitvector64, status_handler}
use valtrack.Sentry.Node.{Node}
use valtrack.Sentry.Notifiee.{
  Direction, Task, handle_outbound_of, handle_inbound_of, Meeting, connected, handle_outbound,
  handle_inbound,
}
use valtrack.Sentry.Notifiee.Safety.{CalmMeeting}
use valtrack.Sentry.Subscriptions.{filter_incoming_subscriptions}

-- The node, the handlers that were started and have not ended, and what is in the channel of peers to
-- reconnect to.
pub record System (W : Wire) : Type 0 where
  pub node : Node W
  pub tasks : List Task
  pub reconnect_chan : List (AddrInfo W)

abbrev pub peer_of : Task → String
peer_of (handle_outbound_of pid) = pid
peer_of (handle_inbound_of pid) = pid

module _ {W : Wire} where
  abbrev pub handle : Task → Meeting W → Node W → Outcome (Node W)
  handle (handle_outbound_of pid) = handle_outbound pid
  handle (handle_inbound_of pid) = handle_inbound pid

  -- One tick of startReconnectionTimer.
  unfoldable pub reconnection_tick : ℕ → System W → System W
  reconnection_tick now s = record s {
    reconnect_chan = s.reconnect_chan ++ peers_to_reconnect now s.node.peerstore;
  }

  -- What startReconnectListener does with a peer, given the error of `host.Connect`.
  unfoldable pub reconnect : AddrInfo W → Option Error → ℕ → Node W → Outcome (Node W)
  reconnect info none now n = returns n
  reconnect info (some e) now n = do
    r ← set_backoff info.id e now n.peerstore
    returns (record n { peerstore = r.1 })

  pub data Step (s t : System W) : Type 0 where
    connects :
        (pid : String) (addr : W.Multiaddr) (dir : Direction) (t₁ t₂ : ℕ) (ts : List Task)
        (n' : Node W)
        → connected pid addr dir t₁ t₂ s.node ≡ returns (ts, n')
        → t ≡ record s { node = n'; tasks = s.tasks ++ ts }
        → Step s t
    handles :
        (task : Task) (before after : List Task) (m : Meeting W) (n' : Node W)
        → s.tasks ≡ before ++ (task ∷ after)
        → CalmMeeting s.node.peerstore (peer_of task) m
        → handle task m s.node ≡ returns n'
        → t ≡ record s { node = n'; tasks = before ++ after }
        → Step s t
    subscribes :
        (pid : String) (topics : List Bytes) (now : ℕ) (store : Peerstore W)
        → filter_incoming_subscriptions pid topics now s.node.peerstore ≡ returns store
        → t ≡ record s { node = record (s.node) { peerstore = store } }
        → Step s t
    answers :
        (pid : String) (now : ℕ) (stream : Stream Status) (x : Exchange (Unit {0}))
        (store : Peerstore W)
        → status_handler s.node.req_resp pid now stream s.node.peerstore ≡ returns (x, store)
        → t ≡ record s { node = record (s.node) { peerstore = store } }
        → Step s t
    ticks : (now : ℕ) → t ≡ reconnection_tick now s → Step s t
    retries :
        (info : AddrInfo W) (rest : List (AddrInfo W)) (failed : Option Error) (now : ℕ)
        (n' : Node W)
        → s.reconnect_chan ≡ info ∷ rest
        → reconnect info failed now s.node ≡ returns n'
        → t ≡ record s { node = n'; reconnect_chan = rest }
        → Step s t

  -- What NewNode and Start leave: an empty store, a status of the node's own and nothing on the channel
  -- of events.
  pub record IsStarted (s : System W) : Type 0 where
    pub store : s.node.peerstore ≡ new_peerstore node_backoff
    pub own : s.node.req_resp.status ≢ none
    pub unsent : s.node.metadata_events ≡ []
    pub idle : s.tasks ≡ []
    pub drained : s.reconnect_chan ≡ []

  pub data Reachable (s : System W) : System W → Type 0 where
    stay : Reachable s s
    step : {t u : System W} → Reachable s t → Step t u → Reachable s u
