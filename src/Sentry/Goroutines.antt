-- ===== src/Sentry/Goroutines.antt =====
-- The handlers of pkg/ethereum/node_notifiee.go as goroutines that take turns: a handler is at a
-- phase, and goes on by one read or write of what the goroutines share. A peerstore method holds the
-- lock, so it is one such step; so is Connected, as long as no second call of it for the same peer
-- overlaps it.
pub mod Resume
pub mod Rest
pub mod Leads
pub mod Turns
pub mod Orderly
pub mod Progress
pub mod Alone
pub mod Race
use valtrack.Base.{
  ℕ, String, List, [], ◌∷◌, ◌++◌, Bool, true, false, Option, none, some, Error, wrap, ok, err,
  Outcome, returns, panics, ◌>>=◌, ◌≡◌, ◌≢◌, if◌then◌else◌,
}
use valtrack.Text.{Bytes}
use valtrack.Sentry.Wire.{Wire, Status, AddrInfo}
use valtrack.Sentry.Peerstore.{
  Peerstore, get, nil_deref, set_backoff, set_metadata, status_of, into_metadata_event,
  new_peerstore, peers_to_reconnect,
}
use valtrack.Sentry.Peerstore
use valtrack.Sentry.Peerstore.Reconnect.{node_backoff}
use valtrack.Sentry.Stream.{Stream, Exchange}
use valtrack.Sentry.ReqResp.{ReqResp, request_status, ping, request_meta_data, status_handler}
use valtrack.Sentry.Node.{Node, send_metadata_event}
use valtrack.Sentry.Notifiee.{
  Direction, Task, handle_outbound_of, handle_inbound_of, Meeting, connected, follow_head,
  save_client_version, clean_up,
}
use valtrack.Sentry.Subscriptions.{filter_incoming_subscriptions}
use valtrack.Sentry.System.{peer_of, reconnect}

-- Where a handler is, and what it holds in its local variables. A request that was sent was made from
-- the node's own status and metadata at that time.
pub data Phase : Type 0 where
  -- The outbound handler has been started, waits for the status, follows its head slot, waits for the
  -- pong, for the metadata, or is about to back off.
  dials : Phase
  awaits_status : ReqResp → Phase
  follows : Status → Phase
  awaits_pong : ReqResp → Phase
  awaits_metadata : Phase
  fails : Error → Phase
  -- The inbound handler looks for a status, sleeps until it looks again, looks at the connection, or
  -- waits for the metadata.
  polls : Phase
  naps : Phase
  checks : Phase
  awaits_inbound_metadata : Phase
  -- Either handler is about to store the client version, with the version it takes if there is none,
  -- sleeps before it publishes, or runs its deferred function.
  versions : Option String → Phase
  sleeps : Phase
  ends : Phase

abbrev pub knows_status : Phase → Bool
knows_status (follows _) = true
knows_status (awaits_pong _) = true
knows_status awaits_metadata = true
knows_status checks = true
knows_status awaits_inbound_metadata = true
knows_status (versions _) = true
knows_status sleeps = true
knows_status _ = false

abbrev pub knows_metadata : Phase → Bool
knows_metadata (versions _) = true
knows_metadata sleeps = true
knows_metadata _ = false

-- A handler begins at its first phase.
abbrev pub first_phase : Task → Phase
first_phase (handle_outbound_of pid) = dials
first_phase (handle_inbound_of pid) = polls

-- The handlers that `Connected` starts.
abbrev pub starts : List Task → List (String × Phase)
starts [] = []
starts (t ∷ ts) = (peer_of t, first_phase t) ∷ starts ts

-- What is left of a handler after it went on.
abbrev pub left : String → Option Phase → List (String × Phase)
left pid none = []
left pid (some ph) = (pid, ph) ∷ []

-- The node, the handlers that have not ended, with their phases, and the channel of peers to reconnect to.
pub record Goroutines (W : Wire) : Type 0 where
  pub node : Node W
  pub running : List (String × Phase)
  pub reconnect_chan : List (AddrInfo W)

module _ {W : Wire} where
  -- The handler goes on from its phase: the next one, or none if it has ended, and the node. Of the
  -- meeting it takes the answer that the phase waits for. `timed_out` is what waitForStatus finds of its context.
  unfoldable pub resume :
      String → Meeting W → Bool → Phase → Node W → Outcome (Option Phase × Node W)
  resume pid m timed_out dials n =
      returns (some (if m.has_address then awaits_status n.req_resp else ends), n)
  resume pid m timed_out (awaits_status sent) n =
      elim (request_status sent m.handshake.status_stream).result [
        | err e ↦ returns (some (fails (wrap "Failed to get status from peer" e)), n)
        | ok st ↦ do
          store ← Peerstore.set_status pid st m.handshake.status_at n.peerstore
          returns (some (follows st), record n { peerstore = store })
      ]
  resume pid m timed_out (follows st) n = do
    n' ← follow_head st n
    returns (some (awaits_pong n'.req_resp), n')
  resume pid m timed_out (awaits_pong sent) n = elim (ping sent m.handshake.ping_stream).result [
    | err e ↦ returns (some (fails (wrap "Failed to ping peer" e)), n)
    | ok _ ↦ returns (some awaits_metadata, n)
  ]
  resume pid m timed_out awaits_metadata n =
      elim (request_meta_data m.handshake.metadata_stream).result [
        | err e ↦ returns (some (fails (wrap "Failed to get metadata from peer" e)), n)
        | ok md ↦ do
          store ← set_metadata pid md m.handshake.metadata_at n.peerstore
          returns (some (versions (some "unknown")), record n { peerstore = store })
      ]
  resume pid m timed_out (fails e) n = do
    r ← set_backoff pid e m.failed_at n.peerstore
    returns (some ends, record n { peerstore = r.1 })
  resume pid m timed_out polls n =
      if timed_out then returns (some ends, n) else (elim (status_of n.peerstore pid) [
        | some st ↦ returns (some checks, n)
        | none ↦ returns (some naps, n)
      ])
  resume pid m timed_out naps n = returns (some polls, n)
  resume pid m timed_out checks n =
      returns (some (if m.still_connected then awaits_inbound_metadata else ends), n)
  resume pid m timed_out awaits_inbound_metadata n =
      elim (request_meta_data m.handshake.metadata_stream).result [
        | err e ↦ returns (some ends, n)
        | ok md ↦ do
          store ← set_metadata pid md m.handshake.metadata_at n.peerstore
          returns (some (versions none), record n { peerstore = store })
      ]
  resume pid m timed_out (versions fallback) n = do
    n' ← save_client_version pid fallback m.agent_version n
    returns (some sleeps, n')
  resume pid m timed_out sleeps n = elim (get n.peerstore pid) [
    | none ↦ panics nil_deref
    | some info ↦ do
      event ← into_metadata_event info
      returns (some ends, send_metadata_event m.in_time event n)
  ]
  resume pid m timed_out ends n = do n' ← clean_up pid m n; returns (none, n')

  abbrev pub with_store : Node W → Peerstore W → Node W
  with_store n store = record n { peerstore = store }

  pub data Turn (s t : Goroutines W) : Type 0 where
    connects :
        (pid : String) (addr : W.Multiaddr) (dir : Direction) (t₁ t₂ : ℕ) (ts : List Task)
        (n' : Node W)
        → connected pid addr dir t₁ t₂ s.node ≡ returns (ts, n')
        → t ≡ record s { node = n'; running = s.running ++ starts ts }
        → Turn s t
    resumes :
        (pid : String) (ph : Phase) (before after : List (String × Phase)) (m : Meeting W)
        (timed_out : Bool) (next : Option Phase) (n' : Node W)
        → s.running ≡ before ++ ((pid, ph) ∷ after)
        → m.agent_version ≢ ok none
        → resume pid m timed_out ph s.node ≡ returns (next, n')
        → t ≡ record s { node = n'; running = before ++ (left pid next ++ after) }
        → Turn s t
    subscribes :
        (pid : String) (topics : List Bytes) (now : ℕ) (store : Peerstore W)
        → filter_incoming_subscriptions pid topics now s.node.peerstore ≡ returns store
        → t ≡ record s { node = with_store s.node store }
        → Turn s t
    answers :
        (pid : String) (now : ℕ) (stream : Stream Status) (x : Exchange (Unit {0}))
        (store : Peerstore W)
        → status_handler s.node.req_resp pid now stream s.node.peerstore ≡ returns (x, store)
        → t ≡ record s { node = with_store s.node store }
        → Turn s t
    ticks :
        (now : ℕ)
        → t ≡ record s {
          reconnect_chan = s.reconnect_chan ++ peers_to_reconnect now s.node.peerstore;
        }
        → Turn s t
    retries :
        (info : AddrInfo W) (rest : List (AddrInfo W)) (failed : Option Error) (now : ℕ)
        (n' : Node W)
        → s.reconnect_chan ≡ info ∷ rest
        → reconnect info failed now s.node ≡ returns n'
        → t ≡ record s { node = n'; reconnect_chan = rest }
        → Turn s t

  pub data Reaches (s : Goroutines W) : Goroutines W → Type 0 where
    stay : Reaches s s
    turn : {t u : Goroutines W} → Reaches s t → Turn t u → Reaches s u

  -- What NewNode and Start leave.
  pub record IsFresh (s : Goroutines W) : Type 0 where
    pub store : s.node.peerstore ≡ new_peerstore node_backoff
    pub own : s.node.req_resp.status ≢ none
    pub unsent : s.node.metadata_events ≡ []
    pub idle : s.running ≡ []
    pub drained : s.reconnect_chan ≡ []
