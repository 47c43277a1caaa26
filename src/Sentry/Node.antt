-- ===== src/Sentry/Node.antt =====
-- The node of pkg/ethereum/node.go, as far as its handlers read and write it, and sendMetadataEvent of
-- nats.go. A handler waits for the network and sleeps; what the other goroutines do to the shared
-- stores in a wait is an `Interlude`, an arbitrary list of their calls.
use valtrack.Base.{ℕ, String, List, [], ◌∷◌, ◌++◌, Bool, Outcome, returns, ◌>>=◌, if◌then◌else◌}
use valtrack.Types.{MetadataReceivedEvent}
use valtrack.Sentry.Wire.{Wire, Status}
use valtrack.Sentry.Peerstore.{Peerstore}
use valtrack.Sentry.Peerstore.Frame.{Op, run}
use valtrack.Sentry.ReqResp.{ReqResp}
use valtrack.Sentry.ReqResp.LocalStatus.{set_statuses}

-- discv5.go's `NodeInfo`.
pub record NodeInfo (W : Wire) : Type 0 where
  pub node : W.Enode
  pub flag : Bool

-- `metadata_events` is what was sent on the channel, `logged` what was printed to the log file, each
-- oldest first; `jetstream` tells whether `js` is non-nil. `crawler_id` and `crawler_loc` are what
-- getCrawlerMachineID and getCrawlerLocation read from the environment.
pub record Node (W : Wire) : Type 0 where
  pub peerstore : Peerstore W
  pub req_resp : ReqResp
  pub seen_nodes : List (String × NodeInfo W)
  pub fork_digest : List ℕ
  pub jetstream : Bool
  pub metadata_events : List MetadataReceivedEvent
  pub logged : List MetadataReceivedEvent
  pub crawler_id : String
  pub crawler_loc : String

pub record Interlude (W : Wire) : Type 0 where
  pub ops : List (Op W)
  pub statuses : List Status

module _ {W : Wire} where
  unfoldable pub interlude : Interlude W → Node W → Outcome (Node W)
  interlude m n = do
    store ← run m.ops n.peerstore
    returns (record n { peerstore = store; req_resp = set_statuses m.statuses n.req_resp })

  -- `in_time` tells which case of the `select` is taken: the send, or the end of the context.
  unfoldable pub send_metadata_event : Bool → MetadataReceivedEvent → Node W → Node W
  send_metadata_event in_time event n =
      let event' = record event { crawler_id = n.crawler_id; crawler_loc = n.crawler_loc } in
      if n.jetstream
      then (if in_time then record n { metadata_events = n.metadata_events ++ event' ∷ [] } else n)
      else record n { logged = n.logged ++ event' ∷ [] }
