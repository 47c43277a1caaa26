-- ===== src/Sentry/Publisher.antt =====
-- The goroutines of pkg/ethereum/nats.go that publish the events to NATS, and the peer dialer of
-- pkg/ethereum/peer_dialer.go. `json.Marshal` is an argument; the error that the server or the host
-- answers, or nil, is given with each event or peer.
pub mod Connects
use valtrack.Base.{
  String, str_eq, List, [], ◌∷◌, Option, none, some, Error, Result, ok, err, if◌then◌else◌,
}
use valtrack.Text.{Bytes}
use valtrack.Types.{MetadataReceivedEvent, PeerDiscoveredEvent}
use valtrack.Sentry.Wire.{Wire, AddrInfo}

-- A message that the server has taken.
pub record Published : Type 0 where
  pub subject : String
  pub payload : Bytes

abbrev pub taken : Option Error → Published → List Published → List Published
taken none p rest = p ∷ rest
taken (some e) p rest = rest

-- An event that cannot be encoded, or that is refused, is passed over.
unfoldable pub publish_events :
    {E : Type 0} → (E → Result Bytes) → String → List (E × Option Error) → List Published
publish_events marshal subject [] = []
publish_events marshal subject ((event, refused) ∷ events) =
    let rest = publish_events marshal subject events in
    elim (marshal event) [
      | err e ↦ rest
      | ok payload ↦ taken refused (record { subject = subject; payload = payload }) rest
    ]

unfoldable pub start_metadata_publisher :
    (MetadataReceivedEvent → Result Bytes)
    → List (MetadataReceivedEvent × Option Error)
    → List Published
unfolding publish_events
start_metadata_publisher marshal events = publish_events marshal "events.metadata_received" events

unfoldable pub start_discovery_publisher :
    (PeerDiscoveredEvent → Result Bytes)
    → List (PeerDiscoveredEvent × Option Error)
    → List Published
unfolding publish_events
start_discovery_publisher marshal events = publish_events marshal "events.peer_discovered" events

-- What the `select` of the peer dialer finds. The error of `Connect` is only logged.
pub data Selected (W : Wire) : Type 0 where
  ctx_done closed : Selected W
  received : AddrInfo W → Selected W

-- PeerDialer.Serve: the peers that it connects to, in order.
unfoldable pub peer_dialer_serve : {W : Wire} → String → List (Selected W) → List (AddrInfo W)
peer_dialer_serve own [] = []
peer_dialer_serve own (ctx_done ∷ found) = []
peer_dialer_serve own (closed ∷ found) = []
peer_dialer_serve own (received a ∷ found) =
    let rest = peer_dialer_serve own found in if str_eq a.id own then rest else a ∷ rest
