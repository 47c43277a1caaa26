-- ===== src/Sentry/Subscriptions.antt =====
-- FilterIncomingSubscriptions of pkg/ethereum/node.go: the subnets that a peer subscribes to, read from
-- the topics of its gossip messages.
pub mod Topics
use valtrack.Base.{
  ℕ, ℤ, String, List, [], ◌∷◌, get_elem?, Bool, true, false, Option, none, some, Outcome, returns,
  panics, ◌>>=◌, if◌then◌else◌,
}
use valtrack.Text.{Bytes, codes, split, contains, atoi}
use valtrack.Sentry.Wire.{Wire}
use valtrack.Sentry.Peerstore.{Peerstore, add_subscribed_subnets}

abbrev pub out_of_range : String
out_of_range = "index out of range"

-- An index into a slice.
abbrev pub nth : {A : Type 0} → List A → ℕ → Outcome A
nth l i = elim (get_elem? l i) [ none ↦ panics out_of_range | some a ↦ returns a ]

abbrev pub beacon_attestation : Bytes
beacon_attestation = codes "beacon_attestation"

-- `strings.Split(strings.Split(topic, "/")[3], "_")[2]`
unfoldable pub subnet_index : Bytes → Outcome Bytes
subnet_index topic = do part ← nth (split topic b'/') 3; nth (split part b'_') 2

abbrev pub with_subnet : Option ℤ → List ℤ → List ℤ
with_subnet none attnets = attnets
with_subnet (some idx) attnets = idx ∷ attnets

-- The subnets of the topics, in their order.
unfoldable pub attnets_of : List Bytes → Outcome (List ℤ)
unfolding subnet_index
attnets_of [] = returns []
attnets_of (topic ∷ topics) = elim (contains topic beacon_attestation) [
  | false ↦ attnets_of topics
  | true ↦ do
    index ← subnet_index topic
    attnets ← attnets_of topics
    returns (with_subnet (atoi index) attnets)
]

abbrev pub add_all : {W : Wire} → String → List ℤ → ℕ → Peerstore W → Outcome (Peerstore W)
add_all pid [] now store = returns store
add_all pid (i ∷ attnets) now store = add_subscribed_subnets pid (i ∷ attnets) now store

-- The method always returns no subscriptions and no error; here is what becomes of the store.
unfoldable pub filter_incoming_subscriptions :
    {W : Wire} → String → List Bytes → ℕ → Peerstore W → Outcome (Peerstore W)
unfolding attnets_of
filter_incoming_subscriptions pid topics now store = do
  attnets ← attnets_of topics
  add_all pid attnets now store
