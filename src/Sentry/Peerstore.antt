-- ===== src/Sentry/Peerstore.antt =====
-- pkg/ethereum/peerstore.go. A method that takes the write lock returns the new store, or panics as
-- the source does for a peer that is not there. `time.Now()` is the argument `now`, in nanoseconds.
-- A peer's record is reached through the map only, so a write through the pointer is a write of the
-- map's entry.
pub mod Calm
pub mod Frame
pub mod Reconnect
pub mod Validity
use valtrack.Base.{
  ℕ, ◌+◌, ◌*◌, ◌/◌, ◌%◌, ℤ, pos, negsuc, sub_ℕ, ltb_ℤ, to_int64, quot_ℤ, i64_max, ltb,
  if◌then◌else◌, is_none, String, List, [], ◌∷◌, ◌++◌, length, Bool, true, false, ◌&&◌, Option,
  none, some, Error, Outcome, returns, panics,
}
use Prim.Native.Nat.{min}
use valtrack.Base.Dict
use valtrack.Types.{MetadataReceivedEvent}
use valtrack.Sentry.Wire.{Wire, Status, MetaDataV1, AddrInfo}

pub data ConnectionState : Type 0 where
  not_connected connecting : ConnectionState

pub record PeerInfo (W : Wire) : Type 0 where
  pub id : String
  pub enode : W.Enode
  pub last_seen : ℕ
  pub remote_addr : W.Multiaddr
  pub status : Option Status
  pub metadata : Option MetaDataV1
  pub subscribed_subnets : List ℤ
  pub client_version : String
  pub state : ConnectionState
  pub last_err : Option Error
  pub backoff_counter : ℕ

pub record Peerstore (W : Wire) : Type 0 where
  pub peers : List (String × PeerInfo W)
  pub default_backoff : ℕ

-- Durations, in nanoseconds.
abbrev pub second : ℕ
second = 1000000000

abbrev pub epoch_duration : ℕ
epoch_duration = 12 * 32 * second

-- `time.Since(t)`, which saturates at the ends of `int64`.
unfoldable pub time_since : ℕ → ℕ → ℤ
time_since now t = elim (sub_ℕ now t) [
  | pos n ↦ pos (min n i64_max)
  | negsuc n ↦ negsuc (min n i64_max)
]

abbrev pub nil_deref : String
nil_deref = "invalid memory address or nil pointer dereference"

abbrev pub is_not_connected : ConnectionState → Bool
is_not_connected not_connected = true
is_not_connected connecting = false

unfoldable pub new_peerstore : {W : Wire} → ℕ → Peerstore W
new_peerstore backoff = record { peers = []; default_backoff = backoff }

-- `p.defaultBackoff*(time.Second*time.Duration(info.backoffCounter))`: the product of two `int64`
-- numbers of nanoseconds, which wraps.
unfoldable pub reconnect_after : ℕ → ℕ → ℤ
reconnect_after backoff counter = to_int64 (backoff * (second * counter))

module _ {W : Wire} where
  -- The pointers `metadata` and `status` are followed, so either panics if it is nil.
  unfoldable pub into_metadata_event : PeerInfo W → Outcome MetadataReceivedEvent
  into_metadata_event p = elim p.metadata [
    | none ↦ panics nil_deref
    | some md ↦ elim p.status [
      | none ↦ panics nil_deref
      | some st ↦ returns (record {
        enr = W.enode_string p.enode;
        id = W.id_string p.id;
        multiaddr = W.maddr_string p.remote_addr;
        epoch = quot_ℤ (to_int64 st.head_slot) 32;
        meta_data = some (record {
          seq_number = to_int64 md.seq_number;
          attnets = md.attnets;
          syncnets = md.syncnets;
        });
        subscribed_subnets = p.subscribed_subnets;
        client_version = p.client_version;
        crawler_id = "";
        crawler_loc = "";
        timestamp = pos (p.last_seen / 1000000);
      })
    ]
  ]

  unfoldable pub get : Peerstore W → String → Option (PeerInfo W)
  get s id = Dict.lookup id s.peers

  -- `p.peers[id] = info`, and so also a write of fields of the entry's record.
  unfoldable pub put : String → PeerInfo W → Peerstore W → Peerstore W
  put id info s = record s { peers = Dict.insert id info s.peers }

  -- `if info, ok := p.peers[id]; ok { … } else { panic(…) }`
  unfoldable pub modify :
      String → String → (PeerInfo W → PeerInfo W) → Peerstore W → Outcome (Peerstore W)
  modify message id f s = elim (get s id) [
    | none ↦ panics message
    | some info ↦ returns (put id (f info) s)
  ]

  unfoldable pub insert : String → W.Multiaddr → W.Enode → ℕ → Peerstore W → Peerstore W
  insert id addr enode now s =
      put id
        (record {
          id = id;
          enode = enode;
          last_seen = now;
          remote_addr = addr;
          status = none;
          metadata = none;
          subscribed_subnets = [];
          client_version = "";
          state = not_connected;
          last_err = none;
          backoff_counter = 0;
        })
        s

  unfoldable pub set_state : String → ConnectionState → ℕ → Peerstore W → Outcome (Peerstore W)
  unfolding modify
  set_state id state now =
      modify "peerstore: SetState: peer not found" id
        λ info. record info { state = state; last_seen = now }

  unfoldable pub state_of : Peerstore W → String → ConnectionState
  state_of s id = elim (get s id) [ none ↦ not_connected | some info ↦ info.state ]

  -- The `uint32` counter wraps.
  unfoldable pub backed_off : Error → ℕ → PeerInfo W → PeerInfo W
  backed_off e now info = record info {
    last_err = some e;
    backoff_counter = (info.backoff_counter + 1) % 4294967296;
    last_seen = now;
  }

  -- The counter that the method returns, and the store.
  unfoldable pub set_backoff : String → Error → ℕ → Peerstore W → Outcome (ℕ × Peerstore W)
  set_backoff id e now s = elim (get s id) [
    | none ↦ panics "peerstore: SetErr: peer not found"
    | some info ↦
        returns ((backed_off e now info).backoff_counter, put id (backed_off e now info) s)
  ]

  unfoldable pub is_backed_off : Peerstore W → String → ℕ → Bool
  is_backed_off s id now = elim (get s id) [
    | none ↦ false
    | some info ↦
        ltb 0 info.backoff_counter
        && ltb_ℤ (time_since now info.last_seen) (to_int64 s.default_backoff)
  ]

  unfoldable pub cleared : ℕ → PeerInfo W → PeerInfo W
  cleared now info = record info {
    backoff_counter = 0;
    last_seen = now;
    last_err = none;
    state = not_connected;
    status = none;
    metadata = none;
    subscribed_subnets = [];
  }

  unfoldable pub reset : String → ℕ → Peerstore W → Outcome (Peerstore W)
  unfolding modify
  reset id now = modify "peerstore: ResetBackoff: peer not found" id (cleared now)

  unfoldable pub add_subscribed_subnets : String → List ℤ → ℕ → Peerstore W → Outcome (Peerstore W)
  unfolding modify
  add_subscribed_subnets id subnets now =
      modify "peerstore: AddSubscribedSubnet: peer not found" id λ info. record info {
        subscribed_subnets = info.subscribed_subnets ++ subnets;
        last_seen = now;
      }

  unfoldable pub set_status : String → Status → ℕ → Peerstore W → Outcome (Peerstore W)
  unfolding modify
  set_status id status now =
      modify "peerstore: SetStatus: peer not found" id
        λ info. record info { status = some status; last_seen = now }

  unfoldable pub status_of : Peerstore W → String → Option Status
  status_of s id = elim (get s id) [ none ↦ none | some info ↦ info.status ]

  unfoldable pub set_metadata : String → MetaDataV1 → ℕ → Peerstore W → Outcome (Peerstore W)
  unfolding modify
  set_metadata id md now =
      modify "peerstore: SetMetadata: peer not found" id
        λ info. record info { metadata = some md; last_seen = now }

  unfoldable pub set_client_version : String → String → Peerstore W → Outcome (Peerstore W)
  unfolding modify
  set_client_version id version =
      modify "peerstore: SetClientVersion: peer not found" id
        λ info. record info { client_version = version }

  unfoldable pub last_err_of : Peerstore W → String → Option Error
  last_err_of s id = elim (get s id) [ none ↦ none | some info ↦ info.last_err ]

  unfoldable pub size : Peerstore W → ℕ
  size s = length s.peers

  abbrev addr_info_of : String → PeerInfo W → AddrInfo W
  addr_info_of id info = record { id = id; addrs = info.remote_addr ∷ [] }

  -- The first `if` of the loop's body.
  unfoldable pub backoff_expired : ℕ → ℕ → PeerInfo W → Bool
  backoff_expired backoff now info =
      ltb 0 info.backoff_counter
      && ltb_ℤ (reconnect_after backoff info.backoff_counter) (time_since now info.last_seen)

  -- The second `if` of the loop's body.
  unfoldable pub epoch_expired : ℕ → PeerInfo W → Bool
  epoch_expired now info =
      is_none info.last_err && ltb_ℤ (pos epoch_duration) (time_since now info.last_seen)

  -- What the loop's body appends for one peer.
  unfoldable pub reconnects : ℕ → ℕ → String → PeerInfo W → List (AddrInfo W)
  unfolding backoff_expired epoch_expired
  reconnects backoff now id info =
      if is_not_connected info.state
      then (if backoff_expired backoff now info then addr_info_of id info ∷ [] else [])
        ++ (if epoch_expired now info then addr_info_of id info ∷ [] else [])
      else []

  unfoldable pub peers_to_reconnect_from : ℕ → ℕ → List (String × PeerInfo W) → List (AddrInfo W)
  unfolding reconnects
  peers_to_reconnect_from backoff now [] = []
  peers_to_reconnect_from backoff now ((id, info) ∷ m) =
      reconnects backoff now id info ++ peers_to_reconnect_from backoff now m

  unfoldable pub peers_to_reconnect : ℕ → Peerstore W → List (AddrInfo W)
  unfolding peers_to_reconnect_from
  peers_to_reconnect now s = peers_to_reconnect_from s.default_backoff now s.peers
