-- ===== src/Sentry/Discovery.antt =====
-- The discovery of nodes: pkg/ethereum/discv5.go from `Serve` on, pkg/ethereum/enr.go, MaddrFrom of
-- utils.go and sendPeerEvent of nats.go. The nodes that the iterator finds are given, with what the
-- libraries read from the record of each.
pub mod Announced
pub mod Dialed
use Prim.Native.String.{◌++◌ as ◌^^◌}
use valtrack.Base.{
  ℕ, zero, suc, ◌+◌, ◌*◌, ◌/◌, ◌%◌, ℤ, pos, negsuc, String, str_eq, List, [], ◌∷◌, ◌++◌, Bool, true,
  false, not, Option, none, some, Error, new, wrap, Result, ok, err, if◌then◌else◌,
}
use valtrack.Base.Dict
use valtrack.Types.{PeerDiscoveredEvent}
use valtrack.Sentry.Wire.{Wire, AddrInfo}
use valtrack.Sentry.Node.{NodeInfo}
use valtrack.Hex.{encode_to_string}

-- What `net.ParseIP` finds: an address that has a four-byte form, or one of sixteen bytes.
pub data IpForm : Type 0 where
  ip4 ip6 : IpForm

-- The libraries: `net.ParseIP`, `%d`, `ma.NewMultiaddr`, and the text of the zero fork digest.
pub record Network (W : Wire) : Type 0 where
  pub parse_ip : String → Option IpForm
  pub show : ℕ → String
  pub new_multiaddr : String → Result W.Multiaddr
  pub zero_digest : String

-- A node that the iterator yields. `eth2` is the text of the fork digest in the record's eth2 entry,
-- which may be missing or malformed; `attnets` has the eight bytes of the attnets entry, if it loads;
-- `peer_id` is what the public key is converted to. The last four are the clock, whether the context
-- is done when the loop looks at it in the node's round, whether the channel of peers to dial is full,
-- and whether the event is sent before the context ends.
pub record Found (W : Wire) : Type 0 where
  pub enode : W.Enode
  pub complete : Bool
  pub seq : ℕ
  pub ip : String
  pub udp : ℕ
  pub tcp : ℕ
  pub eth2 : Option (Result String)
  pub attnets : Option (List ℕ)
  pub peer_id : Result String
  pub found_at : ℤ
  pub ctx_done : Bool
  pub out_full : Bool
  pub in_time : Bool

pub record Attnets : Type 0 where
  pub raw : List ℕ
  pub net_number : ℤ

pub record EnrNode : Type 0 where
  pub ip : String
  pub seq : ℕ
  pub udp : ℕ
  pub tcp : ℕ
  pub fork_digest : String
  pub attnets : Attnets

-- The attributes of the map `Attr` are the last three fields.
pub record HostInfo (W : Wire) : Type 0 where
  pub id : String
  pub ip : String
  pub port : ℕ
  pub maddrs : List W.Multiaddr
  pub enr : EnrNode
  pub attnets : String
  pub attnets_num : ℤ

-- `out` and `disc_events` are what was sent on the channels and `logged` what was printed to the log
-- file, each oldest first.
pub record Discovery (W : Wire) : Type 0 where
  pub filter_digest : String
  pub seen_nodes : List (String × NodeInfo W)
  pub out : List (AddrInfo W)
  pub jetstream : Bool
  pub disc_events : List PeerDiscoveredEvent
  pub logged : List PeerDiscoveredEvent
  pub crawler_id : String
  pub crawler_loc : String

-- `binary.BigEndian.Uint64`, on the bytes after those that made `n`.
unfoldable pub big_endian : ℕ → List ℕ → ℕ
big_endian n [] = n
big_endian n (b ∷ bytes) = big_endian (n * 256 + b) bytes

-- `bits.OnesCount64`, on the bits that are left.
unfoldable pub ones_count : ℕ → ℕ → ℕ
ones_count zero n = 0
ones_count (suc bits) n = n % 2 + ones_count bits (n / 2)

unfoldable pub count_bits : List ℕ → ℕ
unfolding big_endian ones_count
count_bits bytes = ones_count 64 (big_endian 0 bytes)

unfoldable pub parse_attnets : Option (List ℕ) → Attnets
unfolding count_bits
parse_attnets none = record { raw = 0 ∷ 0 ∷ 0 ∷ 0 ∷ 0 ∷ 0 ∷ 0 ∷ 0 ∷ []; net_number = negsuc 0 }
parse_attnets (some bytes) = record { raw = bytes; net_number = pos (count_bits bytes) }

abbrev pub has_flag : {W : Wire} → Option (NodeInfo W) → Bool
has_flag none = false
has_flag (some info) = info.flag

module _ {W : Wire} (N : Network W) where
  unfoldable pub maddr_from : String → ℕ → Result W.Multiaddr
  maddr_from ip port = elim (N.parse_ip ip) [
    | none ↦ err (new ("invalid IP address: " ^^ ip))
    | some ip4 ↦ N.new_multiaddr ("/ip4/" ^^ (ip ^^ ("/tcp/" ^^ N.show port)))
    | some ip6 ↦ N.new_multiaddr ("/ip6/" ^^ (ip ^^ ("/tcp/" ^^ N.show port)))
  ]

  -- `eth2Data` and its error; without an entry it is a new value, whose digest is zero.
  abbrev eth2_digest : Option (Result String) → Result String
  eth2_digest none = ok N.zero_digest
  eth2_digest (some (ok digest)) = ok digest
  eth2_digest (some (err e)) = err (new "error parsing eth2 data")

  unfoldable pub parse_enr : Found W → Result EnrNode
  unfolding parse_attnets
  parse_enr f =
      if f.complete
      then (elim (eth2_digest f.eth2) [
        | err e ↦ err e
        | ok digest ↦ ok (record {
          ip = f.ip;
          seq = f.seq;
          udp = f.udp;
          tcp = f.tcp;
          fork_digest = digest;
          attnets = parse_attnets f.attnets;
        })
      ])
      else err (new "error validating ENR")

  -- NewHostInfo with WithIPAndPorts, and the three attributes. An address that cannot be made is left
  -- out.
  unfoldable pub host_info : String → EnrNode → HostInfo W
  unfolding maddr_from
  host_info id enr = record {
    id = id;
    ip = enr.ip;
    port = enr.tcp;
    maddrs = elim (maddr_from enr.ip enr.tcp) [ err e ↦ [] | ok maddr ↦ maddr ∷ [] ];
    enr = enr;
    attnets = encode_to_string enr.attnets.raw;
    attnets_num = enr.attnets.net_number;
  }

  -- `ok none` is a node of another fork.
  unfoldable pub handle_enr : String → Found W → Result (Option (HostInfo W))
  unfolding parse_enr host_info
  handle_enr filter_digest f = elim (parse_enr f) [
    | err e ↦ err (wrap "unable to parse new discovered ENR" e)
    | ok enr ↦
        if str_eq enr.fork_digest filter_digest
        then (elim f.peer_id [
          | err e ↦ err (wrap "unable to convert Geth pubkey to Libp2p" e)
          | ok id ↦ ok (some (host_info id enr))
        ])
        else ok none
  ]

  unfoldable pub send_peer_event : Found W → HostInfo W → Discovery W → Discovery W
  send_peer_event f info d =
      let event : PeerDiscoveredEvent = record {
        enr = W.enode_string f.enode;
        id = W.id_string info.id;
        ip = info.ip;
        port = pos info.port;
        crawler_id = d.crawler_id;
        crawler_loc = d.crawler_loc;
        timestamp = f.found_at;
      } in
      if d.jetstream
      then (if f.in_time then record d { disc_events = d.disc_events ++ event ∷ [] } else d)
      else record d { logged = d.logged ++ event ∷ [] }

  -- The body of the `if`: the send on `out`, which is skipped if the channel is full, the flag and the
  -- event.
  unfoldable pub announce : Found W → HostInfo W → Discovery W → Discovery W
  unfolding send_peer_event
  announce f info d = send_peer_event f info (record d {
    out = if f.out_full then d.out else d.out ++ record { id = info.id; addrs = info.maddrs } ∷ [];
    seen_nodes = Dict.insert info.id (record { node = f.enode; flag = true }) d.seen_nodes;
  })

  unfoldable pub visit : Found W → Discovery W → Discovery W
  unfolding handle_enr
  visit f d = elim (handle_enr d.filter_digest f) [
    | err e ↦ d
    | ok none ↦ d
    | ok (some info) ↦ if has_flag (Dict.lookup info.id d.seen_nodes) then d else announce f info d
  ]

  -- The loop, over the nodes that the iterator has. Each round moves the iterator twice.
  unfoldable pub serve : List (Found W) → Discovery W → Discovery W
  unfolding visit
  serve [] d = d
  serve (f ∷ []) d = d
  serve (f ∷ g ∷ rest) d = elim g.ctx_done [ true ↦ d | false ↦ serve rest (visit g d) ]
