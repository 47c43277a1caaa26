-- ===== src/Sentry/Wire.antt =====
-- The types that the sentry takes from libp2p, go-ethereum and prysm.
use valtrack.Base.{ℕ, String, List}

-- Opaque values of third-party libraries, with the text that their `String` methods give.
-- A `peer.ID` is a Go string of raw bytes; `id_string` is its printed form.
-- `no_enode` is the zero value of `enode.Node`.
pub record Wire : Type 1 where
  pub Multiaddr : Type 0
  pub Enode : Type 0
  pub maddr_string : Multiaddr → String
  pub enode_string : Enode → String
  pub id_string : String → String
  pub no_enode : Enode

-- prysm's `eth.Status`: byte strings, and `uint64` numbers.
pub record Status : Type 0 where
  pub fork_digest : List ℕ
  pub finalized_root : List ℕ
  pub finalized_epoch : ℕ
  pub head_root : List ℕ
  pub head_slot : ℕ

-- prysm's `eth.MetaDataV1`.
pub record MetaDataV1 : Type 0 where
  pub seq_number : ℕ
  pub attnets : List ℕ
  pub syncnets : List ℕ

-- libp2p's `peer.AddrInfo`.
pub record AddrInfo (W : Wire) : Type 0 where
  pub id : String
  pub addrs : List W.Multiaddr
