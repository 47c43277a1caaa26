-- ===== src/Sentry/Tests.antt =====
-- The theorems on the sentry at concrete inputs.
mod Connections
pub mod Requests
pub mod Discoveries
pub mod Systems
pub mod Turns
pub mod Startups
mod Topics
use valtrack.Base.{
  ℕ, suc, ◌+◌, ◌-◌, ◌≤◌, ◌==◌, ℤ, pos, negsuc, String, List, [], ◌∷◌, In, NoRepeat, map, Bool, true,
  false, ◌||◌, Option, none, some, Error, new, Result, ok, err, returns, ◌≡◌, ◌≢◌, ◌↔◌, refl, arith,
  if◌then◌else◌, Bool-cases, inl, inr,
}
use valtrack.Base.Dict.{lookup, insert as dict_insert}
use text.Mathlib.Text.{◌==◌ as str_eq}
use valtrack.Sentry.Wire.{Wire, Status, MetaDataV1, AddrInfo}
use valtrack.Sentry.Peerstore.{
  not_connected, connecting, PeerInfo, Peerstore, new_peerstore, get, put, modify, insert,
  set_backoff, backed_off, set_state, peers_to_reconnect, state_of, last_err_of, is_backed_off,
  cleared,
}
use valtrack.Sentry.Peerstore.Frame.{
  Op, inserts, sets_backoff, sets_state, adds_subnets, apply, run, replay, Refines, apply-Refines,
  get-run,
}
use valtrack.Sentry.Peerstore.Validity.{IsValid, run-new_peerstore-IsValid}
use valtrack.Sentry.Peerstore.Reconnect.{
  IsDue, node_backoff, In-peers_to_reconnect, peers_to_reconnect-NoRepeat,
  backoff_of_one_expires_at_once, backoff_of_two_does_not_expire,
}

abbrev pub text_wire : Wire
text_wire = record {
  Multiaddr = String;
  Enode = String;
  maddr_string = λ a. a;
  enode_string = λ e. e;
  id_string = λ i. i;
  no_enode = "";
}

abbrev refused : Error
refused = new "connection refused"

-- A peer that was met at 10 ns and could not be reached again at 20 ns.
abbrev failed_once : PeerInfo text_wire
failed_once = record {
  id = "peer";
  enode = "enr:a";
  last_seen = 20;
  remote_addr = "/ip4/1.2.3.4/tcp/9000";
  status = none;
  metadata = none;
  subscribed_subnets = [];
  client_version = "";
  state = not_connected;
  last_err = some refused;
  backoff_counter = 1;
}

abbrev store_one : Peerstore text_wire
store_one = record { peers = ("peer", failed_once) ∷ []; default_backoff = node_backoff }

abbrev ops_one : List (Op text_wire)
ops_one = inserts "peer" "/ip4/1.2.3.4/tcp/9000" "enr:a" 10 ∷ sets_backoff "peer" refused 20 ∷ []

ops_one-run : run ops_one (new_peerstore node_backoff) ≡ returns store_one
unfolding run apply insert put dict_insert new_peerstore set_backoff backed_off get lookup
ops_one-run = refl

store_one-IsValid : IsValid store_one
store_one-IsValid = run-new_peerstore-IsValid node_backoff ops_one store_one ops_one-run

get_one : get store_one "peer" ≡ some failed_once
unfolding get lookup
get_one = refl

apply-Refines_example :
    Refines
      (sets_backoff "peer" refused 30)
      store_one
      (apply (sets_backoff "peer" refused 30) store_one)
apply-Refines_example = apply-Refines (sets_backoff "peer" refused 30) store_one

backoff_of_one_expires_at_once_example :
    In
      (record { id = "peer"; addrs = "/ip4/1.2.3.4/tcp/9000" ∷ [] })
      (peers_to_reconnect 21 store_one)
backoff_of_one_expires_at_once_example =
    backoff_of_one_expires_at_once store_one 21 "peer" failed_once store_one-IsValid refl get_one
      refl (omega arith) refl

abbrev failed_twice : PeerInfo text_wire
failed_twice = record failed_once { last_seen = 30; backoff_counter = 2 }

abbrev store_two : Peerstore text_wire
store_two = record { peers = ("peer", failed_twice) ∷ []; default_backoff = node_backoff }

abbrev ops_two : List (Op text_wire)
ops_two =
    inserts "peer" "/ip4/1.2.3.4/tcp/9000" "enr:a" 10
    ∷ sets_backoff "peer" refused 20
    ∷ sets_backoff "peer" refused 30
    ∷ []

ops_two-run : run ops_two (new_peerstore node_backoff) ≡ returns store_two
unfolding run apply insert put dict_insert new_peerstore set_backoff backed_off get lookup
ops_two-run = refl

get_two : get store_two "peer" ≡ some failed_twice
unfolding get lookup
get_two = refl

backoff_of_two_does_not_expire_example :
    ¬ In
      (record { id = "peer"; addrs = "/ip4/1.2.3.4/tcp/9000" ∷ [] })
      (peers_to_reconnect 86400000000000 store_two)
backoff_of_two_does_not_expire_example =
    backoff_of_two_does_not_expire store_two 86400000000000 "peer" failed_twice
      (run-new_peerstore-IsValid node_backoff ops_two store_two ops_two-run) refl get_two
      (omega arith) (omega arith) refl

abbrev there : AddrInfo text_wire
there = record { id = "peer"; addrs = "/ip4/1.2.3.4/tcp/9000" ∷ [] }

In-peers_to_reconnect_example : In there (peers_to_reconnect 21 store_one) ↔ (
    (i : PeerInfo text_wire) × (get store_one "peer" ≡ some i)
    × (there.addrs ≡ i.remote_addr ∷ [])
    × IsDue node_backoff 21 i)
In-peers_to_reconnect_example = In-peers_to_reconnect store_one 21 there store_one-IsValid
