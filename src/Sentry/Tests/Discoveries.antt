-- ===== src/Sentry/Tests/Discoveries.antt =====
-- The theorems on the discovery of nodes at concrete inputs.
use valtrack.Base.{pos, String, List, [], ◌∷◌, In, Bool, true, false, some, ok, ◌≡◌, inl, refl}
use valtrack.Base.Dict.{lookup, insert as dict_insert}
use valtrack.Sentry.Discovery.{
  ip4, Network, Found, Discovery, visit, serve, handle_enr, parse_enr, count_bits, big_endian,
  ones_count, host_info, maddr_from, announce, send_peer_event,
}
use valtrack.Sentry.Discovery.Announced.{
  every_second, ids, is_flagged, visits, serve-every_second, Belongs,
}
use valtrack.Sentry.Discovery.Dialed.{IsOnce, serve-IsOnce, serve-flagged, serve-Belongs}
use valtrack.Sentry.Tests.{text_wire}

abbrev pub network : Network text_wire
network = record {
  parse_ip = λ ip. some ip4;
  show = λ port. "9000";
  new_multiaddr = λ text. ok text;
  zero_digest = "0x00000000";
}

abbrev found : String → Bool → Found text_wire
found id full = record {
  enode = "enr:-a";
  complete = true;
  seq = 1;
  ip = "1.2.3.4";
  udp = 9000;
  tcp = 9000;
  eth2 = some (ok "0x6a95a1a9");
  attnets = some (0 ∷ 0 ∷ 0 ∷ 0 ∷ 0 ∷ 0 ∷ 3 ∷ 128 ∷ []);
  peer_id = ok id;
  found_at = pos 1000;
  ctx_done = false;
  out_full = full;
  in_time = true;
}

abbrev empty : Discovery text_wire
empty = record {
  filter_digest = "0x6a95a1a9";
  seen_nodes = [];
  out = [];
  jetstream = true;
  disc_events = [];
  logged = [];
  crawler_id = "machine";
  crawler_loc = "ams";
}

three_bits : count_bits (0 ∷ 0 ∷ 0 ∷ 0 ∷ 0 ∷ 0 ∷ 3 ∷ 128 ∷ []) ≡ 3
unfolding count_bits big_endian ones_count
three_bits = refl

-- The second peer comes twice, the first and the third are skipped.
abbrev five : List (Found text_wire)
five = found "a" false ∷ found "b" false ∷ found "c" false ∷ found "b" false ∷ found "d" false ∷ []

five_served : ids (serve network five empty) ≡ "b" ∷ []
unfolding serve visit handle_enr parse_enr host_info maddr_from announce send_peer_event lookup
    dict_insert
five_served = refl

serve-every_second_example : serve network five empty ≡ visits network (every_second five) empty
serve-every_second_example = serve-every_second network five empty

empty-IsOnce : IsOnce empty
empty-IsOnce = record { flagged = λ id h. absurd h; once = tt }

serve-IsOnce_example : IsOnce (serve network five empty)
serve-IsOnce_example = serve-IsOnce network five empty empty-IsOnce

-- The peer was announced while the channel was full.
abbrev crowded : Discovery text_wire
crowded = record empty { seen_nodes = ("b", record { node = "enr:-a"; flag = true }) ∷ [] }

crowded_seen : is_flagged "b" crowded ≡ true
unfolding lookup
crowded_seen = refl

serve-flagged_example : ¬ In "b" (ids (serve network five crowded))
serve-flagged_example = serve-flagged network five crowded "b" crowded_seen (λ z. z)

handed : In "b" (ids (serve network five empty))
unfolding serve visit handle_enr parse_enr host_info maddr_from announce send_peer_event lookup
    dict_insert
handed = inl refl

serve-Belongs_example :
    (f : Found text_wire) × In f (every_second five) × Belongs network "0x6a95a1a9" "b" f
serve-Belongs_example = serve-Belongs network five empty "b" refl handed
