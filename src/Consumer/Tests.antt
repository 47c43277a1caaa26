-- ===== src/Consumer/Tests.antt =====
-- The theorems on the consumer at concrete inputs.
pub mod Trackers
mod Dunes
pub mod Launches
use valtrack.Base.{
  ℕ, zero, suc, ◌≤◌, ◌<◌, ◌/◌, ◌%◌, ◌==◌, ℤ, pos, String, List, [], ◌∷◌, map, length, In, NoRepeat,
  Bool, true, false, none, some, Error, new, Result, ok, err, returns, panics, ◌≡◌, ◌↔◌, ◌⊎◌, inl,
  inr, refl, arith,
}
use valtrack.Types.{SimpleMetaData, MetadataReceivedEvent}
use valtrack.Hex.{nibble, encode_to_string}
use valtrack.Consumer.Subnets.{
  indexes_from_bitfield, extract_short_lived_subnets, indexes_loop, extract_loop, contains,
}
use valtrack.Consumer.Subnets.Membership.{
  In-indexes_from_bitfield, In-extract_short_lived_subnets, extract_misses_zero,
}
use valtrack.Consumer.Messages.{
  Consumer, Message, ack, term, nil_deref, is_ignored, accept, handle_metadata_event, on_received,
  store_metadata_event, handle_message, handle_messages, validator_event,
}
use valtrack.Consumer.Messages.Delivery.{
  IsUndecodable, is_ignored-false_iff, handle_message-term, handle_message-panics_iff,
}
use valtrack.Consumer.Messages.Fetching.{
  Fetched, fetch_failed, batch, fetch_loop, fetch_loop-delivered,
}
use valtrack.Consumer.Messages.Channels.{InStep, handle_messages-InStep}
use valtrack.Consumer.Api.{
  Floats, ValidatorTracker, load_api_keys, validators, shown, get_validators,
}
use valtrack.Consumer.Api.Privacy.{SamePublic, load_api_keys-empty, get_validators-private}
use valtrack.Consumer.Api.Best.{IsBest, get_validators-IsBest}

-- go-bitfield's `BitAt` on the first byte.
half : ℕ → ℕ → ℕ
half zero n = n
half (suc k) n = half k (n / 2)

unfoldable pub low_bit : List ℕ → ℕ → Bool
unfolding half
low_bit [] i = false
low_bit (b ∷ _) i = half i b % 2 == 1

-- A validator: it announces the subnets 1 and 2, and has subscribed to 5 as well.
abbrev duties : SimpleMetaData
duties = record { seq_number = pos 4; attnets = 6 ∷ 0 ∷ []; syncnets = 0 ∷ [] }

abbrev pub event : MetadataReceivedEvent
event = record {
  enr = "enr:-a";
  id = "peer";
  multiaddr = "/ip4/1.2.3.4/tcp/9000";
  epoch = pos 7;
  meta_data = some duties;
  subscribed_subnets = pos 1 ∷ pos 5 ∷ [];
  client_version = "Lighthouse";
  crawler_id = "machine";
  crawler_loc = "ams";
  timestamp = pos 1000;
}

abbrev event_without : MetadataReceivedEvent
event_without = record event { meta_data = none }

abbrev pub failure : Error
failure = new "unexpected end of JSON input"

abbrev message : String → Result MetadataReceivedEvent → Message
message subject r = record {
  subject = subject;
  metadata_known = true;
  discovered = err failure;
  received = r;
  discovery_written = true;
  metadata_written = true;
  validator_written = true;
}

abbrev fresh : Consumer
fresh = record {
  discovery_rows = [];
  metadata_rows = [];
  validator_rows = [];
  validator_metadata_chan = [];
  validator_channel = some [];
}

In-indexes_from_bitfield_example :
    (In (pos 2) (indexes_from_bitfield low_bit (6 ∷ []))
      ↔ ((j : ℕ) × (pos 2 ≡ pos j) × (j < 64) × (low_bit (6 ∷ []) j ≡ true)))
    × NoRepeat (indexes_from_bitfield low_bit (6 ∷ []))
In-indexes_from_bitfield_example = In-indexes_from_bitfield low_bit (6 ∷ []) (pos 2)

In-extract_short_lived_subnets_example :
    (In (pos 5) (extract_short_lived_subnets (pos 1 ∷ pos 5 ∷ []) (pos 1 ∷ pos 2 ∷ [])) ↔ (
      (j : ℕ) × (pos 5 ≡ pos j)
      × (1 ≤ j)
      × (j ≤ 64)
      × In (pos 5) (pos 1 ∷ pos 5 ∷ [])
      × (¬ In (pos 5) (pos 1 ∷ pos 2 ∷ []))))
    × NoRepeat (extract_short_lived_subnets (pos 1 ∷ pos 5 ∷ []) (pos 1 ∷ pos 2 ∷ []))
In-extract_short_lived_subnets_example =
    In-extract_short_lived_subnets (pos 1 ∷ pos 5 ∷ []) (pos 1 ∷ pos 2 ∷ []) (pos 5)

zero_or_announced : (x : ℤ) → In x (pos 0 ∷ pos 7 ∷ []) → (x ≡ pos 0) ⊎ In x (pos 7 ∷ [])
zero_or_announced x (inl e) = inl e
zero_or_announced x (inr h) = inr h

announced : indexes_from_bitfield low_bit duties.attnets ≡ pos 1 ∷ pos 2 ∷ []
unfolding indexes_from_bitfield indexes_loop low_bit
announced = refl

abbrev bare : Message
bare = message "events.metadata_received" (ok event_without)

handle_message-panics_iff_example : (handle_message low_bit bare fresh ≡ panics nil_deref) ↔ (
    (bare.metadata_known ≡ false)
    ⊎ ((bare.subject ≡ "events.metadata_received")
        × ((e : MetadataReceivedEvent) × (bare.received ≡ ok e) × (e.meta_data ≡ none))))
handle_message-panics_iff_example = handle_message-panics_iff low_bit bare fresh

abbrev after : Consumer
after = record {
  discovery_rows = [];
  metadata_rows = event ∷ [];
  validator_rows = validator_event (pos 1 ∷ pos 2 ∷ []) duties event ∷ [];
  validator_metadata_chan = event ∷ [];
  validator_channel = some (validator_event (pos 1 ∷ pos 2 ∷ []) duties event ∷ []);
}

two_handled :
    handle_messages low_bit
      (message "events.metadata_received" (ok event) ∷ message "events.other" (err failure) ∷ [])
      fresh
    ≡ returns (ack ∷ ack ∷ [], after)
unfolding handle_messages handle_message on_received handle_metadata_event is_ignored accept
    indexes_from_bitfield indexes_loop extract_short_lived_subnets extract_loop contains
    store_metadata_event low_bit
two_handled = refl

handle_messages-InStep_example : InStep low_bit after
handle_messages-InStep_example =
    handle_messages-InStep low_bit
      (message "events.metadata_received" (ok event) ∷ message "events.other" (err failure) ∷ [])
      (ack ∷ ack ∷ []) fresh after two_handled (record { rows = []; sent = refl; same = tt })

-- Positions in thousandths of a degree.
abbrev thousandths : Floats
thousandths = record { Float = ℕ; round_tenth = λ x. x / 100; round_hundredth = λ x. x / 10 }

abbrev tracked : String → String → ℕ → ℕ → ValidatorTracker thousandths
tracked id addr count lat = record {
  peer_id = id;
  enr = addr;
  multiaddr = addr;
  ip = addr;
  port = pos 9000;
  last_seen = pos 1;
  last_epoch = pos 2;
  client_version = "Lighthouse";
  validator_count = pos count;
  validator_count_accuracy = 514;
  total_observations = pos 3;
  hostname = addr;
  city = "Amsterdam";
  region = "North Holland";
  country = "NL";
  latitude = lat;
  longitude = 4890;
  postal_code = "1012";
  asn = "AS1";
  asn_organization = "Host";
  asn_type = "hosting";
}

same_public : SamePublic (tracked "peer" "1.2.3.4" 8 52370) (tracked "peer" "9.9.9.9" 8 52311)
same_public = ground arith

get_validators-private_example :
    get_validators false (ok (ok (tracked "peer" "1.2.3.4" 8 52370) ∷ []))
    ≡ get_validators false (ok (ok (tracked "peer" "9.9.9.9" 8 52311) ∷ []))
get_validators-private_example =
    get_validators-private (ok (tracked "peer" "1.2.3.4" 8 52370) ∷ [])
      (ok (tracked "peer" "9.9.9.9" 8 52311) ∷ []) (same_public, tt)

abbrev rows : List (ValidatorTracker thousandths)
rows = tracked "peer" "1.2.3.4" 8 52370 ∷ tracked "peer" "1.2.3.4" 12 52370 ∷ []

get_validators-IsBest_example :
    (by_id : List (String × ValidatorTracker thousandths)) × (get_validators true (ok (map ok rows))
      ≡ validators (map (λ e. e.1) by_id))
    × IsBest (λ x. In x (map (shown true) rows)) by_id
get_validators-IsBest_example = get_validators-IsBest true rows

two_bytes : encode_to_string (10 ∷ 255 ∷ []) ≡ "0aff"
unfolding encode_to_string nibble
two_bytes = refl

-- The second fetch fails, so that the message of the third is not handled.
abbrev fetches : List Fetched
fetches =
    batch (message "events.metadata_received" (ok event) ∷ [])
    ∷ fetch_failed failure
    ∷ batch (message "events.metadata_received" (err failure) ∷ [])
    ∷ []

fetch_loop-delivered_example :
    fetch_loop low_bit fetches fresh
    ≡ handle_messages low_bit (message "events.metadata_received" (ok event) ∷ []) fresh
fetch_loop-delivered_example = fetch_loop-delivered low_bit fetches fresh
