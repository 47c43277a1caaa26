-- ===== src/Sentry/Tests/Topics.antt =====
-- The theorems on subscriptions at concrete inputs.
use valtrack.Base.{◌++◌, [], ◌∷◌, map, pos, returns, panics, ◌≡◌, inl, refl, arith, some}
use valtrack.Text.{Bytes, codes, split, contains, has_prefix}
use valtrack.Base.Dict.{lookup}
use valtrack.Text.Laws.{Lacks}
use valtrack.Sentry.Peerstore.{PeerInfo, Peerstore, get}
use valtrack.Sentry.Tests.{text_wire, failed_once, store_one}
use valtrack.Sentry.Subscriptions.{out_of_range, filter_incoming_subscriptions}
use valtrack.Sentry.Subscriptions.Topics.{
  attestation_topic, IsMalformed, filter_incoming_subscriptions-topics,
  filter_incoming_subscriptions-panics_iff,
}

abbrev digest : Bytes
digest = codes "6a95a1a9"

digest-Lacks : Lacks b'/' digest
digest-Lacks = ground arith

get_peer : get store_one "peer" ≡ some failed_once
unfolding get lookup
get_peer = refl

filter_incoming_subscriptions-topics_example :
    (t : Peerstore text_wire) × (i : PeerInfo text_wire) × (filter_incoming_subscriptions "peer"
        (map (attestation_topic digest) (61 ∷ 3 ∷ []))
        50
        store_one
      ≡ returns t)
    × (get t "peer" ≡ some i)
    × (i.subscribed_subnets ≡ [] ++ (pos 61 ∷ pos 3 ∷ []))
filter_incoming_subscriptions-topics_example =
    filter_incoming_subscriptions-topics "peer" digest (61 ∷ 3 ∷ []) 50 store_one failed_once
      digest-Lacks (omega arith, (omega arith, tt)) get_peer

-- A topic without slashes.
abbrev bare_topic : Bytes
bare_topic = codes "beacon_attestation"

bare_topic-IsMalformed : IsMalformed bare_topic
unfolding contains has_prefix split
bare_topic-IsMalformed = (refl, inl (omega arith))

filter_incoming_subscriptions-panics_iff_example :
    filter_incoming_subscriptions "peer" (bare_topic ∷ []) 50 store_one ≡ panics out_of_range
filter_incoming_subscriptions-panics_iff_example =
    (filter_incoming_subscriptions-panics_iff "peer" (bare_topic ∷ []) 50 store_one).1
      (bare_topic, inl refl, bare_topic-IsMalformed)
