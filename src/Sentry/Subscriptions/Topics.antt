-- ===== src/Sentry/Subscriptions/Topics.antt =====
-- Which topics are read back, and which stop the node.
use valtrack.Base.{
  ℕ, zero, suc, ◌+◌, ◌/◌, ◌%◌, ◌≤◌, ◌<◌, ltb, ℤ, pos, String, List, [], ◌∷◌, ◌++◌, map, length,
  get_elem?, In, All, true, some, returns, panics, ◌≡◌, ◌≢◌, ◌↔◌, ◌⊎◌, inl, inr, refl, sym, ap, ◌∙◌,
  arith, eq_iff, Bool-cases, Option-cases, if◌then◌else◌,
}
use valtrack.Text.{Bytes, codes, split, contains, read_digits, atoi}
use valtrack.Text.Laws.{Lacks, split-append, split-whole, contains-append, contains-prefix}
use valtrack.Sentry.Wire.{Wire}
use valtrack.Sentry.Peerstore.{Peerstore, PeerInfo, get, put, modify, add_subscribed_subnets}
use valtrack.Sentry.Peerstore.Frame.{get-put}
use mathlib.Core.List.{append-nil}
use valtrack.Sentry.Subscriptions.{
  out_of_range, nth, beacon_attestation, subnet_index, with_subnet, attnets_of, add_all,
  filter_incoming_subscriptions,
}

-- The decimal digits of a number below 100.
abbrev pub decimal : ℕ → Bytes
decimal n = if ltb n 10 then (b'0' + n) ∷ [] else (b'0' + n / 10) ∷ (b'0' + n % 10) ∷ []

abbrev named : ℕ → Bytes
named n = codes "beacon_attestation_" ++ decimal n

-- The consensus specification's name of the topic of an attestation subnet.
unfoldable pub attestation_topic : Bytes → ℕ → Bytes
attestation_topic digest n =
    codes "/eth2/" ++ (digest ++ (codes "/" ++ (named n ++ codes "/ssz_snappy")))

atoi-decimal : (n : ℕ) → n < 64 → atoi (decimal n) ≡ some (pos n)
unfolding atoi read_digits
atoi-decimal n h = ground arith

decimal-Lacks : (sep n : ℕ) → sep < b'0' ⊎ (b'9' < sep) → n < 64 → Lacks sep (decimal n)
decimal-Lacks sep n s h = ground arith

named-Lacks : (n : ℕ) → n < 64 → Lacks b'/' (named n)
named-Lacks n h = ground arith

split-named :
    (n : ℕ) → n < 64 → split (named n) b'_' ≡ codes "beacon" ∷ codes "attestation" ∷ decimal n ∷ []
unfolding split
split-named n h =
    rw (split-whole b'_' (decimal n) (decimal-Lacks b'_' n (inr (omega arith)) h)) refl

split-topic :
    (digest : Bytes) (n : ℕ)
    → Lacks b'/' digest
    → n < 64
    → split (attestation_topic digest n) b'/'
      ≡ [] ∷ codes "eth2" ∷ digest ∷ named n ∷ codes "ssz_snappy" ∷ []
unfolding split attestation_topic
split-topic digest n d h =
    ap (λ (parts : List Bytes). [] ∷ codes "eth2" ∷ parts)
      (split-append b'/' digest (named n ++ codes "/ssz_snappy") d
        ∙ ap (λ (parts : List Bytes). digest ∷ parts)
            (split-append b'/' (named n) (codes "ssz_snappy") (named-Lacks n h)))

subnet_index-topic :
    (digest : Bytes) (n : ℕ)
    → Lacks b'/' digest
    → n < 64
    → subnet_index (attestation_topic digest n) ≡ returns (decimal n)
unfolding subnet_index
subnet_index-topic digest n d h = rw (split-topic digest n d h, split-named n h) refl

contains-topic :
    (digest : Bytes) (n : ℕ) → contains (attestation_topic digest n) beacon_attestation ≡ true
unfolding attestation_topic
contains-topic digest n = contains-append (codes "/eth2/") _ beacon_attestation (
    contains-append digest _ beacon_attestation (
      contains-append (codes "/") _ beacon_attestation
        (contains-prefix beacon_attestation ((codes "_" ++ decimal n) ++ codes "/ssz_snappy"))))

attnets_of-topics :
    (digest : Bytes) (ns : List ℕ)
    → Lacks b'/' digest
    → All (λ n. n < 64) ns
    → attnets_of (map (attestation_topic digest) ns) ≡ returns (map pos ns)
unfolding attnets_of
attnets_of-topics digest [] d h = refl
attnets_of-topics digest (n ∷ ns) d (lt, h) =
    rw
      (
        contains-topic digest n,
        attnets_of,
        subnet_index-topic digest n d lt,
        attnets_of-topics digest ns d h,
        atoi-decimal n lt,
      )
      refl

module _ {W : Wire} where
  -- The subnets whose topics a peer in the store subscribes to, under any fork digest without a
  -- slash, are read back from the names of the topics and appended to the peer's record, in the
  -- order of the topics.
  pub filter_incoming_subscriptions-topics :
      (pid : String) (digest : Bytes) (ns : List ℕ) (now : ℕ) (store : Peerstore W)
      (info : PeerInfo W)
      → Lacks b'/' digest
      → All (λ n. n < 64) ns
      → get store pid ≡ some info
      → (t : Peerstore W) × (i : PeerInfo W) × (filter_incoming_subscriptions pid
            (map (attestation_topic digest) ns)
            now
            store
          ≡ returns t)
        × (get t pid ≡ some i)
        × (i.subscribed_subnets ≡ info.subscribed_subnets ++ map pos ns)
  unfolding filter_incoming_subscriptions
  filter_incoming_subscriptions-topics pid digest [] now store info d h known =
      (store, info, refl, known, sym (append-nil info.subscribed_subnets))
  filter_incoming_subscriptions-topics pid digest (n ∷ ns) now store info d h known =
      let i : PeerInfo W = record info {
        subscribed_subnets = info.subscribed_subnets ++ map pos (n ∷ ns);
        last_seen = now;
      } in
      (
        put pid i store,
        i,
        rw (attnets_of-topics digest (n ∷ ns) d h)
            (unfold add_subscribed_subnets in rw (known, modify) refl),
        ground (arith, get-put pid pid i store, eq_iff pid pid),
        refl,
      )

-- A topic that names attestations and has less than four parts between slashes, or whose fourth part
-- has less than three between underscores.
abbrev pub IsMalformed : Bytes → Type 0
IsMalformed topic =
    (contains topic beacon_attestation ≡ true)
    × ((length (split topic b'/') ≤ 3)
        ⊎ ((part : Bytes) × (get_elem? (split topic b'/') 3 ≡ some part)
            × (length (split part b'_') ≤ 2)))

nth-panics_iff :
    {A : Type 0} (l : List A) (i : ℕ) → (nth l i ≡ panics out_of_range) ↔ (length l ≤ i)
nth-panics_iff [] i = ((λ h. omega arith), (λ h. refl))
nth-panics_iff (x ∷ l) zero = ((λ h. absurd (ground arith)), (λ h. absurd (omega arith)))
nth-panics_iff (x ∷ l) (suc i) =
    let (there, back) = nth-panics_iff l i in
    ((λ h. omega (arith, there h)), (λ h. back (omega arith)))

subnet_index-panics_iff :
    (topic : Bytes)
    → (subnet_index topic ≡ panics out_of_range) ↔ (
        (length (split topic b'/') ≤ 3)
        ⊎ ((part : Bytes) × (get_elem? (split topic b'/') 3 ≡ some part)
            × (length (split part b'_') ≤ 2)))
unfolding subnet_index
subnet_index-panics_iff topic = elim (Option-cases (get_elem? (split topic b'/') 3)) [
  | inl e ↦
      ((λ h. inl ((nth-panics_iff (split topic b'/') 3).0 (ground arith))), (λ h. ground arith))
  | inr (part, e) ↦ (
    (λ h. inr (part, e, (nth-panics_iff (split part b'_') 2).0 (ground arith))),
    (λ h. elim h [
      | inl short ↦ absurd (let p = (nth-panics_iff (split topic b'/') 3).1 short in ground arith)
      | inr (part', e', short) ↦
          let same : part' ≡ part = cc (e, e') in
          let p = (nth-panics_iff (split part b'_') 2).1 (rw same at short) in ground arith
    ]),
  )
]

subnet_index-cases :
    (topic : Bytes)
    → ((index : Bytes) × (subnet_index topic ≡ returns index))
      ⊎ (subnet_index topic ≡ panics out_of_range)
unfolding subnet_index
subnet_index-cases topic = elim (Option-cases (get_elem? (split topic b'/') 3)) [
  | inl e ↦ inr (ground arith)
  | inr (part, e) ↦ (elim (Option-cases (get_elem? (split part b'_') 2)) [
    | inl f ↦ inr (ground arith)
    | inr (index, f) ↦ inl (index, ground arith)
  ])
]

attnets_of-cases :
    (topics : List Bytes)
    → ((attnets : List ℤ) × (attnets_of topics ≡ returns attnets)
        × ((t : Bytes) → In t topics → ¬ IsMalformed t))
      ⊎ ((attnets_of topics ≡ panics out_of_range) × ((t : Bytes) × In t topics × IsMalformed t))
unfolding attnets_of
attnets_of-cases [] = inl ([], refl, λ t m. absurd m)
attnets_of-cases (topic ∷ topics) = elim (Bool-cases (contains topic beacon_attestation)) [
  | inr c ↦ elim (attnets_of-cases topics) [
    | inl (attnets, e, well) ↦ inl (
      attnets,
      rw (c, attnets_of) e,
      λ t. elim [ inl q ↦ λ (yes', _). cc (q, yes', c) | inr m ↦ well t m ],
    )
    | inr (e, (t, m, bad)) ↦ inr (rw (c, attnets_of) e, (t, inr m, bad))
  ]
  | inl c ↦ elim (subnet_index-cases topic) [
    | inr e ↦
        inr
          (rw (c, attnets_of, e) refl, (topic, inl refl, (c, (subnet_index-panics_iff topic).0 e)))
    | inl (index, e) ↦ elim (attnets_of-cases topics) [
      | inl (attnets, f, well) ↦ inl (
        with_subnet (atoi index) attnets,
        rw (c, attnets_of, e, f) refl,
        λ t. elim [
          | inl q ↦
              λ (_, short). let p = (subnet_index-panics_iff topic).1 (rw q at short) in cc (e, p)
          | inr m ↦ well t m
        ],
      )
      | inr (f, (t, m, bad)) ↦ inr (rw (c, attnets_of, e, f) refl, (t, inr m, bad))
    ]
  ]
]

module _ {W : Wire} where
  add_all-ne :
      (pid : String) (attnets : List ℤ) (now : ℕ) (store : Peerstore W)
      → add_all pid attnets now store ≢ panics out_of_range
  unfolding add_subscribed_subnets modify
  add_all-ne pid [] now store h = ground arith
  add_all-ne pid (i ∷ attnets) now store h =
      ground (arith, eq_iff "peerstore: AddSubscribedSubnet: peer not found" out_of_range)

  -- The subscription filter panics on an index out of range exactly if some topic is malformed: it
  -- names attestations and has less than four parts between slashes, or its fourth part has less
  -- than three between underscores.
  pub filter_incoming_subscriptions-panics_iff :
      (pid : String) (topics : List Bytes) (now : ℕ) (store : Peerstore W)
      → (filter_incoming_subscriptions pid topics now store ≡ panics out_of_range)
        ↔ ((topic : Bytes) × In topic topics × IsMalformed topic)
  unfolding filter_incoming_subscriptions
  filter_incoming_subscriptions-panics_iff pid topics now store = elim (attnets_of-cases topics) [
    | inr (e, bad) ↦ ((λ h. bad), (λ h. rw e refl))
    | inl (attnets, e, well) ↦ (
      (λ h. absurd (add_all-ne pid attnets now store (ground arith))),
      (λ (t, m, bad). absurd (well t m bad)),
    )
  ]
