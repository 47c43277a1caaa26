-- ===== src/Consumer/Messages/Delivery.antt =====
-- What handleMessage of consumer.go does with one message, on every branch.
use valtrack.Base.{
  String, Option-cases, ◌∙◌, sym, ℕ, ℤ, str_eq, eq_iff, List, [], ◌∷◌, length, In, Bool, false,
  none, Error, Result, ok, err, returns, panics, ◌≡◌, ◌≢◌, ◌⊎◌, ◌↔◌, inl, inr, refl, arith,
  Bool-cases, >>=-eq-returns,
}
use valtrack.Types.{SimpleMetaData, MetadataReceivedEvent, PeerDiscoveredEvent}
use valtrack.Consumer.Subnets.{indexes_from_bitfield, extract_short_lived_subnets}
use valtrack.Consumer.Messages.{
  Consumer, Message, term, nil_deref, is_ignored, handle_metadata_event, handle_message,
  on_discovered, on_received,
}

-- A message of a known subject whose payload is not of that subject's type.
abbrev pub IsUndecodable : Message → Type 0
IsUndecodable m =
    ((m.subject ≡ "events.peer_discovered") × (e : Error) × (m.discovered ≡ err e))
    ⊎ ((m.subject ≡ "events.metadata_received") × (e : Error) × (m.received ≡ err e))

exists-In : (l : List ℤ) → length l ≢ 0 → (x : ℤ) × In x l
exists-In [] h = absurd (h refl)
exists-In (x ∷ l) h = (x, inl refl)

In-length : (x : ℤ) (l : List ℤ) → In x l → length l ≢ 0
In-length x [] h = absurd h
In-length x (y ∷ l) h = omega arith

on_discovered-term :
    (m : Message) (r : Result PeerDiscoveredEvent) (c c' : Consumer)
    → on_discovered m r c ≡ returns (term, c')
    → ((e : Error) × (r ≡ err e)) × (c' ≡ c)
unfolding on_discovered
on_discovered-term m (err e) c c' h = ((e, refl), ground arith)
on_discovered-term m (ok event) c c' h = absurd (ground arith)

distinct : ◌≢◌ {A = String} "events.metadata_received" "events.peer_discovered"
distinct e =
    let same = (eq_iff "events.metadata_received" "events.peer_discovered").1 e in ground arith

module _ (bit_at : List ℕ → ℕ → Bool) where
  -- An event is taken for a validator's exactly if it has some short-lived subnet and announces
  -- exactly two subnets.
  pub is_ignored-false_iff :
      (md : SimpleMetaData) (event : MetadataReceivedEvent)
      → (is_ignored bit_at md event ≡ false) ↔ (
          ((x : ℤ) × In x (
              extract_short_lived_subnets event.subscribed_subnets
                (indexes_from_bitfield bit_at md.attnets)))
          × (length (indexes_from_bitfield bit_at md.attnets) ≡ 2))
  unfolding is_ignored
  is_ignored-false_iff md event = (there, back)
    where
      short : List ℤ
      short =
          extract_short_lived_subnets event.subscribed_subnets
            (indexes_from_bitfield bit_at md.attnets)

      there :
          is_ignored bit_at md event ≡ false
          → ((x : ℤ) × In x short) × (length (indexes_from_bitfield bit_at md.attnets) ≡ 2)
      there h = (exists-In short (λ z. ground arith), ground arith)

      back :
          ((x : ℤ) × In x short) × (length (indexes_from_bitfield bit_at md.attnets) ≡ 2)
          → is_ignored bit_at md event ≡ false
      back ((x, m), two) = let some_short = In-length x short m in ground arith

  on_received-term :
      (m : Message) (r : Result MetadataReceivedEvent) (c c' : Consumer)
      → on_received bit_at m r c ≡ returns (term, c')
      → ((e : Error) × (r ≡ err e)) × (c' ≡ c)
  unfolding on_received
  on_received-term m (err e) c c' h = ((e, refl), ground arith)
  on_received-term m (ok event) c c' h =
      let (c₁, _, e) =
        >>=-eq-returns (handle_metadata_event bit_at m.validator_written event c) _ h in
      absurd (ground arith)

  -- A message is given up, and not acknowledged, only if its payload cannot be decoded, and then
  -- nothing is stored.
  pub handle_message-term :
      (m : Message) (c c' : Consumer)
      → handle_message bit_at m c ≡ returns (term, c')
      → IsUndecodable m × (c' ≡ c)
  unfolding handle_message
  handle_message-term m c c' h = elim (Bool-cases m.metadata_known) [
    | inr k ↦ absurd (ground arith)
    | inl k ↦ (elim (Bool-cases (str_eq m.subject "events.peer_discovered")) [
      | inl p ↦
          let (e, same) = on_discovered-term m m.discovered c c' (simp (k, p) at h) in
          (inl ((eq_iff _ _).0 p, e.0, e.1), same)
      | inr p ↦ (elim (Bool-cases (str_eq m.subject "events.metadata_received")) [
        | inl q ↦
            let (e, same) = on_received-term m m.received c c' (simp (k, p, q) at h) in
            (inr ((eq_iff _ _).0 q, e.0, e.1), same)
        | inr q ↦ absurd (ground arith)
      ])
    ])
  ]

  on_discovered-total :
      (m : Message) (r : Result PeerDiscoveredEvent) (c : Consumer) (p : String)
      → on_discovered m r c ≢ panics p
  unfolding on_discovered
  on_discovered-total m (err e) c p h = ground arith
  on_discovered-total m (ok event) c p h = ground arith

  on_received-panics_iff :
      (m : Message) (r : Result MetadataReceivedEvent) (c : Consumer)
      → (on_received bit_at m r c ≡ panics nil_deref)
        ↔ ((event : MetadataReceivedEvent) × (r ≡ ok event) × (event.meta_data ≡ none))
  unfolding on_received handle_metadata_event
  on_received-panics_iff m (err e) c = ((λ h. absurd (ground arith)), (λ h. ground arith))
  on_received-panics_iff m (ok event) c = elim (Option-cases event.meta_data) [
    | inl n ↦ ((λ h. (event, refl, n)), (λ h. rw (n, handle_metadata_event) refl))
    | inr (md, n) ↦ ((λ h. absurd (ground arith)), (λ h. ground arith))
  ]

  -- handleMessage panics on a nil pointer exactly if the message itself has no metadata, or it is
  -- of the metadata subject and its event decodes but carries no metadata.
  pub handle_message-panics_iff :
      (m : Message) (c : Consumer)
      → (handle_message bit_at m c ≡ panics nil_deref) ↔ (
          (m.metadata_known ≡ false)
          ⊎ ((m.subject ≡ "events.metadata_received")
              × ((event : MetadataReceivedEvent) × (m.received ≡ ok event)
                  × (event.meta_data ≡ none))))
  unfolding handle_message
  handle_message-panics_iff m c = elim (Bool-cases m.metadata_known) [
    | inr k ↦ ((λ h. inl k), (λ h. simp k))
    | inl k ↦ (elim (Bool-cases (str_eq m.subject "events.peer_discovered")) [
      | inl p ↦ (
        (λ h. absurd (on_discovered-total m m.discovered c nil_deref (simp (k, p) at h))),
        (λ h. elim h [
          | inl u ↦ absurd (ground arith)
          | inr (q, _) ↦ absurd (distinct (sym q ∙ (eq_iff _ _).0 p))
        ]),
      )
      | inr p ↦ (elim (Bool-cases (str_eq m.subject "events.metadata_received")) [
        | inl q ↦ (
          (λ h.
              inr (
                (eq_iff _ _).0 q,
                (on_received-panics_iff m m.received c).0 (simp (k, p, q) at h),
              )),
          (λ h. elim h [
            | inl u ↦ absurd (ground arith)
            | inr (_, w) ↦ simp (k, p, q) ((on_received-panics_iff m m.received c).1 w)
          ]),
        )
        | inr q ↦ (
          (λ h. absurd (ground arith)),
          (λ h. absurd (ground (arith, eq_iff m.subject "events.metadata_received"))),
        )
      ])
    ])
  ]
