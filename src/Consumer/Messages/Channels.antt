-- ===== src/Consumer/Messages/Channels.antt =====
-- What a run of consumer.go over any messages leaves in its channels and tables.
use valtrack.Base.{
  ℕ, str_eq, List, [], ◌∷◌, ◌++◌, Bool, false, some, Result, ok, err, returns, ◌≡◌, inl, inr, refl,
  sym, ◌∙◌, subst, arith, Bool-cases, Option-cases, >>=-eq-returns,
}
use valtrack.Types.{SimpleMetaData, MetadataReceivedEvent, PeerDiscoveredEvent, ValidatorEvent}
use valtrack.Consumer.Subnets.{indexes_from_bitfield}
use valtrack.Consumer.Messages.{
  Consumer, Message, Verdict, is_ignored, accept, validator_event, handle_metadata_event,
  handle_message, handle_messages, on_discovered, on_received, store_discovery_event,
  store_metadata_event,
}

module _ (bit_at : List ℕ → ℕ → Bool) where
  -- The rows are, one for one and in order, those of the events, each of which is a validator's.
  abbrev pub RowsOf : List MetadataReceivedEvent → List ValidatorEvent → Type 0
  RowsOf [] [] = Unit
  RowsOf [] (r ∷ rs) = ⊥
  RowsOf (e ∷ es) [] = ⊥
  RowsOf (e ∷ es) (r ∷ rs) =
      ((md : SimpleMetaData) × (e.meta_data ≡ some md)
        × (is_ignored bit_at md e ≡ false)
        × (r ≡ validator_event (indexes_from_bitfield bit_at md.attnets) md e))
      × RowsOf es rs

  RowsOf-append :
      (es : List MetadataReceivedEvent) (rs : List ValidatorEvent) (e : MetadataReceivedEvent)
      (md : SimpleMetaData)
      → e.meta_data ≡ some md
      → is_ignored bit_at md e ≡ false
      → RowsOf es rs
      → RowsOf
          (es ++ e ∷ [])
          (rs ++ validator_event (indexes_from_bitfield bit_at md.attnets) md e ∷ [])
  RowsOf-append [] [] e md k i h = ((md, k, i, refl), tt)
  RowsOf-append [] (r ∷ rs) e md k i h = absurd h
  RowsOf-append (x ∷ es) [] e md k i h = absurd h
  RowsOf-append (x ∷ es) (r ∷ rs) e md k i h = (h.0, RowsOf-append es rs e md k i h.1)

  -- The channel to ClickHouse has the rows of the events on the channel to the tracker.
  pub record InStep (c : Consumer) : Type 0 where
    pub rows : List ValidatorEvent
    pub sent : c.validator_channel ≡ some rows
    pub same : RowsOf c.validator_metadata_chan rows

  handle_metadata_event-InStep :
      (taken : Bool) (event : MetadataReceivedEvent) (c c' : Consumer)
      → handle_metadata_event bit_at taken event c ≡ returns c'
      → InStep c
      → InStep c'
  unfolding handle_metadata_event accept
  handle_metadata_event-InStep taken event c c' h v = elim (Option-cases event.meta_data) [
    | inl n ↦ absurd (ground arith)
    | inr (md, k) ↦ (elim (Bool-cases (is_ignored bit_at md event)) [
      | inl i ↦ subst InStep (ground arith) v
      | inr i ↦ record {
        rows = v.rows ++ validator_event (indexes_from_bitfield bit_at md.attnets) md event ∷ [];
        sent = ground (arith, v.sent);
        same =
            subst
              (λ l.
                RowsOf l (
                  v.rows
                  ++ validator_event (indexes_from_bitfield bit_at md.attnets) md event ∷ []))
              (ground arith) (RowsOf-append c.validator_metadata_chan v.rows event md k i v.same);
      }
    ])
  ]

  InStep-same :
      (c c' : Consumer)
      → (c'.validator_channel ≡ c.validator_channel)
        × (c'.validator_metadata_chan ≡ c.validator_metadata_chan)
      → InStep c
      → InStep c'
  InStep-same c c' (e, f) w = record {
    rows = w.rows;
    sent = e ∙ w.sent;
    same = subst (λ l. RowsOf l w.rows) (sym f) w.same;
  }

  on_discovered-InStep :
      (m : Message) (r : Result PeerDiscoveredEvent) (v : Verdict) (c c' : Consumer)
      → on_discovered m r c ≡ returns (v, c')
      → InStep c
      → InStep c'
  unfolding on_discovered store_discovery_event
  on_discovered-InStep m (err e) v c c' h = InStep-same c c' (ground arith)
  on_discovered-InStep m (ok event) v c c' h = InStep-same c c' (ground arith)

  on_received-InStep :
      (m : Message) (r : Result MetadataReceivedEvent) (v : Verdict) (c c' : Consumer)
      → on_received bit_at m r c ≡ returns (v, c')
      → InStep c
      → InStep c'
  unfolding on_received store_metadata_event
  on_received-InStep m (err e) v c c' h w = InStep-same c c' (ground arith) w
  on_received-InStep m (ok event) v c c' h w =
      let (c₁, e, k) =
        >>=-eq-returns (handle_metadata_event bit_at m.validator_written event c) _ h in
      InStep-same c₁ c' (ground arith)
        (handle_metadata_event-InStep m.validator_written event c c₁ e w)

  handle_message-InStep :
      (m : Message) (v : Verdict) (c c' : Consumer)
      → handle_message bit_at m c ≡ returns (v, c')
      → InStep c
      → InStep c'
  unfolding handle_message
  handle_message-InStep m v c c' h w = elim (Bool-cases m.metadata_known) [
    | inr k ↦ absurd (ground arith)
    | inl k ↦ (elim (Bool-cases (str_eq m.subject "events.peer_discovered")) [
      | inl p ↦ on_discovered-InStep m m.discovered v c c' (simp (k, p) at h) w
      | inr p ↦ (elim (Bool-cases (str_eq m.subject "events.metadata_received")) [
        | inl q ↦ on_received-InStep m m.received v c c' (simp (k, p, q) at h) w
        | inr q ↦ InStep-same c c' (ground arith) w
      ])
    ])
  ]

  -- If any messages are handled without a panic and ClickHouse is used, its channel keeps having
  -- exactly the rows of the events that were passed to the tracker, one for one and in order, each
  -- of a validator.
  pub handle_messages-InStep :
      (ms : List Message) (vs : List Verdict) (c c' : Consumer)
      → handle_messages bit_at ms c ≡ returns (vs, c')
      → InStep c
      → InStep c'
  unfolding handle_messages
  handle_messages-InStep [] vs c c' h w = subst InStep (ground arith) w
  handle_messages-InStep (m ∷ ms) vs c c' h w =
      let ((v, c₁), e₁, k) = >>=-eq-returns (handle_message bit_at m c) _ h in
      let ((us, c₂), e₂, l) = >>=-eq-returns (handle_messages bit_at ms c₁) _ k in
      subst InStep (ground arith)
        (handle_messages-InStep ms us c₁ c₂ e₂ (handle_message-InStep m v c c₁ e₁ w))
