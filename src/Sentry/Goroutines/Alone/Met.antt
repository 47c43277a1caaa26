-- ===== src/Sentry/Goroutines/Alone/Met.antt =====
-- What the outbound handler of pkg/ethereum/node_notifiee.go makes of a peer that answers.
use valtrack.Base.{
  ℕ, ◌/◌, ℤ, pos, quot_ℤ, to_int64, String, str_eq, List, [], ◌∷◌, ◌++◌, true, some, none, ok,
  returns, panics, Bool, ◌>>=◌, if◌then◌else◌, ◌≡◌, refl, ◌∙◌, ap, inl, inr, arith, Bool-cases,
}
use valtrack.Types.{MetadataReceivedEvent}
use valtrack.Sentry.Wire.{Wire, Status, MetaDataV1}
use valtrack.Sentry.Peerstore.{
  PeerInfo, Peerstore, get, put, modify, not_connected, set_metadata, set_client_version, reset,
  cleared, add_subscribed_subnets, into_metadata_event,
}
use valtrack.Sentry.Peerstore
use valtrack.Sentry.Peerstore.Frame.{adds_subnets, apply, run, get-put}
use valtrack.Sentry.ReqResp.LocalStatus.{set_statuses}
use valtrack.Sentry.Node.{Node, interlude, send_metadata_event}
use valtrack.Sentry.Notifiee.{
  Meeting, save_client_version, publish, clean_up, after_handshake, outbound_body, handle_outbound,
}
use valtrack.Sentry.Goroutines.{dials}
use valtrack.Sentry.Goroutines.Alone.{alone}
use valtrack.Sentry.Goroutines.Alone.Outbound.{alone-handle_outbound}
use valtrack.Sentry.Goroutines.Alone.Answered.{
  Answers, get-put_self, get-put_ne, modify-known, followed, handshake-met,
}

module _ {W : Wire} where
  -- The event that is made of the peer's answers.
  abbrev pub met_event :
      PeerInfo W → Status → MetaDataV1 → List ℤ → ℕ → String → Node W → MetadataReceivedEvent
  met_event i st md subnets subscribed_at version n = record {
    enr = W.enode_string i.enode;
    id = W.id_string i.id;
    multiaddr = W.maddr_string i.remote_addr;
    epoch = quot_ℤ (to_int64 st.head_slot) 32;
    meta_data = some (record {
      seq_number = to_int64 md.seq_number;
      attnets = md.attnets;
      syncnets = md.syncnets;
    });
    subscribed_subnets = i.subscribed_subnets ++ subnets;
    client_version = version;
    crawler_id = n.crawler_id;
    crawler_loc = n.crawler_loc;
    timestamp = pos (subscribed_at / 1000000);
  }

  -- The record that is left of the peer.
  abbrev pub left_info : PeerInfo W → String → ℕ → PeerInfo W
  left_info i version ended_at = record {
    id = i.id;
    enode = i.enode;
    last_seen = ended_at;
    remote_addr = i.remote_addr;
    status = none;
    metadata = none;
    subscribed_subnets = [];
    client_version = version;
    state = not_connected;
    last_err = none;
    backoff_counter = 0;
  }

  sleep-met :
      (pid : String) (i : PeerInfo W) (subnets : List ℤ) (now : ℕ) (n : Node W)
      → get n.peerstore pid ≡ some i
      → interlude (record { ops = adds_subnets pid subnets now ∷ []; statuses = [] }) n
        ≡ returns (record n {
          peerstore =
              put pid
                (record i { subscribed_subnets = i.subscribed_subnets ++ subnets; last_seen = now })
                n.peerstore;
        })
  unfolding interlude run apply add_subscribed_subnets set_statuses
  sleep-met pid i subnets now n e =
      simp (modify-known _ pid _ i n.peerstore e, interlude, run, apply) refl

  event-met :
      (i : PeerInfo W) (st : Status) (md : MetaDataV1) (subnets : List ℤ) (now : ℕ)
      (version : String) (n : Node W)
      → i.status ≡ some st
      → i.metadata ≡ some md
      → into_metadata_event (record i {
        client_version = version;
        subscribed_subnets = i.subscribed_subnets ++ subnets;
        last_seen = now;
      })
        ≡ returns
            (record (met_event i st md subnets now version n) { crawler_id = ""; crawler_loc = "" })
  unfolding into_metadata_event
  event-met i st md subnets now version n is im = simp (is, im) refl

  send-met :
      (in_time : Bool) (event : MetadataReceivedEvent) (n : Node W)
      → in_time ≡ true
      → n.jetstream ≡ true
      → send_metadata_event in_time event n ≡ record n {
        metadata_events =
            n.metadata_events
            ++ record event { crawler_id = n.crawler_id; crawler_loc = n.crawler_loc } ∷ [];
      }
  unfolding send_metadata_event
  send-met in_time event n intime js = ground (arith, intime, js)

  sends-met :
      (pid : String) (in_time : Bool) (i : PeerInfo W) (event : MetadataReceivedEvent) (n : Node W)
      → get n.peerstore pid ≡ some i
      → into_metadata_event i ≡ returns event
      → (elim (get n.peerstore pid) [
        | none ↦ panics Peerstore.nil_deref
        | some info ↦ into_metadata_event info >>= λ x. returns (send_metadata_event in_time x n)
      ])
        ≡ returns (send_metadata_event in_time event n)
  sends-met pid in_time i event n e f = rw (e, f) refl

  publish-met :
      (pid : String) (m : Meeting W) (n : Node W) (i : PeerInfo W) (st : Status) (md : MetaDataV1)
      (subnets : List ℤ) (now : ℕ) (version : String)
      → m.agent_version ≡ ok (some version)
      → m.during_sleep ≡ record { ops = adds_subnets pid subnets now ∷ []; statuses = [] }
      → n.jetstream ≡ true
      → m.in_time ≡ true
      → i.status ≡ some st
      → i.metadata ≡ some md
      → get n.peerstore pid ≡ some i
      → publish pid (some "unknown") m n
        ≡ returns (record n {
          peerstore =
              put pid
                (record i {
                  client_version = version;
                  subscribed_subnets = i.subscribed_subnets ++ subnets;
                  last_seen = now;
                })
                (put pid (record i { client_version = version }) n.peerstore);
          metadata_events = n.metadata_events ++ met_event i st md subnets now version n ∷ [];
        })
  unfolding publish save_client_version set_client_version into_metadata_event send_metadata_event
  publish-met pid m n i st md subnets now version v sl js intime is im e =
      let i₁ : PeerInfo W = record i { client_version = version } in
      let i₂ : PeerInfo W = record i₁ {
        subscribed_subnets = i.subscribed_subnets ++ subnets;
        last_seen = now;
      } in
      let s₁ : Peerstore W = put pid i₁ n.peerstore in
      let n₂ : Node W = record n { peerstore = put pid i₂ s₁ } in
      let event : MetadataReceivedEvent = record (met_event i st md subnets now version n) {
        crawler_id = "";
        crawler_loc = "";
      } in
      simp
        (
          v,
          sl,
          modify-known _ pid _ i n.peerstore e,
          sleep-met pid i₁ subnets now (record n { peerstore = s₁ })
              (get-put_self pid i₁ n.peerstore),
          publish,
        )
        (sends-met pid m.in_time i₂ event n₂ (get-put_self pid i₂ s₁)
            (event-met i st md subnets now version n is im)
          ∙ ap returns (send-met m.in_time event n₂ intime js))

  -- If the peer answers the three requests of its outbound handler, the host knows its address and
  -- its agent version, the node has a JetStream and the event is taken in time, and, while the
  -- handler waits, nothing else happens but that the peer's subscriptions come in during the sleep,
  -- then the handler ends within eight turns. One event is sent, with the peer's status, metadata,
  -- version and subscriptions; the peer's record is left cleared but for its version, and those of
  -- the other peers as they were; and the node has taken the peer's status over exactly if it is of
  -- the node's fork, and of that of the node's own status, and has a higher head slot.
  pub alone-outbound_met :
      (pid : String) (m : Meeting W) (n : Node W) (i : PeerInfo W) (own st : Status)
      (md : MetaDataV1) (subnets : List ℤ) (now : ℕ) (version : String)
      → Answers pid m n st md subnets now
      → m.agent_version ≡ ok (some version)
      → n.jetstream ≡ true
      → m.in_time ≡ true
      → get n.peerstore pid ≡ some i
      → n.req_resp.status ≡ some own
      → (n' : Node W) × (alone pid m 8 [] dials n ≡ returns n')
        × (n'.metadata_events ≡ n.metadata_events ++ met_event i st md subnets now version n ∷ [])
        × ((j : String)
            → get n'.peerstore j
              ≡ (if str_eq pid j then some (left_info i version m.ended_at) else get n.peerstore j))
        × (n'.req_resp.status ≡ some (followed n.fork_digest own st))
  unfolding handle_outbound outbound_body after_handshake clean_up reset cleared
  alone-outbound_met pid m n i own st md subnets now version a v js intime e h =
      let (r, s, shaken, q, same) = handshake-met pid m n i own st md subnets now a e h in
      let i₂ : PeerInfo W = record i {
        status = some st;
        metadata = some md;
        last_seen = m.handshake.metadata_at;
      } in
      let i₃ : PeerInfo W = record i₂ { client_version = version } in
      let i₄ : PeerInfo W = record i₃ {
        subscribed_subnets = i.subscribed_subnets ++ subnets;
        last_seen = now;
      } in
      let n₂ : Node W = record n { peerstore = s; req_resp = r } in
      let s₄ : Peerstore W = put pid i₄ (put pid i₃ s) in
      let n₄ : Node W = record n₂ {
        peerstore = s₄;
        metadata_events = n.metadata_events ++ met_event i st md subnets now version n ∷ [];
      } in
      let left : Node W = record n₄ { peerstore = put pid (left_info i version m.ended_at) s₄ } in
      let there : get s pid ≡ some i₂ = rw same (get-put_self pid i₂ _) in
      let body : outbound_body pid m n ≡ returns n₄ =
        simp (a.dialed, shaken, outbound_body)
          (publish-met pid m n₂ i₂ st md subnets now version v a.sleep js intime refl refl there) in
      let cleaned : clean_up pid m n₄ ≡ returns left =
        simp
          (
            modify-known _ pid (cleared m.ended_at) i₄ s₄ (get-put_self pid i₄ (put pid i₃ s)),
            clean_up,
          )
          refl in
      (
        left,
        alone-handle_outbound pid m n ∙ ap (λ o. o >>= clean_up pid m) body ∙ cleaned,
        refl,
        λ j. elim (Bool-cases (str_eq pid j)) [
          | inl x ↦ rw (get-put pid j (left_info i version m.ended_at) s₄, x) refl
          | inr x ↦
              get-put_ne pid j (left_info i version m.ended_at) s₄ x
              ∙ get-put_ne pid j i₄ (put pid i₃ s) x
              ∙ get-put_ne pid j i₃ s x
              ∙ ap (λ u. get u j) same
              ∙ get-put_ne pid j i₂ _ x
              ∙ get-put_ne pid j _ n.peerstore x
              ∙ rw x refl
        ],
        q,
      )
