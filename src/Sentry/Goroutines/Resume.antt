-- ===== src/Sentry/Goroutines/Resume.antt =====
-- What one step of a handler of pkg/ethereum/node_notifiee.go relies on and leaves, at every phase.
use valtrack.Base.{
  String, Bool, true, false, Option, none, some, ok, err, returns, ◌>>=◌, Returns, Returns->>=,
  Returns-regroup, Result, Result-cases, Option-cases, Bool-cases, ◌≡◌, ◌≢◌, refl, inl, inr, str_eq,
  eq_iff,
}
use valtrack.Types.{MetadataReceivedEvent}
use valtrack.Sentry.Wire.{Wire, Status}
use valtrack.Sentry.Peerstore.{
  PeerInfo, Peerstore, connecting, get, modify, set_backoff, set_metadata, set_client_version,
  status_of, backed_off, cleared, reset, into_metadata_event,
}
use valtrack.Sentry.Peerstore
use valtrack.Sentry.Peerstore.Frame.{get-put}
use valtrack.Sentry.Peerstore.Calm.{Has}
use valtrack.Sentry.ReqResp.{request_status, ping, request_meta_data}
use valtrack.Sentry.Node.{Node, send_metadata_event}
use valtrack.Sentry.Notifiee.{Meeting, follow_head, save_client_version, clean_up}
use valtrack.Sentry.Notifiee.CleanUp.{IsIdle, IsCleared-IsIdle}
use valtrack.Sentry.Notifiee.Ready.{follow_head-cases, set_status-own}
use valtrack.Sentry.Notifiee.Safety.{into_metadata_event-Returns}
use valtrack.Sentry.Goroutines.{
  Phase, dials, awaits_status, follows, awaits_pong, awaits_metadata, fails, polls, naps, checks,
  awaits_inbound_metadata, versions, sleeps, ends, knows_status, knows_metadata, resume,
}

module _ {W : Wire} where
  -- The peer's record is that of a peer that is being handled, with what the phase has put there.
  pub record Fits (pid : String) (ph : Phase) (s : Peerstore W) : Type 0 where
    pub info : PeerInfo W
    pub stored : get s pid ≡ some info
    pub state : info.state ≡ connecting
    pub has : Has (knows_status ph) (knows_metadata ph) info

  abbrev pub Remains : String → Option Phase → Node W → Type 0
  Remains pid none n = IsIdle pid n
  Remains pid (some ph) n = Fits pid ph n.peerstore

  -- After a step of the handler of `pid` its record fits the next phase, or is idle if it has ended;
  -- the node has a status; no other record has changed.
  pub record Resumed (pid : String) (n : Node W) (r : Option Phase × Node W) : Type 0 where
    pub remains : Remains pid r.0 r.1
    pub own : r.1.req_resp.status ≢ none
    pub others : (k : String) → str_eq pid k ≡ false → get r.1.peerstore k ≡ get n.peerstore k

  written :
      (pid message : String) (f : PeerInfo W → PeerInfo W) (next : Option Phase) (n : Node W)
      (i : PeerInfo W)
      → get n.peerstore pid ≡ some i
      → n.req_resp.status ≢ none
      → ((t : Peerstore W) → get t pid ≡ some (f i) → Remains pid next (record n { peerstore = t }))
      → Returns
          (modify message pid f n.peerstore >>= λ t. returns (next, record n { peerstore = t }))
          (Resumed pid n)
  unfolding modify
  written pid message f next n i e own fits =
      rw (e, modify)
        (record {
          remains = fits _ (rw (get-put pid pid (f i) n.peerstore, (eq_iff pid pid).1 refl));
          own = own;
          others = λ k other. rw (get-put pid k (f i) n.peerstore, other);
        })

  unchanged :
      (pid : String) (next : Phase) (n : Node W)
      → n.req_resp.status ≢ none
      → Fits pid next n.peerstore
      → Resumed pid n (some next, n)
  unchanged pid next n own fits = record { remains = fits; own = own; others = λ k _. refl }

  refits :
      (pid : String) (ph next : Phase) (s : Peerstore W)
      → (knows_status next ≡ true → knows_status ph ≡ true)
      → (knows_metadata next ≡ true → knows_metadata ph ≡ true)
      → Fits pid ph s
      → Fits pid next s
  refits pid ph next s a b v = record {
    info = v.info;
    stored = v.stored;
    state = v.state;
    has = record { status = λ e. v.has.status (a e); metadata = λ e. v.has.metadata (b e) };
  }

  followed :
      (pid : String) (st : Status) (n : Node W)
      → n.req_resp.status ≢ none
      → Fits pid (follows st) n.peerstore
      → Returns
          (follow_head st n >>= λ n'. returns (some (awaits_pong n'.req_resp), n'))
          (Resumed pid n)
  followed pid st n own v = elim (follow_head-cases st n own) [
    | inl e ↦ rw e (unchanged pid _ n own (refits pid (follows st) _ n.peerstore id id v))
    | inr e ↦ rw e (record {
      remains = refits pid (follows st) (awaits_pong _) n.peerstore id id v;
      own = set_status-own st n.req_resp own;
      others = λ k _. refl;
    })
  ]
    where
      id : {x : Bool} → x ≡ true → x ≡ true
      id e = e

  sent :
      (pid : String) (in_time : Bool) (event : MetadataReceivedEvent) (n : Node W)
      → n.req_resp.status ≢ none
      → Fits pid ends n.peerstore
      → Resumed pid n (some ends, send_metadata_event in_time event n)
  unfolding send_metadata_event
  sent pid in_time event n own v = elim (Bool-cases n.jetstream) [
    | inr e ↦ simp e (record { remains = v; own = own; others = λ k _. refl })
    | inl e ↦ (elim (Bool-cases in_time) [
      | inl x ↦ simp (e, x) (record { remains = v; own = own; others = λ k _. refl })
      | inr x ↦ simp (e, x) (unchanged pid ends n own v)
    ])
  ]

  written_node :
      (pid message : String) (f : PeerInfo W → PeerInfo W) (next : Option Phase) (n : Node W)
      (i : PeerInfo W)
      → get n.peerstore pid ≡ some i
      → n.req_resp.status ≢ none
      → ((t : Peerstore W) → get t pid ≡ some (f i) → Remains pid next (record n { peerstore = t }))
      → Returns
          (modify message pid f n.peerstore
            >>= (λ t. returns (record n { peerstore = t }))
            >>= λ n'. returns (next, n'))
          (Resumed pid n)
  written_node pid message f next n i e own fits =
      Returns-regroup (modify message pid f n.peerstore) _ _ (Resumed pid n)
        (written pid message f next n i e own fits)

  versioned :
      (pid v : String) (fallback : Option String) (n : Node W)
      → n.req_resp.status ≢ none
      → Fits pid (versions fallback) n.peerstore
      → Returns
          (set_client_version pid v n.peerstore
            >>= (λ t. returns (record n { peerstore = t }))
            >>= λ n'. returns (some sleeps, n'))
          (Resumed pid n)
  unfolding set_client_version
  versioned pid v fallback n own w = written_node pid _ _ (some sleeps) n w.info w.stored own λ t e.
      record {
        info = record (w.info) { client_version = v };
        stored = e;
        state = w.state;
        has = record { status = w.has.status; metadata = w.has.metadata };
      }

  saved :
      (pid : String) (fallback : Option String) (version : Result (Option String)) (n : Node W)
      → n.req_resp.status ≢ none
      → version ≢ ok none
      → Fits pid (versions fallback) n.peerstore
      → Returns
          (save_client_version pid fallback version n >>= λ n'. returns (some sleeps, n'))
          (Resumed pid n)
  unfolding save_client_version
  saved pid fallback (ok none) n own h v = absurd (h refl)
  saved pid fallback (ok (some x)) n own h v = versioned pid x fallback n own v
  saved pid (some x) (err e) n own h v = versioned pid x (some x) n own v
  saved pid none (err e) n own h v =
      unchanged pid sleeps n own (refits pid _ _ n.peerstore (λ c. refl) (λ c. refl) v)

  -- A handler that goes on from its phase, whatever the network answers, does not panic, makes its
  -- peer's record fit its next phase or leaves it idle if it has ended, changes no other record and
  -- leaves the node its own status, if the record fitted the phase, the node had a status, and
  -- the agent version the host may have of the peer is a string.
  pub resume-Resumed :
      (pid : String) (m : Meeting W) (timed_out : Bool) (ph : Phase) (n : Node W)
      → n.req_resp.status ≢ none
      → m.agent_version ≢ ok none
      → Fits pid ph n.peerstore
      → Returns (resume pid m timed_out ph n) (Resumed pid n)
  unfolding resume set_metadata Peerstore.set_status set_backoff backed_off clean_up reset cleared
      save_client_version status_of
  resume-Resumed pid m timed_out dials n own version v = elim (Bool-cases m.has_address) [
    | inl e ↦
        rw (e, resume)
          (unchanged pid _ n own (refits pid dials _ n.peerstore (λ c. cc) (λ c. cc) v))
    | inr e ↦
        rw (e, resume)
          (unchanged pid _ n own (refits pid dials _ n.peerstore (λ c. cc) (λ c. cc) v))
  ]
  resume-Resumed pid m timed_out (awaits_status asked) n own version v =
      elim (Result-cases (request_status asked m.handshake.status_stream).result) [
        | inr (x, e) ↦
            rw (e, resume)
              (unchanged pid _ n own (refits pid _ _ n.peerstore (λ c. cc) (λ c. cc) v))
        | inl (st, e) ↦
            rw (e, resume)
              (written pid _ _ (some (follows st)) n v.info v.stored own λ t g. record {
                info = record (v.info) { status = some st; last_seen = m.handshake.status_at };
                stored = g;
                state = v.state;
                has = record { status = λ _ c. cc; metadata = λ c. cc };
              })
      ]
  resume-Resumed pid m timed_out (follows st) n own version v = followed pid st n own v
  resume-Resumed pid m timed_out (awaits_pong asked) n own version v =
      elim (Result-cases (ping asked m.handshake.ping_stream).result) [
        | inr (x, e) ↦
            rw (e, resume)
              (unchanged pid _ n own (refits pid _ _ n.peerstore (λ c. cc) (λ c. cc) v))
        | inl (u, e) ↦
            rw (e, resume)
              (unchanged pid _ n own (refits pid _ _ n.peerstore (λ c. refl) (λ c. cc) v))
      ]
  resume-Resumed pid m timed_out awaits_metadata n own version v =
      elim (Result-cases (request_meta_data m.handshake.metadata_stream).result) [
        | inr (x, e) ↦
            rw (e, resume)
              (unchanged pid _ n own (refits pid _ _ n.peerstore (λ c. cc) (λ c. cc) v))
        | inl (md, e) ↦
            rw (e, resume)
              (written pid _ _ (some (versions (some "unknown"))) n v.info v.stored own λ t g.
                record {
                  info = record (v.info) {
                    metadata = some md;
                    last_seen = m.handshake.metadata_at;
                  };
                  stored = g;
                  state = v.state;
                  has = record { status = v.has.status; metadata = λ _ c. cc };
                })
      ]
  resume-Resumed pid m timed_out (fails x) n own version v =
      rw (v.stored, set_backoff, resume)
        (record {
          remains = record {
            info = backed_off x m.failed_at v.info;
            stored = rw (
              get-put pid pid (backed_off x m.failed_at v.info) n.peerstore,
              (eq_iff pid pid).1 refl,
            );
            state = v.state;
            has = record { status = λ c. cc; metadata = λ c. cc };
          };
          own = own;
          others =
              λ k other. rw (get-put pid k (backed_off x m.failed_at v.info) n.peerstore, other);
        })
  resume-Resumed pid m true polls n own version v =
      unchanged pid _ n own (refits pid _ _ n.peerstore (λ c. cc) (λ c. cc) v)
  resume-Resumed pid m false polls n own version v = elim (Option-cases v.info.status) [
    | inl e ↦
        rw (v.stored, status_of, e, resume)
          (unchanged pid _ n own (refits pid _ _ n.peerstore (λ c. cc) (λ c. cc) v))
    | inr (st, e) ↦
        rw (v.stored, status_of, e, resume)
          (unchanged pid _ n own (record {
            info = v.info;
            stored = v.stored;
            state = v.state;
            has = record { status = λ _ c. cc; metadata = λ c. cc };
          }))
  ]
  resume-Resumed pid m timed_out naps n own version v =
      unchanged pid _ n own (refits pid _ _ n.peerstore (λ c. cc) (λ c. cc) v)
  resume-Resumed pid m timed_out checks n own version v = elim (Bool-cases m.still_connected) [
    | inl e ↦
        rw (e, resume) (unchanged pid _ n own (refits pid _ _ n.peerstore (λ c. refl) (λ c. cc) v))
    | inr e ↦
        rw (e, resume) (unchanged pid _ n own (refits pid _ _ n.peerstore (λ c. cc) (λ c. cc) v))
  ]
  resume-Resumed pid m timed_out awaits_inbound_metadata n own version v =
      elim (Result-cases (request_meta_data m.handshake.metadata_stream).result) [
        | inr (x, e) ↦
            rw (e, resume)
              (unchanged pid _ n own (refits pid _ _ n.peerstore (λ c. cc) (λ c. cc) v))
        | inl (md, e) ↦
            rw (e, resume)
              (written pid _ _ (some (versions none)) n v.info v.stored own λ t g. record {
                info = record (v.info) { metadata = some md; last_seen = m.handshake.metadata_at };
                stored = g;
                state = v.state;
                has = record { status = v.has.status; metadata = λ _ c. cc };
              })
      ]
  resume-Resumed pid m timed_out (versions fallback) n own version v =
      saved pid fallback m.agent_version n own version v
  resume-Resumed pid m timed_out sleeps n own version v =
      rw (v.stored, resume)
        (Returns->>= (into_metadata_event v.info) _ _ _
          (into_metadata_event-Returns v.info
            record { status = λ _. v.has.status refl; metadata = λ _. v.has.metadata refl })
          (λ event _.
            sent pid m.in_time event n own (refits pid _ _ n.peerstore (λ c. cc) (λ c. cc) v)))
  resume-Resumed pid m timed_out ends n own version v =
      written_node pid _ (cleared m.ended_at) none n v.info v.stored own
        λ t e. IsCleared-IsIdle m.ended_at pid (record n { peerstore = t }) (v.info, e)
