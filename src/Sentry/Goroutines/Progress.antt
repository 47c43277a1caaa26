-- ===== src/Sentry/Goroutines/Progress.antt =====
-- That the handlers of pkg/ethereum/node_notifiee.go always can go on, and that they come to an end.
use valtrack.Base.{
  ℕ, ◌<◌, ◌≤◌, String, List, [], ◌∷◌, length, In, Bool, true, false, Option, none, some, ok, Error,
  Outcome, returns, panics, ◌>>=◌, Returns-eq, Result-cases, Option-cases, Bool-cases, ◌≡◌, ◌≢◌,
  refl, subst, ◌⊎◌, inl, inr, arith,
}
use valtrack.Sentry.Wire.{Wire, AddrInfo}
use valtrack.Sentry.Peerstore.{get, put, set_backoff, backed_off, into_metadata_event}
use valtrack.Sentry.ReqResp.{request_status, ping, request_meta_data}
use valtrack.Sentry.Node.{Node}
use valtrack.Sentry.Notifiee.{Meeting, follow_head, save_client_version, clean_up}
use valtrack.Sentry.System.{reconnect}
use valtrack.Sentry.Goroutines.{
  Phase, dials, awaits_status, follows, awaits_pong, awaits_metadata, fails, polls, naps, checks,
  awaits_inbound_metadata, versions, sleeps, ends, resume, Goroutines, Reaches, IsFresh,
}
use valtrack.Sentry.Goroutines.Resume.{Fits, Remains, resume-Resumed}
use valtrack.Sentry.Goroutines.Orderly.{Reaches-IsOrderly}

-- The most turns that a handler still takes, once its context has ended if it waits for a status.
abbrev pub turns_left : Phase → ℕ
turns_left dials = 8
turns_left (awaits_status _) = 7
turns_left (follows _) = 6
turns_left (awaits_pong _) = 5
turns_left awaits_metadata = 4
turns_left (fails _) = 2
turns_left naps = 8
turns_left polls = 7
turns_left checks = 5
turns_left awaits_inbound_metadata = 4
turns_left (versions _) = 3
turns_left sleeps = 2
turns_left ends = 1

abbrev turns_after : Option Phase → ℕ
turns_after none = 0
turns_after (some ph) = turns_left ph

module _ {W : Wire} where
  -- From a fresh node, whatever turns its handlers, new connections, subscriptions, status
  -- requests, ticks and attempts to reconnect have taken in whatever order without a panic, the
  -- agent versions that the host had being texts and Connected being one turn, each handler that
  -- has not ended can take its next turn without a panic, whatever the network answers, if the
  -- agent version the host may have is a text; then its peer's record fits its next phase, or is
  -- that of an idle peer if it has ended.
  pub Reaches-resume :
      (s t : Goroutines W) (pid : String) (ph : Phase) (m : Meeting W) (timed_out : Bool)
      → IsFresh s
      → Reaches s t
      → In (pid, ph) t.running
      → m.agent_version ≢ ok none
      → (next : Option Phase) × (n : Node W) × (resume pid m timed_out ph t.node
          ≡ returns (next, n))
        × Remains pid next n
  Reaches-resume s t pid ph m timed_out v r i version =
      let o = Reaches-IsOrderly s t v r in
      let ((next, n), e, resumed) =
        Returns-eq (resume pid m timed_out ph t.node) _
          (resume-Resumed pid m timed_out ph t.node o.own version (o.fits (pid, ph) i)) in
      (next, n, e, resumed.remains)

  -- From a fresh node, whatever turns are taken in whatever order without a panic, the agent
  -- versions being texts and Connected being one turn, an attempt to reconnect to a peer that is on
  -- the channel does not panic, whether or not it fails.
  pub Reaches-reconnect :
      (s t : Goroutines W) (info : AddrInfo W) (failed : Option Error) (now : ℕ)
      → IsFresh s
      → Reaches s t
      → In info t.reconnect_chan
      → (n : Node W) × (reconnect info failed now t.node ≡ returns n)
  unfolding reconnect set_backoff
  Reaches-reconnect s t info none now v r i = (t.node, refl)
  Reaches-reconnect s t info (some e) now v r i =
      elim (Option-cases (get t.node.peerstore info.id)) [
        | inl gone ↦ absurd ((Reaches-IsOrderly s t v r).queued info i gone)
        | inr (j, there) ↦ (
          record (t.node) { peerstore = put info.id (backed_off e now j) t.node.peerstore },
          rw (there, set_backoff) refl,
        )
      ]

  falls :
      {A : Type 0} (o : Outcome A) (x : A → Option Phase) (f : A → Node W) (r : Option Phase)
      (n : Node W) (k : ℕ)
      → ◌≡◌ {A = Outcome (Option Phase × Node W)} (o >>= λ a. returns (x a, f a)) (returns (r, n))
      → ((a : A) → turns_after (x a) < k)
      → turns_after r < k
  falls (returns a) x f r n k h l =
      let same : x a ≡ r = ground arith in subst (λ y. turns_after y < k) same (l a)
  falls (panics c) x f r n k h l = cc

  passes :
      (x r : Option Phase) (m n : Node W) (k : ℕ)
      → ◌≡◌ {A = Outcome (Option Phase × Node W)} (returns (x, m)) (returns (r, n))
      → turns_after x < k
      → turns_after r < k
  passes x r m n k h l = falls (returns tt) (λ _. x) (λ _. m) r n k h (λ _. l)

  resume-turns_left :
      (pid : String) (m : Meeting W) (timed_out : Bool) (ph : Phase) (r : Option Phase)
      (n n' : Node W)
      → resume pid m timed_out ph n ≡ returns (r, n')
      → ((timed_out ≡ false) × (ph ≡ polls)) ⊎ (turns_after r < turns_left ph)
  unfolding resume
  resume-turns_left pid m timed_out dials r n n' h = inr (elim (Bool-cases m.has_address) [
    | inl e ↦ passes _ r n n' 8 (rw (e, resume) at h) (omega arith)
    | inr e ↦ passes _ r n n' 8 (rw (e, resume) at h) (omega arith)
  ])
  resume-turns_left pid m timed_out (awaits_status asked) r n n' h =
      inr (elim (Result-cases (request_status asked m.handshake.status_stream).result) [
        | inr (x, e) ↦ passes _ r n n' 7 (rw (e, resume) at h) (omega arith)
        | inl (st, e) ↦ falls _ _ _ r n' 7 (rw (e, resume) at h) (λ _. omega arith)
      ])
  resume-turns_left pid m timed_out (follows st) r n n' h =
      inr (falls (follow_head st n) _ _ r n' 6 h (λ _. omega arith))
  resume-turns_left pid m timed_out (awaits_pong asked) r n n' h =
      inr (elim (Result-cases (ping asked m.handshake.ping_stream).result) [
        | inr (x, e) ↦ passes _ r n n' 5 (rw (e, resume) at h) (omega arith)
        | inl (u, e) ↦ passes _ r n n' 5 (rw (e, resume) at h) (omega arith)
      ])
  resume-turns_left pid m timed_out awaits_metadata r n n' h =
      inr (elim (Result-cases (request_meta_data m.handshake.metadata_stream).result) [
        | inr (x, e) ↦ passes _ r n n' 4 (rw (e, resume) at h) (omega arith)
        | inl (md, e) ↦ falls _ _ _ r n' 4 (rw (e, resume) at h) (λ _. omega arith)
      ])
  resume-turns_left pid m timed_out (fails x) r n n' h =
      inr (falls (set_backoff pid x m.failed_at n.peerstore) _ _ r n' 2 h (λ _. omega arith))
  resume-turns_left pid m true polls r n n' h = inr (passes _ r n n' 7 h (omega arith))
  resume-turns_left pid m false polls r n n' h = inl (refl, refl)
  resume-turns_left pid m timed_out naps r n n' h = inr (passes _ r n n' 8 h (omega arith))
  resume-turns_left pid m timed_out checks r n n' h = inr (elim (Bool-cases m.still_connected) [
    | inl e ↦ passes _ r n n' 5 (rw (e, resume) at h) (omega arith)
    | inr e ↦ passes _ r n n' 5 (rw (e, resume) at h) (omega arith)
  ])
  resume-turns_left pid m timed_out awaits_inbound_metadata r n n' h =
      inr (elim (Result-cases (request_meta_data m.handshake.metadata_stream).result) [
        | inr (x, e) ↦ passes _ r n n' 4 (rw (e, resume) at h) (omega arith)
        | inl (md, e) ↦ falls _ _ _ r n' 4 (rw (e, resume) at h) (λ _. omega arith)
      ])
  resume-turns_left pid m timed_out (versions fallback) r n n' h =
      inr
        (falls (save_client_version pid fallback m.agent_version n) _ _ r n' 3 h (λ _. omega arith))
  resume-turns_left pid m timed_out sleeps r n n' h =
      inr (elim (Option-cases (get n.peerstore pid)) [
        | inl e ↦ absurd (ground arith)
        | inr (info, e) ↦
            falls (into_metadata_event info) _ _ r n' 2 (rw (e, resume) at h) (λ _. omega arith)
      ])
  resume-turns_left pid m timed_out ends r n n' h =
      inr (falls (clean_up pid m n) _ _ r n' 1 h (λ _. omega arith))

  -- One handler's turns, each on the node as the other goroutines have left it: the phase it comes to.
  unfoldable pub course : String → List (Meeting W × Bool × Node W) → Phase → Outcome (Option Phase)
  course pid [] ph = returns (some ph)
  course pid ((m, timed_out, n) ∷ ts) ph = do
    (next, n') ← resume pid m timed_out ph n
    elim next [ none ↦ returns none | some ph' ↦ course pid ts ph' ]

  -- At each turn the peer's record fits the phase that the handler has come to, the node has a status,
  -- the agent version is a string, and a handler that waits for a status finds that its context has ended.
  abbrev pub IsSupported : String → List (Meeting W × Bool × Node W) → Phase → Type 0
  IsSupported pid [] ph = Unit
  IsSupported pid ((m, timed_out, n) ∷ ts) ph =
      (timed_out ≡ true)
      × (n.req_resp.status ≢ none)
      × (m.agent_version ≢ ok none)
      × Fits pid ph n.peerstore
      × ((ph' : Phase) (n' : Node W)
          → resume pid m timed_out ph n ≡ returns (some ph', n')
          → IsSupported pid ts ph')

  -- If at each of its turns a handler finds its peer's record as its phase needs it, the node has a
  -- status, the agent version is a text, and the context of a handler that waits for a status has
  -- ended, then the handler has ended, without a panic, after at most as many turns as its phase
  -- still takes, which are never more than eight.
  pub course-ends :
      (pid : String) (ts : List (Meeting W × Bool × Node W)) (ph : Phase)
      → IsSupported pid ts ph
      → turns_left ph ≤ length ts
      → course pid ts ph ≡ returns none
  unfolding course
  course-ends pid [] ph sup enough = absurd (some_turn ph (omega arith))
    where
      some_turn : (ph : Phase) → ¬ (turns_left ph ≤ 0)
      some_turn dials l = omega arith
      some_turn (awaits_status _) l = omega arith
      some_turn (follows _) l = omega arith
      some_turn (awaits_pong _) l = omega arith
      some_turn awaits_metadata l = omega arith
      some_turn (fails _) l = omega arith
      some_turn naps l = omega arith
      some_turn polls l = omega arith
      some_turn checks l = omega arith
      some_turn awaits_inbound_metadata l = omega arith
      some_turn (versions _) l = omega arith
      some_turn sleeps l = omega arith
      some_turn ends l = omega arith
  course-ends pid ((m, timed_out, n) ∷ ts) ph (late, own, version, fits, rest) enough =
      let ((next, n'), e, _) =
        Returns-eq (resume pid m timed_out ph n) _
          (resume-Resumed pid m timed_out ph n own version fits) in
      rw e (elim (resume-turns_left pid m timed_out ph next n n' e) [
        | inl (early, _) ↦ absurd (ground arith)
        | inr fewer ↦
            on next fewer e (λ ph' l k. course-ends pid ts ph' (rest ph' n' k) (omega arith))
      ])
    where
      on :
          {n' : Node W} (next : Option Phase)
          → turns_after next < turns_left ph
          → resume pid m timed_out ph n ≡ returns (next, n')
          → ((ph' : Phase)
              → turns_left ph' < turns_left ph
              → resume pid m timed_out ph n ≡ returns (some ph', n')
              → course pid ts ph' ≡ returns none)
          → (elim next [ none ↦ returns none | some ph' ↦ course pid ts ph' ]) ≡ returns none
      on none fewer k go = refl
      on (some ph') fewer k go = go ph' fewer k
