-- ===== src/Sentry/Goroutines/Orderly.antt =====
-- What holds of the handlers of pkg/ethereum/node_notifiee.go whatever turns they and the other
-- goroutines take.
use valtrack.Base.{
  ℕ, String, str_eq, eq_iff, List, [], ◌∷◌, ◌++◌, All, In, In-append, In-append_right, none, some,
  returns, ◌≡◌, ◌≢◌, refl, sym, ap, ◌∙◌, subst, inl, inr, arith, some-known, if◌then◌else◌, true,
}
use mathlib.Core.List.{append-nil}
use valtrack.Sentry.Wire.{Wire}
use valtrack.Sentry.Peerstore.{
  Peerstore, get, state_of, connecting, not_connected, peers_to_reconnect,
}
use valtrack.Sentry.Peerstore.Reconnect.{node_backoff, In-peers_to_reconnect}
use valtrack.Sentry.Peerstore.Validity.{new_peerstore-IsValid}
use valtrack.Sentry.Node.{Node}
use valtrack.Sentry.Notifiee.{Direction, outbound, inbound, unknown, Task, connected, task_of}
use valtrack.Sentry.Notifiee.Calls.{IsDescribed, NodeLeads, led, stays, connected-Leads}
use valtrack.Sentry.Notifiee.Connection.{fresh_info, connected-cases}
use valtrack.Sentry.System.Moves.{connected-req_resp, reconnect-Leads}
use valtrack.Sentry.Goroutines.{
  Phase, dials, polls, knows_status, knows_metadata, starts, resume, Goroutines, Turn, connects,
  resumes, subscribes, answers, ticks, retries, Reaches, stay, turn, IsFresh, with_store,
}
use valtrack.Sentry.Goroutines.Resume.{Fits, Resumed, resume-Resumed}
use valtrack.Sentry.Goroutines.Leads.{resume-Leads}
use valtrack.Sentry.Goroutines.Rest.{
  none_called, Quiet-Leads, filter-Quiet, status_handler-Quiet, reconnect-Quiet,
}
use valtrack.Sentry.Goroutines.Turns.{
  Apart, Apart-join, IsOrderly, str_eq-ne, Returns-at, led-IsOrderly, Quiet-IsOrderly,
  resumed-IsOrderly,
}

Apart-last :
    (gs : List (String × Phase)) (g : String × Phase)
    → ((x : String × Phase) → In x gs → x.0 ≢ g.0)
    → Apart gs
    → Apart (gs ++ (g ∷ []))
Apart-last gs g off apart =
    Apart-join gs [] g (λ x i. off x (subst (In x) (append-nil gs) i))
      (subst Apart (sym (append-nil gs)) apart)

module _ {W : Wire} where
  state_of-Fits :
      (pid : String) (ph : Phase) (s : Peerstore W) → Fits pid ph s → state_of s pid ≡ connecting
  unfolding state_of
  state_of-Fits pid ph s v = rw (v.stored, state_of) v.state

  -- No handler has a peer that is not connected.
  unhandled :
      (s : Goroutines W) (pid : String) (x : String × Phase)
      → IsOrderly s
      → state_of s.node.peerstore pid ≡ not_connected
      → In x s.running
      → x.0 ≢ pid
  unhandled s pid x v idle i e =
      let busy = state_of-Fits x.0 x.1 s.node.peerstore (v.fits x i) in
      cc (ap (state_of s.node.peerstore) e, busy, idle)

  -- A new handler of a peer that had none.
  started-IsOrderly :
      (s : Goroutines W) (pid : String) (gs : List (String × Phase)) (n : Node W)
      → NodeLeads s.node n
      → n.req_resp.status ≢ none
      → Apart (s.running ++ gs)
      → ((g : String × Phase) → In g gs → Fits g.0 g.1 n.peerstore)
      → ((k : String) → k ≢ pid → get n.peerstore k ≡ get s.node.peerstore k)
      → ((x : String × Phase) → In x s.running → x.0 ≢ pid)
      → IsOrderly s
      → IsOrderly (record s { node = n; running = s.running ++ gs })
  started-IsOrderly s pid gs n l own apart new others off v =
      led-IsOrderly s (record s { node = n; running = s.running ++ gs }) l own apart
        (λ g i. elim (In-append g s.running gs i) [
          | inl old ↦
              let w = v.fits g old in
              record {
                info = w.info;
                stored = others g.0 (off g old) ∙ w.stored;
                state = w.state;
                has = w.has;
              }
          | inr j ↦ new g j
        ])
        (λ a i. inl i) v

  fresh-Fits :
      (pid : String) (ph : Phase) (addr : W.Multiaddr) (now : ℕ) (n : Node W) (s : Peerstore W)
      → get s pid ≡ some (fresh_info pid addr now n)
      → knows_status ph ≢ true
      → knows_metadata ph ≢ true
      → Fits pid ph s
  fresh-Fits pid ph addr now n s e a b = record {
    info = fresh_info pid addr now n;
    stored = e;
    state = refl;
    has = record { status = λ c. absurd (a c); metadata = λ c. absurd (b c) };
  }

  -- What a new connection puts in the store, and the handler it starts.
  connected-IsOrderly :
      (s : Goroutines W) (pid : String) (addr : W.Multiaddr) (dir : Direction) (t₂ : ℕ) (n : Node W)
      → NodeLeads s.node n
      → n.req_resp.status ≢ none
      → state_of s.node.peerstore pid ≡ not_connected
      → ((j : String)
          → get n.peerstore j ≡ (
              if str_eq pid j
              then some (fresh_info pid addr t₂ s.node)
              else get s.node.peerstore j))
      → IsOrderly s
      → IsOrderly (record s { node = n; running = s.running ++ starts (task_of dir pid) })
  connected-IsOrderly s pid addr dir t₂ n l own idle g v = by_direction dir
    where
      here : get n.peerstore pid ≡ some (fresh_info pid addr t₂ s.node)
      here = rw (g pid, (eq_iff pid pid).1 refl)

      others : (k : String) → k ≢ pid → get n.peerstore k ≡ get s.node.peerstore k
      others k off = rw (g k, str_eq-ne pid k off)

      off : (x : String × Phase) → In x s.running → x.0 ≢ pid
      off x i = unhandled s pid x v idle i

      one :
          (ph : Phase)
          → knows_status ph ≢ true
          → knows_metadata ph ≢ true
          → IsOrderly (record s { node = n; running = s.running ++ ((pid, ph) ∷ []) })
      one ph a b =
          started-IsOrderly s pid ((pid, ph) ∷ []) n l own
            (Apart-last s.running (pid, ph) off v.apart)
            (λ x i. elim i [
              | inl e ↦
                  subst (λ y. Fits y.0 y.1 n.peerstore) (sym e)
                    (fresh-Fits pid ph addr t₂ s.node n.peerstore here a b)
              | inr j ↦ absurd j
            ])
            others off v

      by_direction :
          (dir : Direction)
          → IsOrderly (record s { node = n; running = s.running ++ starts (task_of dir pid) })
      by_direction outbound = one dials (λ e. cc) (λ e. cc)
      by_direction inbound = one polls (λ e. cc) (λ e. cc)
      by_direction unknown =
          started-IsOrderly s pid [] n l own (rw (append-nil s.running) v.apart) (λ x i. absurd i)
            others off v

  connects-IsOrderly :
      (s : Goroutines W) (pid : String) (addr : W.Multiaddr) (dir : Direction) (t₁ t₂ : ℕ)
      (ts : List Task) (n : Node W)
      → connected pid addr dir t₁ t₂ s.node ≡ returns (ts, n)
      → IsOrderly s
      → IsOrderly (record s { node = n; running = s.running ++ starts ts })
  connects-IsOrderly s pid addr dir t₁ t₂ ts n h v =
      let l = connected-Leads pid addr dir t₁ t₂ s.node n ts h in
      let own : n.req_resp.status ≢ none =
        rw (connected-req_resp pid addr dir t₁ t₂ s.node n ts h) v.own in
      elim (connected-cases pid addr dir t₁ t₂ s.node) [
        | inl (_, r) ↦
            let (none_started, same) : ([] ≡ ts) × (s.node ≡ n) = ground (arith, r, h) in
            subst (λ us. IsOrderly (record s { node = n; running = s.running ++ starts us }))
              none_started
              (subst (λ gs. IsOrderly (record s { node = n; running = gs }))
                (sym (append-nil s.running))
                (Quiet-IsOrderly s n s.reconnect_chan l own
                  (none_called (ap (λ x. x.peerstore) same)) (λ a i. inl i) v))
        | inr (m, idle, r, g) ↦
            let (started, same) : (task_of dir pid ≡ ts) × (m ≡ n) = ground (arith, r, h) in
            subst (λ us. IsOrderly (record s { node = n; running = s.running ++ starts us }))
              started
              (connected-IsOrderly s pid addr dir t₂ n l own idle
                (subst
                  (λ x.
                    (j : String)
                    → get x.peerstore j ≡ (
                        if str_eq pid j
                        then some (fresh_info pid addr t₂ s.node)
                        else get s.node.peerstore j))
                  same g)
                v)
      ]

  -- Whatever turn is taken, the handlers stay orderly.
  turn-IsOrderly : (s t : Goroutines W) → Turn s t → IsOrderly s → IsOrderly t
  turn-IsOrderly s t (connects pid addr dir t₁ t₂ ts n' h e) v =
      rw e (connects-IsOrderly s pid addr dir t₁ t₂ ts n' h v)
  turn-IsOrderly s t (resumes pid ph before after m timed_out next n' at version h e) v =
      let fits =
        v.fits (pid, ph)
          (rw at (In-append_right (pid, ph) before ((pid, ph) ∷ after) (inl refl))) in
      rw e (
        resumed-IsOrderly s pid ph before after next n' at
          (resume-Leads pid m timed_out ph next s.node n' h)
          (Returns-at (resume pid m timed_out ph s.node) (next, n') (Resumed pid s.node) h
            (resume-Resumed pid m timed_out ph s.node v.own version fits))
          v)
  turn-IsOrderly s t (subscribes pid topics now store h e) v =
      let q = filter-Quiet pid topics now s.node.peerstore store h in
      rw e (
        Quiet-IsOrderly s (with_store s.node store) s.reconnect_chan
          (led s.node (with_store s.node store) (Quiet-Leads s.node.peerstore store q) refl) v.own q
          (λ a i. inl i) v)
  turn-IsOrderly s t (answers pid now stream x store h e) v =
      let q = status_handler-Quiet pid now s.node stream x store h in
      rw e (
        Quiet-IsOrderly s (with_store s.node store) s.reconnect_chan
          (led s.node (with_store s.node store) (Quiet-Leads s.node.peerstore store q) refl) v.own q
          (λ a i. inl i) v)
  turn-IsOrderly s t (ticks now e) v = rw e (
      Quiet-IsOrderly s s.node (s.reconnect_chan ++ peers_to_reconnect now s.node.peerstore)
        (stays s.node s.node refl refl) v.own (none_called refl)
        (λ a i. elim (In-append a s.reconnect_chan (peers_to_reconnect now s.node.peerstore) i) [
          | inl old ↦ inl old
          | inr new ↦
              let (_, stored, _, _) =
                (In-peers_to_reconnect s.node.peerstore now a v.valid).0 new in
              inr (some-known stored)
        ])
        v)
  turn-IsOrderly s t (retries info rest failed now n' at h e) v =
      let (l, same) = reconnect-Leads info failed now s.node n' h in
      rw e (
        Quiet-IsOrderly s n' rest l (rw same v.own) (reconnect-Quiet info failed now s.node n' h)
          (λ a i. inl (rw at (inr i))) v)

  IsFresh-IsOrderly : (s : Goroutines W) → IsFresh s → IsOrderly s
  IsFresh-IsOrderly s v = record {
    own = v.own;
    valid = rw v.store (new_peerstore-IsValid node_backoff);
    described = subst (All IsDescribed) (sym v.unsent) tt;
    apart = rw v.idle tt;
    fits = λ g h. absurd (subst (In g) v.idle h);
    queued = λ a h. absurd (subst (In a) v.drained h);
  }

  -- From a fresh node, whatever turns are taken in whatever order without a panic, the agent
  -- versions being texts and Connected being one turn, no two handlers have the same peer, each
  -- handler's peer has a record that is marked as connecting and has the status and the metadata
  -- that its phase relies on, the peers to reconnect to are in the store, the store is valid, the
  -- events on the channel have metadata, and the node has a status.
  pub Reaches-IsOrderly : (s t : Goroutines W) → IsFresh s → Reaches s t → IsOrderly t
  Reaches-IsOrderly s t v stay = IsFresh-IsOrderly s v
  Reaches-IsOrderly s t v (turn r x) = turn-IsOrderly _ t x (Reaches-IsOrderly s _ v r)
