-- ===== src/Sentry/Notifiee/Connection.antt =====
-- `Connected` of node_notifiee.go, and how handshakes move the node's own status.
use valtrack.Base.{
  ℕ, ltb, ◌≤◌, String, List, [], ◌∷◌, true, none, some, Outcome, returns, panics, ◌>>=◌, Bool-cases,
  str_eq, ◌≡◌, refl, sym, ◌∙◌, ap, subst, ◌⊎◌, inl, inr, arith, eq_iff, if◌then◌else◌,
}
use valtrack.Base.Dict
use valtrack.Sentry.Wire.{Wire, Status}
use valtrack.Sentry.Peerstore.{
  PeerInfo, Peerstore, ConnectionState, not_connected, connecting, state_of, get, put, modify,
  insert, set_state,
}
use valtrack.Sentry.Peerstore.Frame.{get-put}
use valtrack.Sentry.ReqResp.{set_status, bytes_equal}
use valtrack.Sentry.ReqResp.LocalStatus.{set_status-some}
use valtrack.Sentry.Node.{Node}
use valtrack.Sentry.Notifiee.{
  Direction, outbound, inbound, unknown, Task, handle_outbound_of, handle_inbound_of, insert_peer,
  connected, follow_head, task_of, node_of_seen,
}

pub state-cases : (s : ConnectionState) → (s ≡ connecting) ⊎ (s ≡ not_connected)
state-cases connecting = inl refl
state-cases not_connected = inr refl

-- The handlers that belong to a direction.
abbrev pub Fits : Direction → String → List Task → Type 0
Fits dir pid ts =
    ((dir ≡ outbound) → ts ≡ handle_outbound_of pid ∷ [])
    × ((dir ≡ inbound) → ts ≡ handle_inbound_of pid ∷ [])
    × ((dir ≡ unknown) → ts ≡ [])

task_of-Fits : (dir : Direction) (pid : String) → Fits dir pid (task_of dir pid)
task_of-Fits outbound pid = ((λ _. refl), (λ e. cc), (λ e. cc))
task_of-Fits inbound pid = ((λ e. cc), (λ _. refl), (λ e. cc))
task_of-Fits unknown pid = ((λ e. cc), (λ e. cc), (λ _. refl))

module _ {W : Wire} where
  abbrev node_of_returns : Outcome (List Task × Node W) → Node W → Node W
  node_of_returns (returns (_, m)) d = m
  node_of_returns (panics _) d = d

  -- The record that a new connection puts in place of what was there.
  abbrev pub fresh_info : String → W.Multiaddr → ℕ → Node W → PeerInfo W
  fresh_info pid addr now n = record {
    id = pid;
    enode = node_of_seen (Dict.lookup pid n.seen_nodes);
    last_seen = now;
    remote_addr = addr;
    status = none;
    metadata = none;
    subscribed_subnets = [];
    client_version = "";
    state = connecting;
    last_err = none;
    backoff_counter = 0;
  }

  pub insert_peer-fresh :
      (pid : String) (addr : W.Multiaddr) (dir : Direction) (t₁ t₂ : ℕ) (n : Node W)
      → (n' : Node W) × (insert_peer pid addr dir t₁ t₂ n ≡ returns (task_of dir pid, n'))
        × ((j : String)
            → get n'.peerstore j
              ≡ (if str_eq pid j then some (fresh_info pid addr t₂ n) else get n.peerstore j))
  unfolding insert set_state
  insert_peer-fresh pid addr dir t₁ t₂ n = (
    record n { peerstore = put pid new_info inserted },
    rw (there, modify),
    λ j. rw (get-put pid j new_info inserted) (outer j),
  )
    where
      new_info : PeerInfo W
      new_info = fresh_info pid addr t₂ n

      old_info : PeerInfo W
      old_info = record (fresh_info pid addr t₁ n) { state = not_connected }

      inserted : Peerstore W
      inserted = put pid old_info n.peerstore

      there : get inserted pid ≡ some old_info
      there = rw (get-put pid pid old_info n.peerstore, (eq_iff pid pid).1 refl)

      outer :
          (j : String)
          → (if str_eq pid j then some new_info else get inserted j)
            ≡ (if str_eq pid j then some new_info else get n.peerstore j)
      outer j = elim (Bool-cases (str_eq pid j)) [
        | inl e ↦ rw e
        | inr e ↦ rw (e, get-put pid j old_info n.peerstore, e)
      ]

  connected-fresh :
      (pid : String) (addr : W.Multiaddr) (dir : Direction) (t₁ t₂ : ℕ) (n : Node W)
      → state_of n.peerstore pid ≡ not_connected
      → (n' : Node W) × (connected pid addr dir t₁ t₂ n ≡ returns (task_of dir pid, n'))
        × ((j : String)
            → get n'.peerstore j
              ≡ (if str_eq pid j then some (fresh_info pid addr t₂ n) else get n.peerstore j))
  unfolding connected
  connected-fresh pid addr dir t₁ t₂ n h =
      let (n', e, g) = insert_peer-fresh pid addr dir t₁ t₂ n in (n', rw h e, g)

  connected_busy :
      (pid : String) (addr : W.Multiaddr) (dir : Direction) (t₁ t₂ : ℕ) (n : Node W)
      → state_of n.peerstore pid ≡ connecting
      → connected pid addr dir t₁ t₂ n ≡ returns ([], n)
  unfolding connected
  connected_busy pid addr dir t₁ t₂ n h = rw h

  state_of-eq :
      (pid : String) (i : PeerInfo W) (s : Peerstore W)
      → get s pid ≡ some i
      → state_of s pid ≡ i.state
  unfolding state_of
  state_of-eq pid i s e = rw (e, state_of)

  pub connected-cases :
      (pid : String) (addr : W.Multiaddr) (dir : Direction) (t₁ t₂ : ℕ) (n : Node W)
      → ((state_of n.peerstore pid ≡ connecting)
          × (connected pid addr dir t₁ t₂ n ≡ returns ([], n)))
        ⊎ ((n' : Node W) × (state_of n.peerstore pid ≡ not_connected)
            × (connected pid addr dir t₁ t₂ n ≡ returns (task_of dir pid, n'))
            × ((j : String)
                → get n'.peerstore j
                  ≡ (if str_eq pid j then some (fresh_info pid addr t₂ n) else get n.peerstore j)))
  connected-cases pid addr dir t₁ t₂ n = elim (state-cases (state_of n.peerstore pid)) [
    | inl e ↦ inl (e, connected_busy pid addr dir t₁ t₂ n e)
    | inr e ↦ let (n', r, g) = connected-fresh pid addr dir t₁ t₂ n e in inr (n', e, r, g)
  ]

  -- Connected never panics; with a peer that is being handled it does nothing, and with any other
  -- it gives the peer a new record, marked as connecting, leaves the other peers' records alone,
  -- and starts the outbound handler of the peer on an outbound connection, the inbound one on an
  -- inbound connection, and none on a connection of no known direction.
  pub connected_lem :
      (pid : String) (addr : W.Multiaddr) (dir : Direction) (t₁ t₂ : ℕ) (n : Node W)
      → ((state_of n.peerstore pid ≡ connecting)
          × (connected pid addr dir t₁ t₂ n ≡ returns ([], n)))
        ⊎ ((ts : List Task) × (n' : Node W) × (state_of n.peerstore pid ≡ not_connected)
            × (connected pid addr dir t₁ t₂ n ≡ returns (ts, n'))
            × Fits dir pid ts
            × ((j : String)
                → get n'.peerstore j
                  ≡ (if str_eq pid j then some (fresh_info pid addr t₂ n) else get n.peerstore j)))
  connected_lem pid addr dir t₁ t₂ n = elim (connected-cases pid addr dir t₁ t₂ n) [
    | inl h ↦ inl h
    | inr (n', e, r, g) ↦ inr (task_of dir pid, n', e, r, task_of-Fits dir pid, g)
  ]

  -- After a call of Connected for a peer, a second one for the same peer, from whatever address and
  -- in whichever direction, starts no handler and changes nothing.
  pub connected_twice :
      (pid : String) (a₁ a₂ : W.Multiaddr) (d₁ d₂ : Direction) (t₁ t₂ t₃ t₄ : ℕ) (n n' : Node W)
      (ts : List Task)
      → connected pid a₁ d₁ t₁ t₂ n ≡ returns (ts, n')
      → connected pid a₂ d₂ t₃ t₄ n' ≡ returns ([], n')
  connected_twice pid a₁ a₂ d₁ d₂ t₁ t₂ t₃ t₄ n n' ts h =
      connected_busy pid a₂ d₂ t₃ t₄ n' (elim (connected-cases pid a₁ d₁ t₁ t₂ n) [
        | inl (e, r) ↦ subst (λ m. state_of m.peerstore pid ≡ connecting) (same r) e
        | inr (m, _, r, g) ↦
            subst (λ x. state_of x.peerstore pid ≡ connecting) (same r)
              (state_of-eq pid (fresh_info pid a₁ t₂ n) m.peerstore
                (rw (g pid, (eq_iff pid pid).1 refl)))
      ])
    where
      same : {us : List Task} {m : Node W} → connected pid a₁ d₁ t₁ t₂ n ≡ returns (us, m) → m ≡ n'
      same {m} r = ap (λ o. node_of_returns o m) (sym r ∙ h)

  pub follow_head-newer :
      (st own : Status) (n : Node W)
      → n.req_resp.status ≡ some own
      → bytes_equal st.fork_digest n.fork_digest ≡ true
      → ltb own.head_slot st.head_slot ≡ true
      → follow_head st n ≡ returns (record n { req_resp = set_status st n.req_resp })
  unfolding follow_head
  follow_head-newer st own n h e x = ground arith

  follow_head-head_slot :
      (st own : Status) (n : Node W)
      → n.req_resp.status ≡ some own
      → (n' : Node W) × (own' : Status) × (follow_head st n ≡ returns n')
        × (n'.req_resp.status ≡ some own')
        × (own'.fork_digest ≡ own.fork_digest)
        × (own.head_slot ≤ own'.head_slot)
  unfolding follow_head
  follow_head-head_slot st own n h = elim (Bool-cases (bytes_equal st.fork_digest n.fork_digest)) [
    | inr e ↦ (n, own, rw e, h, refl, omega arith)
    | inl e ↦ (elim (Bool-cases (ltb own.head_slot st.head_slot)) [
      | inr x ↦ (n, own, ground arith, h, refl, omega arith)
      | inl x ↦ (elim (set_status-some st own n.req_resp h) [
        | inl (d, q) ↦ (
          record n { req_resp = set_status st n.req_resp },
          st,
          follow_head-newer st own n h e x,
          ap (λ r. r.status) q,
          sym d,
          ground arith,
        )
        | inr (d, q) ↦ (
          record n { req_resp = set_status st n.req_resp },
          own,
          follow_head-newer st own n h e x,
          ap (λ r. r.status) q ∙ h,
          refl,
          omega arith,
        )
      ])
    ])
  ]

  -- The statuses that peers answer with in one handshake after the other.
  unfoldable pub follow_heads : List Status → Node W → Outcome (Node W)
  follow_heads [] n = returns n
  follow_heads (st ∷ sts) n = follow_head st n >>= follow_heads sts

  -- When a node that has a status takes any sequence of answered statuses, it does not panic, its
  -- head slot never falls, and its fork digest never changes.
  pub follow_heads-head_slot :
      (sts : List Status) (own : Status) (n : Node W)
      → n.req_resp.status ≡ some own
      → (n' : Node W) × (own' : Status) × (follow_heads sts n ≡ returns n')
        × (n'.req_resp.status ≡ some own')
        × (own'.fork_digest ≡ own.fork_digest)
        × (own.head_slot ≤ own'.head_slot)
  unfolding follow_heads
  follow_heads-head_slot [] own n h = (n, own, refl, h, refl, omega arith)
  follow_heads-head_slot (st ∷ sts) own n h =
      let (n₁, own₁, e, k, d, l) = follow_head-head_slot st own n h in
      let (n₂, own₂, e', k', d', l') = follow_heads-head_slot sts own₁ n₁ k in
      (n₂, own₂, rw e e', k', d' ∙ d, omega arith)
