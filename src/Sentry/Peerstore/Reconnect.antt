-- ===== src/Sentry/Peerstore/Reconnect.antt =====
-- PeersToReconnect of peerstore.go.
use valtrack.Base.{
  ℕ, i64_max, ◌+◌, ◌-◌, ◌*◌, ◌<◌, ◌≤◌, pos, ◌<ℤ◌, to_int64, String, List, [], ◌∷◌, map, none, some,
  ◌≡◌, refl, sym, subst, ◌⊎◌, ◌↔◌, inl, inr, arith, In, NoRepeat, In-append, In-append_left,
  In-append_right,
}
use Prim.Native.Nat.{min}
use valtrack.Base.Dict
use valtrack.Sentry.Wire.{Wire, AddrInfo}
use valtrack.Sentry.Peerstore.{
  not_connected, PeerInfo, Peerstore, get, second, epoch_duration, time_since, reconnect_after,
  reconnects, peers_to_reconnect_from, peers_to_reconnect,
}
use valtrack.Sentry.Peerstore.Validity.{InfoIsValid, IsValid}

module _ {W : Wire} where
  -- The peer is not being handled, and either its backoff has run out, or its last exchange was no
  -- failure and an epoch has passed since.
  abbrev pub IsDue : ℕ → ℕ → PeerInfo W → Type 0
  IsDue backoff now i =
      (i.state ≡ not_connected)
      × (((0 < i.backoff_counter)
            × (reconnect_after backoff i.backoff_counter <ℤ time_since now i.last_seen))
          ⊎ ((i.last_err ≡ none) × (pos epoch_duration <ℤ time_since now i.last_seen)))

  abbrev pub Names : AddrInfo W → String → PeerInfo W → Type 0
  Names a k i = (a.id ≡ k) × (a.addrs ≡ i.remote_addr ∷ [])

  In-reconnects :
      (backoff now : ℕ) (k : String) (i : PeerInfo W) (a : AddrInfo W)
      → In a (reconnects backoff now k i)
      → Names a k i × IsDue backoff now i
  unfolding reconnects
  In-reconnects backoff now k i a h = ground arith

  reconnects-In :
      (backoff now : ℕ) (k : String) (i : PeerInfo W) (a : AddrInfo W)
      → Names a k i
      → IsDue backoff now i
      → In a (reconnects backoff now k i)
  unfolding reconnects
  reconnects-In backoff now k i a n d = ground arith

  In-peers_to_reconnect_from :
      (backoff now : ℕ) (m : List (String × PeerInfo W)) (a : AddrInfo W)
      → In a (peers_to_reconnect_from backoff now m)
      → (k : String) × (i : PeerInfo W) × In (k, i) m × Names a k i × IsDue backoff now i
  unfolding peers_to_reconnect_from
  In-peers_to_reconnect_from backoff now [] a h = absurd h
  In-peers_to_reconnect_from backoff now ((k, i) ∷ m) a h =
      elim (In-append a (reconnects backoff now k i) _ h) [
        | inl here ↦ let (n, d) = In-reconnects backoff now k i a here in (k, i, inl refl, n, d)
        | inr there ↦
            let (k', i', e, n, d) = In-peers_to_reconnect_from backoff now m a there in
            (k', i', inr e, n, d)
      ]

  peers_to_reconnect_from-In :
      (backoff now : ℕ) (m : List (String × PeerInfo W)) (a : AddrInfo W) (k : String)
      (i : PeerInfo W)
      → In (k, i) m
      → Names a k i
      → IsDue backoff now i
      → In a (peers_to_reconnect_from backoff now m)
  unfolding peers_to_reconnect_from
  peers_to_reconnect_from-In backoff now [] a k i e n d = absurd e
  peers_to_reconnect_from-In backoff now ((k', i') ∷ m) a k i (inl e) n d = In-append_left a _ _ (
      reconnects-In backoff now k' i' a (subst (λ p. Names a p.0 p.1) e n)
        (subst (λ p. IsDue backoff now p.1) e d))
  peers_to_reconnect_from-In backoff now ((k', i') ∷ m) a k i (inr e) n d =
      In-append_right a (reconnects backoff now k' i') _
        (peers_to_reconnect_from-In backoff now m a k i e n d)

  -- In a valid store the peers to reconnect to are exactly the peers that are due, each with the
  -- address on record.
  pub In-peers_to_reconnect :
      (s : Peerstore W) (now : ℕ) (a : AddrInfo W)
      → IsValid s
      → In a (peers_to_reconnect now s) ↔ (
          (i : PeerInfo W) × (get s a.id ≡ some i)
          × (a.addrs ≡ i.remote_addr ∷ [])
          × IsDue s.default_backoff now i)
  unfolding peers_to_reconnect get
  In-peers_to_reconnect s now a v = (there, back)
    where
      there :
          In a (peers_to_reconnect now s)
          → (i : PeerInfo W) × (get s a.id ≡ some i)
            × (a.addrs ≡ i.remote_addr ∷ [])
            × IsDue s.default_backoff now i
      there h =
          let (k, i, e, n, d) = In-peers_to_reconnect_from s.default_backoff now s.peers a h in
          (i, rw n.0 (Dict.In-lookup k i s.peers v.distinct e), n.1, d)

      back :
          (i : PeerInfo W) × (get s a.id ≡ some i)
            × (a.addrs ≡ i.remote_addr ∷ [])
            × IsDue s.default_backoff now i
          → In a (peers_to_reconnect now s)
      back (i, e, r, d) =
          peers_to_reconnect_from-In s.default_backoff now s.peers a a.id i
            (Dict.lookup-In a.id i s.peers e) (refl, r) d

  -- A valid record is due for one reason at most.
  reconnects_once :
      (backoff now : ℕ) (k : String) (i : PeerInfo W)
      → InfoIsValid k i
      → (reconnects backoff now k i ≡ [])
        ⊎ (reconnects backoff now k i ≡ (record { id = k; addrs = i.remote_addr ∷ [] }) ∷ [])
  unfolding reconnects
  reconnects_once backoff now k i v = ground arith

  In-ids :
      (k : String) (l : List (AddrInfo W))
      → In k (map (λ a. a.id) l)
      → (a : AddrInfo W) × In a l × (a.id ≡ k)
  In-ids k [] h = absurd h
  In-ids k (a ∷ l) (inl e) = (a, inl refl, sym e)
  In-ids k (a ∷ l) (inr h) = let (b, m, e) = In-ids k l h in (b, inr m, e)

  peers_to_reconnect_from-NoRepeat :
      (backoff now : ℕ) (m : List (String × PeerInfo W))
      → Dict.Distinct m
      → ((k : String) (i : PeerInfo W) → In (k, i) m → InfoIsValid k i)
      → NoRepeat (map (λ a. a.id) (peers_to_reconnect_from backoff now m))
  unfolding peers_to_reconnect_from
  peers_to_reconnect_from-NoRepeat backoff now [] d v = tt
  peers_to_reconnect_from-NoRepeat backoff now ((k, i) ∷ m) d v =
      let rest = peers_to_reconnect_from-NoRepeat backoff now m d.1 (λ j x h. v j x (inr h)) in
      elim (reconnects_once backoff now k i (v k i (inl refl))) [
        | inl e ↦ rw e rest
        | inr e ↦ rw e (fresh, rest)
      ]
    where
      fresh : ¬ In k (map (λ a. a.id) (peers_to_reconnect_from backoff now m))
      fresh h =
          let (a, l, e) = In-ids k _ h in
          let (j, x, p, n, _) = In-peers_to_reconnect_from backoff now m a l in
          cc (Dict.In-lookup j x m d.1 p, n.0, e, d.0)

  -- In a valid store no peer is named twice among the peers to reconnect to.
  pub peers_to_reconnect-NoRepeat :
      (s : Peerstore W) (now : ℕ)
      → IsValid s
      → NoRepeat (map (λ a. a.id) (peers_to_reconnect now s))
  unfolding peers_to_reconnect get
  peers_to_reconnect-NoRepeat s now v =
      peers_to_reconnect_from-NoRepeat s.default_backoff now s.peers v.distinct
        (λ k i h. v.records k i (Dict.In-lookup k i s.peers v.distinct h))

-- The backoff with which the node makes its store, `NewPeerstore(30 * time.Second)`.
abbrev pub node_backoff : ℕ
node_backoff = 30 * second

after_one : reconnect_after node_backoff 1 <ℤ pos 0
unfolding reconnect_after to_int64
after_one = omega arith

after_two : reconnect_after node_backoff 2 ≡ pos 4659767778871345152
unfolding reconnect_after to_int64
after_two = refl

time_since_nonneg : (now t : ℕ) → t ≤ now → (n : ℕ) × (time_since now t ≡ pos n) × (n ≤ now - t)
unfolding time_since
time_since_nonneg now t h = (min (now - t) i64_max, ground arith, omega arith)

pub time_since_later :
    (now t : ℕ) → t + epoch_duration < now → pos epoch_duration <ℤ time_since now t
unfolding time_since
time_since_later now t h = ground arith

module _ {W : Wire} where
  -- In a valid store with the node's backoff of 30 seconds, a peer that is not being handled, has
  -- failed once and was seen no later than now is among the peers to reconnect to, however short
  -- the time since it was seen.
  pub backoff_of_one_expires_at_once :
      (s : Peerstore W) (now : ℕ) (k : String) (i : PeerInfo W)
      → IsValid s
      → s.default_backoff ≡ node_backoff
      → get s k ≡ some i
      → i.state ≡ not_connected
      → i.last_seen ≤ now
      → i.backoff_counter ≡ 1
      → In (record { id = k; addrs = i.remote_addr ∷ [] }) (peers_to_reconnect now s)
  backoff_of_one_expires_at_once s now k i v b e st h c =
      let (n, since, _) = time_since_nonneg now i.last_seen h in
      (In-peers_to_reconnect s now _ v).1
        (i, e, refl, (st, inl (omega arith, rw (b, c, since) (omega (arith, after_one)))))

  -- In a valid store with the node's backoff of 30 seconds, a peer that has failed twice is not
  -- among the peers to reconnect to within 4659767778871345152 ns, 147 years, after it was seen.
  pub backoff_of_two_does_not_expire :
      (s : Peerstore W) (now : ℕ) (k : String) (i : PeerInfo W)
      → IsValid s
      → s.default_backoff ≡ node_backoff
      → get s k ≡ some i
      → i.last_seen ≤ now
      → now - i.last_seen ≤ 4659767778871345152
      → i.backoff_counter ≡ 2
      → ¬ In (record { id = k; addrs = i.remote_addr ∷ [] }) (peers_to_reconnect now s)
  backoff_of_two_does_not_expire s now k i v b e h short c m =
      let (n, since, small) = time_since_nonneg now i.last_seen h in
      let (j, f, _, due) = (In-peers_to_reconnect s now _ v).0 m in
      let same : j ≡ i = cc (e, f) in
      elim (subst (IsDue s.default_backoff now) same due).1 [
        | inl (_, lt) ↦ let late = rw (b, c, after_two, since) at lt in omega arith
        | inr (fine, _) ↦ absurd ((v.records k i e).erred (omega arith) fine)
      ]
