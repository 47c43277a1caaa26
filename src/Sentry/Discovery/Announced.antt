-- ===== src/Sentry/Discovery/Announced.antt =====
-- Which nodes the loop of discv5.go announces, and how often.
use valtrack.Base.{
  String, str_eq, eq_iff, List, [], ◌∷◌, ◌++◌, map, Bool, true, false, Option, some, ok, ◌≡◌, ◌⊎◌,
  inl, inr, refl, sym, ap, subst, Bool-cases, Result-cases, if◌then◌else◌,
}
use valtrack.Base.Dict
use valtrack.Sentry.Wire.{Wire}
use valtrack.Sentry.Node.{NodeInfo}
use valtrack.Sentry.Discovery.{
  Network, Found, EnrNode, HostInfo, Discovery, has_flag, parse_enr, host_info, handle_enr,
  send_peer_event, announce, visit, serve,
}

-- The second, the fourth and so on of the nodes, up to the one in whose round the context is done.
unfoldable pub every_second : {W : Wire} → List (Found W) → List (Found W)
every_second [] = []
every_second (f ∷ []) = []
every_second (f ∷ g ∷ rest) = elim g.ctx_done [ true ↦ [] | false ↦ g ∷ every_second rest ]

map-append_one :
    {A B : Type 0} (f : A → B) (xs : List A) (x : A) → map f (xs ++ x ∷ []) ≡ map f xs ++ f x ∷ []
map-append_one f [] x = refl
map-append_one f (y ∷ xs) x = ap (λ l. f y ∷ l) (map-append_one f xs x)

module _ {W : Wire} where
  abbrev pub ids : Discovery W → List String
  ids d = map (λ a. a.id) d.out

  abbrev pub is_flagged : String → Discovery W → Bool
  is_flagged id d = has_flag (Dict.lookup id d.seen_nodes)

module _ {W : Wire} (N : Network W) where
  unfoldable pub visits : List (Found W) → Discovery W → Discovery W
  visits [] d = d
  visits (f ∷ fs) d = visits fs (visit N f d)

  -- The loop handles every second node that the iterator has, in order, up to the one in whose
  -- round the context is done, and none of the others.
  pub serve-every_second :
      (fs : List (Found W)) (d : Discovery W) → serve N fs d ≡ visits (every_second fs) d
  unfolding serve visits every_second
  serve-every_second [] d = refl
  serve-every_second (f ∷ []) d = refl
  serve-every_second (f ∷ g ∷ rest) d = elim (Bool-cases g.ctx_done) [
    | inl e ↦ rw e refl
    | inr e ↦ rw e (serve-every_second rest (visit N g d))
  ]

  -- The node's record can be read, is of the given fork, and has the given identity.
  pub record Belongs (digest id : String) (f : Found W) : Type 0 where
    pub enr : EnrNode
    pub parsed : parse_enr N f ≡ ok enr
    pub fork : enr.fork_digest ≡ digest
    pub peer : f.peer_id ≡ ok id

  -- What the announcement of a peer does to the channel and the flags.
  pub record Announces (f : Found W) (id : String) (d d' : Discovery W) : Type 0 where
    pub belongs : Belongs d.filter_digest id f
    pub unseen : is_flagged id d ≡ false
    pub flags : (j : String) → is_flagged j d' ≡ (if str_eq id j then true else is_flagged j d)
    pub sent : (ids d' ≡ ids d) ⊎ (ids d' ≡ ids d ++ id ∷ [])
    pub digest : d'.filter_digest ≡ d.filter_digest

  send_peer_event-kept :
      (f : Found W) (info : HostInfo W) (d : Discovery W)
      → ((send_peer_event N f info d).out ≡ d.out)
        × ((send_peer_event N f info d).seen_nodes ≡ d.seen_nodes)
        × ((send_peer_event N f info d).filter_digest ≡ d.filter_digest)
  unfolding send_peer_event
  send_peer_event-kept f info d = elim (Bool-cases d.jetstream) [
    | inr j ↦ rw j (refl, refl, refl)
    | inl j ↦ (elim (Bool-cases f.in_time) [
      | inl t ↦ rw (j, t) (refl, refl, refl)
      | inr t ↦ rw (j, t) (refl, refl, refl)
    ])
  ]

  announce-Announces :
      (f : Found W) (info : HostInfo W) (d : Discovery W)
      → Belongs d.filter_digest info.id f
      → is_flagged info.id d ≡ false
      → Announces f info.id d (announce N f info d)
  unfolding announce
  announce-Announces f info d b u =
      let (out, seen, digest) = send_peer_event-kept f info (record d {
        out =
            if f.out_full
            then d.out
            else d.out ++ record { id = info.id; addrs = info.maddrs } ∷ [];
        seen_nodes = Dict.insert info.id (record { node = f.enode; flag = true }) d.seen_nodes;
      }) in
      record {
        belongs = b;
        unseen = u;
        flags = λ j.
            rw
              (
                seen,
                Dict.lookup-insert info.id j (record { node = f.enode; flag = true }) d.seen_nodes,
              )
              (flag_of (str_eq info.id j) (Dict.lookup j d.seen_nodes));
        sent = elim (Bool-cases f.out_full) [
          | inl e ↦ inl (rw (out, e) refl)
          | inr e ↦ inr (rw (out, e) (map-append_one (λ a. a.id) d.out _))
        ];
        digest = digest;
      }
    where
      flag_of :
          (b : Bool) (o : Option (NodeInfo W))
          → has_flag (if b then some (record { node = f.enode; flag = true }) else o)
            ≡ (if b then true else has_flag o)
      flag_of true o = refl
      flag_of false o = refl

  -- A round leaves the state as it is or announces one peer.
  pub visit-cases :
      (f : Found W) (d : Discovery W)
      → (visit N f d ≡ d) ⊎ ((id : String) × Announces f id d (visit N f d))
  unfolding visit handle_enr host_info announce
  visit-cases f d = elim (Result-cases (parse_enr N f)) [
    | inr (e, p) ↦ inl (rw (p, visit, handle_enr) refl)
    | inl (enr, p) ↦ (elim (Bool-cases (str_eq enr.fork_digest d.filter_digest)) [
      | inr k ↦ inl (rw (p, visit, handle_enr, k) refl)
      | inl k ↦ (elim (Result-cases f.peer_id) [
        | inr (e, q) ↦ inl (rw (p, visit, handle_enr, k, q) refl)
        | inl (id, q) ↦ (elim (Bool-cases (is_flagged id d)) [
          | inl u ↦ inl (rw (p, visit, handle_enr, k, q, u) refl)
          | inr u ↦
              let announced : visit N f d ≡ announce N f (host_info N id enr) d =
                rw (p, visit, handle_enr, k, q, u) refl in
              inr (
                id,
                subst (Announces f id d) (sym announced) (
                    announce-Announces f (host_info N id enr) d
                      (record { enr = enr; parsed = p; fork = (eq_iff _ _).0 k; peer = q }) u),
              )
        ])
      ])
    ])
  ]
