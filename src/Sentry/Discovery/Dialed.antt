-- ===== src/Sentry/Discovery/Dialed.antt =====
-- Which peers the loop of discv5.go hands to the dialers.
use valtrack.Base.{
  String, str_eq, eq_iff, List, [], ◌∷◌, ◌++◌, map, In, In-append, NoRepeat, true, ◌≡◌, ◌≢◌, ◌⊎◌,
  inl, inr, refl, sym, subst, Bool-cases,
}
use valtrack.Sentry.Wire.{Wire}
use valtrack.Sentry.Discovery.{Network, Found, Discovery, visit, serve}
use valtrack.Sentry.Discovery.Announced.{
  every_second, ids, is_flagged, visits, serve-every_second, Belongs, Announces, visit-cases,
}

NoRepeat-append_one :
    {A : Type 0} (xs : List A) (x : A) → NoRepeat xs → ¬ In x xs → NoRepeat (xs ++ x ∷ [])
NoRepeat-append_one [] x n h = ((λ z. z), tt)
NoRepeat-append_one (y ∷ xs) x n h = (
  (λ m. elim (In-append y xs (x ∷ []) m) [
    | inl l ↦ n.0 l
    | inr (inl e) ↦ h (inl (sym e))
    | inr (inr z) ↦ z
  ]),
  NoRepeat-append_one xs x n.1 (λ m. h (inr m)),
)

module _ {W : Wire} where
  -- A peer that was handed to the dialers has its flag set, and no peer was handed to them twice.
  pub record IsOnce (d : Discovery W) : Type 0 where
    pub flagged : (id : String) → In id (ids d) → is_flagged id d ≡ true
    pub once : NoRepeat (ids d)

module _ {W : Wire} (N : Network W) where
  Announces-IsOnce :
      (f : Found W) (id : String) (d d' : Discovery W)
      → Announces N f id d d'
      → IsOnce d
      → IsOnce d'
  Announces-IsOnce f id d d' a v = elim a.sent [
    | inl e ↦ record {
      flagged = λ j m. still j (v.flagged j (subst (In j) e m));
      once = subst NoRepeat (sym e) v.once;
    }
    | inr e ↦ record {
      flagged = λ j m. elim (In-append j (ids d) (id ∷ []) (subst (In j) e m)) [
        | inl l ↦ still j (v.flagged j l)
        | inr (inl q) ↦ rw (a.flags j, (eq_iff id j).1 (sym q)) refl
        | inr (inr z) ↦ absurd z
      ];
      once = subst NoRepeat (sym e) (
          NoRepeat-append_one (ids d) id v.once
            (λ m. let old = v.flagged id m in cc (old, a.unseen)));
    }
  ]
    where
      still : (j : String) → is_flagged j d ≡ true → is_flagged j d' ≡ true
      still j h = elim (Bool-cases (str_eq id j)) [
        | inl q ↦ rw (a.flags j, q) refl
        | inr q ↦ rw (a.flags j, q) h
      ]

  visits-IsOnce : (fs : List (Found W)) (d : Discovery W) → IsOnce d → IsOnce (visits N fs d)
  unfolding visits
  visits-IsOnce [] d v = v
  visits-IsOnce (f ∷ fs) d v = visits-IsOnce fs (visit N f d) (elim (visit-cases N f d) [
    | inl e ↦ subst IsOnce (sym e) v
    | inr (id, a) ↦ Announces-IsOnce f id d (visit N f d) a v
  ])

  -- The loop hands no peer to the dialers twice, whatever nodes it finds, if it starts with none
  -- handed to them twice and the flags of all of them set.
  pub serve-IsOnce : (fs : List (Found W)) (d : Discovery W) → IsOnce d → IsOnce (serve N fs d)
  serve-IsOnce fs d v = rw (serve-every_second N fs d) (visits-IsOnce (every_second fs) d v)

  visits-flagged :
      (fs : List (Found W)) (d : Discovery W) (id : String)
      → is_flagged id d ≡ true
      → In id (ids (visits N fs d))
      → In id (ids d)
  unfolding visits
  visits-flagged [] d id h m = m
  visits-flagged (f ∷ fs) d id h m = elim (visit-cases N f d) [
    | inl e ↦ visits-flagged fs d id h (subst (λ x. In id (ids (visits N fs x))) e m)
    | inr (j, a) ↦ (elim (Bool-cases (str_eq j id)) [
      | inl q ↦ absurd (let same = (eq_iff j id).0 q in let un = a.unseen in cc (same, h, un))
      | inr q ↦
          earlier j a (visits-flagged fs (visit N f d) id (rw (a.flags id, q) h) m)
            (λ e. let yes = (eq_iff j id).1 (sym e) in cc (yes, q))
    ])
  ]
    where
      earlier :
          (j : String)
          → Announces N f j d (visit N f d)
          → In id (ids (visit N f d))
          → id ≢ j
          → In id (ids d)
      earlier j a l ne = elim a.sent [
        | inl e ↦ subst (In id) e l
        | inr e ↦ (elim (In-append id (ids d) (j ∷ []) (subst (In id) e l)) [
          | inl k ↦ k
          | inr (inl q) ↦ absurd (ne q)
          | inr (inr z) ↦ absurd z
        ])
      ]

  -- A peer whose flag is set and that was not handed to the dialers is never handed to them,
  -- whatever nodes are found later.
  pub serve-flagged :
      (fs : List (Found W)) (d : Discovery W) (id : String)
      → is_flagged id d ≡ true
      → ¬ In id (ids d)
      → ¬ In id (ids (serve N fs d))
  serve-flagged fs d id h n m = n (
      visits-flagged (every_second fs) d id h
        (subst (λ x. In id (ids x)) (serve-every_second N fs d) m))

  visits-Belongs :
      (fs : List (Found W)) (d : Discovery W) (id : String)
      → In id (ids (visits N fs d))
      → In id (ids d) ⊎ ((f : Found W) × In f fs × Belongs N d.filter_digest id f)
  unfolding visits
  visits-Belongs [] d id m = inl m
  visits-Belongs (f ∷ fs) d id m = elim (visit-cases N f d) [
    | inl e ↦ (elim (visits-Belongs fs d id (subst (λ x. In id (ids (visits N fs x))) e m)) [
      | inl l ↦ inl l
      | inr (g, k, b) ↦ inr (g, inr k, b)
    ])
    | inr (j, a) ↦ (elim (visits-Belongs fs (visit N f d) id m) [
      | inl l ↦ now j a l
      | inr (g, k, b) ↦ inr (g, inr k, subst (λ x. Belongs N x id g) a.digest b)
    ])
  ]
    where
      now :
          (j : String)
          → Announces N f j d (visit N f d)
          → In id (ids (visit N f d))
          → In id (ids d) ⊎ ((g : Found W) × In g (f ∷ fs) × Belongs N d.filter_digest id g)
      now j a l = elim a.sent [
        | inl e ↦ inl (subst (In id) e l)
        | inr e ↦ (elim (In-append id (ids d) (j ∷ []) (subst (In id) e l)) [
          | inl k ↦ inl k
          | inr (inl q) ↦
              inr (f, inl refl, subst (λ x. Belongs N d.filter_digest x f) (sym q) a.belongs)
          | inr (inr z) ↦ absurd z
        ])
      ]

  -- If the loop starts with no peer handed to the dialers, every peer that it hands to them was
  -- found as one of every second node, with a record that can be read, is of the node's own fork,
  -- and has the peer's identity.
  pub serve-Belongs :
      (fs : List (Found W)) (d : Discovery W) (id : String)
      → d.out ≡ []
      → In id (ids (serve N fs d))
      → (f : Found W) × In f (every_second fs) × Belongs N d.filter_digest id f
  serve-Belongs fs d id none_yet m =
      elim (visits-Belongs (every_second fs) d id
        (subst (λ x. In id (ids x)) (serve-every_second N fs d) m)) [
          | inl old ↦ absurd (subst (λ l. In id (map (λ a. a.id) l)) none_yet old)
          | inr found ↦ found
        ]
