-- ===== src/Consumer/Api/Best.antt =====
-- Which row of a peer the API of consumer/api.go serves.
use valtrack.Base.{
  ltb_ℤ, String, str_eq, eq_iff, List, [], ◌∷◌, In, map, Bool, true, false, some, ok, ◌≡◌, refl,
  sym, ap, ◌∙◌, subst, ◌⊎◌, inl, inr, arith, Bool-cases, Option-cases, ◌<ℤ◌,
}
use valtrack.Base.Dict
use valtrack.Consumer.Api.{
  Floats, ValidatorTracker, validators, shown, is_better, keep_best, collect, get_validators,
}

module _ {F : Floats} where
  abbrev pub AtMost : ValidatorTracker F → ValidatorTracker F → Type 0
  AtMost a b = ¬ (b.validator_count <ℤ a.validator_count)

  shown-peer_id :
      (is_admin : Bool) (vm : ValidatorTracker F) → (shown is_admin vm).peer_id ≡ vm.peer_id
  unfolding shown
  shown-peer_id true vm = refl
  shown-peer_id false vm = refl

  shown-count :
      (is_admin : Bool) (vm : ValidatorTracker F)
      → (shown is_admin vm).validator_count ≡ vm.validator_count
  unfolding shown
  shown-count true vm = refl
  shown-count false vm = refl

  -- The map has one entry for each peer of the rows seen, and it is one of these rows with the largest
  -- count.
  pub record IsBest (seen : ValidatorTracker F → Type 0)
      (by_id : List (String × ValidatorTracker F)) : Type 0 where
    pub distinct : Dict.Distinct by_id
    pub origin :
        (k : String) (v : ValidatorTracker F)
        → Dict.lookup k by_id ≡ some v
        → (v.peer_id ≡ k) × seen v
    pub covers :
        (x : ValidatorTracker F)
        → seen x
        → (v : ValidatorTracker F) × (Dict.lookup x.peer_id by_id ≡ some v) × AtMost x v

  AtMost-refl : (x : ValidatorTracker F) → AtMost x x
  AtMost-refl x l = omega arith

  AtMost-better :
      (x v vm : ValidatorTracker F)
      → AtMost x v
      → ltb_ℤ v.validator_count vm.validator_count ≡ true
      → AtMost x vm
  AtMost-better x v vm h b l = h (ground arith)

  insert-IsBest :
      (vm : ValidatorTracker F) (seen : ValidatorTracker F → Type 0)
      (by_id : List (String × ValidatorTracker F))
      → is_better vm (Dict.lookup vm.peer_id by_id) ≡ true
      → IsBest seen by_id
      → IsBest (λ x. seen x ⊎ (x ≡ vm)) (Dict.insert vm.peer_id vm by_id)
  insert-IsBest vm seen by_id better w = record {
    distinct = Dict.insert-Distinct vm.peer_id vm by_id w.distinct;
    origin = from;
    covers = λ x. elim [
      | inl s ↦ above x s
      | inr e ↦
          (vm, rw e (Dict.lookup-insert_self vm.peer_id vm by_id), λ l. AtMost-refl vm (rw e at l))
    ];
  }
    where
      from :
          (k : String) (v : ValidatorTracker F)
          → Dict.lookup k (Dict.insert vm.peer_id vm by_id) ≡ some v
          → (v.peer_id ≡ k) × (seen v ⊎ (v ≡ vm))
      from k v e = elim (Bool-cases (str_eq vm.peer_id k)) [
        | inl same ↦
            let here : v ≡ vm = ground (arith, Dict.lookup-insert vm.peer_id k vm by_id) in
            (ap (λ x. x.peer_id) here ∙ (eq_iff _ _).0 same, inr here)
        | inr other ↦
            let old = w.origin k v (ground (arith, Dict.lookup-insert vm.peer_id k vm by_id)) in
            (old.0, inl old.1)
      ]

      above :
          (x : ValidatorTracker F)
          → seen x
          → (v : ValidatorTracker F) × (Dict.lookup x.peer_id (Dict.insert vm.peer_id vm by_id)
              ≡ some v)
            × AtMost x v
      above x s =
          let (v, l, m) = w.covers x s in
          elim (Bool-cases (str_eq vm.peer_id x.peer_id)) [
            | inl same ↦ (
              vm,
              rw (Dict.lookup-insert vm.peer_id x.peer_id vm by_id, same),
              AtMost-better x v vm m (
                  rw (subst (λ k. Dict.lookup k by_id ≡ some v) (sym ((eq_iff _ _).0 same)) l) at
                    better),
            )
            | inr other ↦ (v, rw (Dict.lookup-insert vm.peer_id x.peer_id vm by_id, other) l, m)
          ]

  keep-IsBest :
      (vm existing : ValidatorTracker F) (seen : ValidatorTracker F → Type 0)
      (by_id : List (String × ValidatorTracker F))
      → Dict.lookup vm.peer_id by_id ≡ some existing
      → AtMost vm existing
      → IsBest seen by_id
      → IsBest (λ x. seen x ⊎ (x ≡ vm)) by_id
  keep-IsBest vm existing seen by_id l m w = record {
    distinct = w.distinct;
    origin = λ k v e. let old = w.origin k v e in (old.0, inl old.1);
    covers = λ x. elim [ inl s ↦ w.covers x s | inr e ↦ (existing, rw e l, λ t. m (rw e at t)) ];
  }

  keep_best-IsBest :
      (vm : ValidatorTracker F) (seen : ValidatorTracker F → Type 0)
      (by_id : List (String × ValidatorTracker F))
      → IsBest seen by_id
      → IsBest (λ x. seen x ⊎ (x ≡ vm)) (keep_best vm by_id)
  unfolding keep_best
  keep_best-IsBest vm seen by_id w =
      elim (Bool-cases (is_better vm (Dict.lookup vm.peer_id by_id))) [
        | inl b ↦ rw b (insert-IsBest vm seen by_id b w)
        | inr b ↦ rw b (elim (Option-cases (Dict.lookup vm.peer_id by_id)) [
          | inl n ↦ absurd (ground arith)
          | inr (existing, l) ↦ keep-IsBest vm existing seen by_id l (λ t. ground arith) w
        ])
      ]

  weaken-IsBest :
      (p q : ValidatorTracker F → Type 0) (by_id : List (String × ValidatorTracker F))
      → ((x : ValidatorTracker F) → p x → q x)
      → ((x : ValidatorTracker F) → q x → p x)
      → IsBest p by_id
      → IsBest q by_id
  weaken-IsBest p q by_id f g w = record {
    distinct = w.distinct;
    origin = λ k v e. let old = w.origin k v e in (old.0, f v old.1);
    covers = λ x s. w.covers x (g x s);
  }

  collect-IsBest :
      (is_admin : Bool) (vms : List (ValidatorTracker F)) (seen : ValidatorTracker F → Type 0)
      (by_id : List (String × ValidatorTracker F))
      → IsBest seen by_id
      → (by_id' : List (String × ValidatorTracker F)) × (collect is_admin (map ok vms) by_id
          ≡ some by_id')
        × IsBest (λ x. seen x ⊎ In x (map (shown is_admin) vms)) by_id'
  unfolding collect
  collect-IsBest is_admin [] seen by_id w = (
    by_id,
    refl,
    weaken-IsBest seen _ by_id (λ x s. inl s) (λ x. elim [ inl s ↦ s | inr n ↦ absurd n ]) w,
  )
  collect-IsBest is_admin (vm ∷ vms) seen by_id w =
      let (by_id', e, v) =
        collect-IsBest is_admin vms (λ x. seen x ⊎ (x ≡ shown is_admin vm))
          (keep_best (shown is_admin vm) by_id)
          (keep_best-IsBest (shown is_admin vm) seen by_id w) in
      (by_id', e, weaken-IsBest _ _ by_id' (λ x. forth x) (λ x. back x) v)
    where
      forth :
          (x : ValidatorTracker F)
          → (seen x ⊎ (x ≡ shown is_admin vm)) ⊎ In x (map (shown is_admin) vms)
          → seen x ⊎ In x (map (shown is_admin) (vm ∷ vms))
      forth x (inl (inl s)) = inl s
      forth x (inl (inr e)) = inr (inl e)
      forth x (inr m) = inr (inr m)

      back :
          (x : ValidatorTracker F)
          → seen x ⊎ In x (map (shown is_admin) (vm ∷ vms))
          → (seen x ⊎ (x ≡ shown is_admin vm)) ⊎ In x (map (shown is_admin) vms)
      back x (inl s) = inl (inl s)
      back x (inr (inl e)) = inl (inr e)
      back x (inr (inr m)) = inr m

  empty-IsBest : IsBest (λ _. ⊥) []
  empty-IsBest = record {
    distinct = tt;
    origin = λ k v e. absurd (unfold Dict.lookup in ground arith);
    covers = λ x s. absurd s;
  }

  -- Where every row can be read, the handler answers with the entries of a map that has exactly one
  -- entry for each peer of the rows, which is one of the peer's rows, as shown, and no row of the
  -- peer has a larger validator count.
  pub get_validators-IsBest :
      (is_admin : Bool) (vms : List (ValidatorTracker F))
      → (by_id : List (String × ValidatorTracker F)) × (get_validators is_admin (ok (map ok vms))
          ≡ validators (map (λ e. e.1) by_id))
        × IsBest (λ x. In x (map (shown is_admin) vms)) by_id
  unfolding get_validators
  get_validators-IsBest is_admin vms =
      let (by_id, e, w) = collect-IsBest is_admin vms (λ _. ⊥) [] empty-IsBest in
      (
        by_id,
        rw e,
        weaken-IsBest _ _ by_id (λ x. elim [ inl f ↦ absurd f | inr m ↦ m ]) (λ x m. inr m) w,
      )
