-- ===== src/Consumer/Subnets/Membership.antt =====
-- What the functions of consumer/utils.go return, as sets of subnets.
use valtrack.Base.{
  ℕ, zero, suc, ◌+◌, ◌≤◌, ◌<◌, ℤ, pos, eq_ℤ, eq_ℤ_iff, List, [], ◌∷◌, In, NoRepeat, Bool, true,
  ◌&&◌, not, ◌≡◌, ◌↔◌, ◌⊎◌, inl, inr, refl, sym, ap, subst, arith, Bool-cases, ◌==◌, ==_iff,
  if◌then◌else◌,
}
use valtrack.Consumer.Subnets.{
  indexes_loop, indexes_from_bitfield, contains, extract_loop, extract_short_lived_subnets,
}

pub contains-In : (l : List ℤ) (x : ℤ) → contains l x ≡ true → In x l
unfolding contains
contains-In [] x h = ground arith
contains-In (i ∷ l) x h = elim (Bool-cases (eq_ℤ i x)) [
  | inl e ↦ inl (sym ((eq_ℤ_iff i x).0 e))
  | inr e ↦ inr (contains-In l x (rw e at h))
]

pub In-contains : (l : List ℤ) (x : ℤ) → In x l → contains l x ≡ true
unfolding contains
In-contains [] x h = absurd h
In-contains (i ∷ l) x (inl e) = rw ((eq_ℤ_iff i x).1 (sym e))
In-contains (i ∷ l) x (inr h) = elim (Bool-cases (eq_ℤ i x)) [
  | inl e ↦ rw e
  | inr e ↦ rw e (In-contains l x h)
]

-- The numbers from `i` on that pass a test, `rounds` of them tried, in order.
select : (ℕ → Bool) → ℕ → ℕ → List ℤ
select test zero i = []
select test (suc rounds) i =
    let rest = select test rounds (suc i) in if test i then pos i ∷ rest else rest

In-select :
    (test : ℕ → Bool) (rounds i : ℕ) (x : ℤ)
    → In x (select test rounds i)
    → (j : ℕ) × (x ≡ pos j) × (i ≤ j) × (j < i + rounds) × (test j ≡ true)
unfolding select
In-select test zero i x h = absurd h
In-select test (suc rounds) i x h = elim (Bool-cases (test i)) [
  | inr e ↦
      let (j, q, l, u, s) = In-select test rounds (suc i) x (rw e at h) in
      (j, q, omega arith, omega arith, s)
  | inl e ↦ here_or_later (In-select test rounds (suc i) x) e (rw e at h)
]
  where
    here_or_later :
        (In x (select test rounds (suc i))
          → (j : ℕ) × (x ≡ pos j) × (suc i ≤ j) × (j < suc i + rounds) × (test j ≡ true))
        → test i ≡ true
        → (x ≡ pos i) ⊎ In x (select test rounds (suc i))
        → (j : ℕ) × (x ≡ pos j) × (i ≤ j) × (j < i + suc rounds) × (test j ≡ true)
    here_or_later ih e (inl q) = (i, q, omega arith, omega arith, e)
    here_or_later ih e (inr h') = let (j, q, l, u, s) = ih h' in (j, q, omega arith, omega arith, s)

select-In :
    (test : ℕ → Bool) (rounds i j : ℕ)
    → i ≤ j
    → j < i + rounds
    → test j ≡ true
    → In (pos j) (select test rounds i)
unfolding select
select-In test zero i j l u s = absurd (omega arith)
select-In test (suc rounds) i j l u s = elim (Bool-cases (i == j)) [
  | inl e ↦
      let same = (==_iff i j).0 e in
      rw (subst (λ k. test k ≡ true) (sym same) s) (inl (ap pos (sym same)))
  | inr e ↦
      let later = select-In test rounds (suc i) j (ground arith) (omega arith) s in
      elim (Bool-cases (test i)) [ inl t ↦ rw t (inr later) | inr t ↦ rw t later ]
]

select-NoRepeat : (test : ℕ → Bool) (rounds i : ℕ) → NoRepeat (select test rounds i)
unfolding select
select-NoRepeat test zero i = tt
select-NoRepeat test (suc rounds) i = elim (Bool-cases (test i)) [
  | inl t ↦ rw t (
    (λ h. let (j, q, l, _, _) = In-select test rounds (suc i) (pos i) h in ground arith),
    select-NoRepeat test rounds (suc i),
  )
  | inr t ↦ rw t (select-NoRepeat test rounds (suc i))
]

indexes_loop-eq-select :
    (bit_at : List ℕ → ℕ → Bool) (bits : List ℕ) (rounds i : ℕ)
    → indexes_loop bit_at bits rounds i ≡ select (bit_at bits) rounds i
unfolding indexes_loop select
indexes_loop-eq-select bit_at bits zero i = refl
indexes_loop-eq-select bit_at bits (suc rounds) i =
    rw (indexes_loop-eq-select bit_at bits rounds (suc i))

abbrev short_test : List ℤ → List ℤ → ℕ → Bool
short_test subscribed long_lived i =
    contains subscribed (pos i) && not (contains long_lived (pos i))

passes :
    (subscribed long_lived : List ℤ) (j : ℕ)
    → In (pos j) subscribed
    → ¬ In (pos j) long_lived
    → short_test subscribed long_lived j ≡ true
passes subscribed long_lived j m k = elim (Bool-cases (contains long_lived (pos j))) [
  | inl e ↦ absurd (k (contains-In long_lived (pos j) e))
  | inr e ↦ rw (In-contains subscribed (pos j) m, e)
]

extract_loop-eq-select :
    (subscribed long_lived : List ℤ) (rounds i : ℕ)
    → extract_loop subscribed long_lived rounds i
      ≡ select (short_test subscribed long_lived) rounds i
unfolding extract_loop select
extract_loop-eq-select subscribed long_lived zero i = refl
extract_loop-eq-select subscribed long_lived (suc rounds) i =
    rw (extract_loop-eq-select subscribed long_lived rounds (suc i))

-- The announced subnets are exactly the numbers below 64 whose bit is set, each once.
pub In-indexes_from_bitfield :
    (bit_at : List ℕ → ℕ → Bool) (bits : List ℕ) (x : ℤ)
    → (In x (indexes_from_bitfield bit_at bits)
        ↔ ((j : ℕ) × (x ≡ pos j) × (j < 64) × (bit_at bits j ≡ true)))
      × NoRepeat (indexes_from_bitfield bit_at bits)
unfolding indexes_from_bitfield
In-indexes_from_bitfield bit_at bits x = rw (indexes_loop-eq-select bit_at bits 64 0) (
  (
    (λ h. let (j, q, _, u, s) = In-select (bit_at bits) 64 0 x h in (j, q, u, s)),
    (λ (j, q, u, s).
        subst (λ y. In y (select (bit_at bits) 64 0)) (sym q)
          (select-In (bit_at bits) 64 0 j (omega arith) u s)),
  ),
  select-NoRepeat (bit_at bits) 64 0,
)

-- The short-lived subnets are exactly the numbers from 1 to 64 that are subscribed to and not
-- announced, each once.
pub In-extract_short_lived_subnets :
    (subscribed long_lived : List ℤ) (x : ℤ)
    → (In x (extract_short_lived_subnets subscribed long_lived)
        ↔ ((j : ℕ) × (x ≡ pos j) × (1 ≤ j) × (j ≤ 64) × In x subscribed × (¬ In x long_lived)))
      × NoRepeat (extract_short_lived_subnets subscribed long_lived)
unfolding extract_short_lived_subnets
In-extract_short_lived_subnets subscribed long_lived x =
    rw (extract_loop-eq-select subscribed long_lived 64 1) ((there, back), select-NoRepeat _ 64 1)
  where
    there :
        In x (select (short_test subscribed long_lived) 64 1)
        → (j : ℕ) × (x ≡ pos j) × (1 ≤ j) × (j ≤ 64) × In x subscribed × (¬ In x long_lived)
    there h =
        let (j, q, l, u, s) = In-select (short_test subscribed long_lived) 64 1 x h in
        (
          j,
          q,
          l,
          omega arith,
          subst (λ y. In y subscribed) (sym q) (contains-In subscribed (pos j) (ground arith)),
          λ m. ground (arith, In-contains long_lived (pos j) (subst (λ y. In y long_lived) q m)),
        )

    back :
        (j : ℕ) × (x ≡ pos j) × (1 ≤ j) × (j ≤ 64) × In x subscribed × (¬ In x long_lived)
        → In x (select (short_test subscribed long_lived) 64 1)
    back (j, q, l, u, m, k) =
        subst (λ y. In y (select (short_test subscribed long_lived) 64 1)) (sym q)
          (select-In (short_test subscribed long_lived) 64 1 j l (omega arith) (
            passes subscribed long_lived j (subst (λ y. In y subscribed) q m)
              (λ n. k (subst (λ y. In y long_lived) (sym q) n))))

-- A peer whose subscriptions beyond its announced subnets are to subnet 0 alone has no short-lived
-- subnet.
pub extract_misses_zero :
    (subscribed long_lived : List ℤ)
    → ((x : ℤ) → In x subscribed → (x ≡ pos 0) ⊎ In x long_lived)
    → extract_short_lived_subnets subscribed long_lived ≡ []
extract_misses_zero subscribed long_lived h =
    empty (extract_short_lived_subnets subscribed long_lived) none_in
  where
    none_in : (x : ℤ) → ¬ In x (extract_short_lived_subnets subscribed long_lived)
    none_in x m =
        let (j, q, l, u, s, k) = (In-extract_short_lived_subnets subscribed long_lived x).0.0 m in
        elim (h x s) [ inl z ↦ ground arith | inr a ↦ k a ]

    empty : (l : List ℤ) → ((x : ℤ) → ¬ In x l) → l ≡ []
    empty [] _ = refl
    empty (y ∷ l) f = absurd (f y (inl refl))
