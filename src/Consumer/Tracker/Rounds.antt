-- ===== src/Consumer/Tracker/Rounds.antt =====
-- When the handler of consumer/db.go and its goroutines panic.
use valtrack.Base.{
  ℤ, ◌++◌, ◌>>=◌, >>=-same, >>=-assoc, sym, ◌∙◌, false, ℕ, ◌≤◌, ◌<◌, String, List, [], ◌∷◌, length,
  Bool, true, none, some, ok, err, Outcome, returns, panics, ◌≡◌, ◌≢◌, ◌↔◌, ◌⊎◌, inl, inr, refl,
  arith, Bool-cases, Option-cases, Result-cases,
}
use valtrack.Consumer.Tracker.{
  IpMetaData, Tables, Tracker, Observation, resolve, observe, insert_ip_metadata, fetched, Step,
  observes, fetches_ip, Parsers, step, run_steps, transaction, nil_deref,
}

list-cases : (l : List String) → (l ≡ []) ⊎ ((x : String) × (rest : List String) × (l ≡ x ∷ rest))
list-cases [] = inl refl
list-cases (x ∷ rest) = inr (x, rest, refl)

no-panic : {A : Type 0} (m : Outcome A) → ((p : String) → m ≢ panics p) → (a : A) × (m ≡ returns a)
no-panic (returns a) h = (a, refl)
no-panic (panics p) h = absurd (h p refl)

module _ {F : Type 0} where
  pub insert_ip_metadata-cases :
      (split : String → List String) (parse_float : String → F) (written : Bool) (ip : IpMetaData)
      (t : Tables F)
      → ((length (split ip.lat_long) < 2)
          × (insert_ip_metadata split parse_float written ip (some t)
              ≡ panics "index out of range"))
        ⊎ ((2 ≤ length (split ip.lat_long))
            × (r : Bool × Tables F) × (insert_ip_metadata split parse_float written ip (some t)
                ≡ returns r))
  unfolding insert_ip_metadata
  insert_ip_metadata-cases split parse_float written ip t = elim (list-cases (split ip.lat_long)) [
    | inl e ↦ inl (rw e (omega arith), rw (e, insert_ip_metadata) refl)
    | inr (lat, rest, e) ↦ (elim (list-cases rest) [
      | inl f ↦ inl (rw (e, f) (omega arith), rw (e, f, insert_ip_metadata) refl)
      | inr (long, more, f) ↦
          let (r, h) =
            no-panic (insert_ip_metadata split parse_float written ip (some t))
              (λ p h. ground (arith, e, f)) in
          inr (rw (e, f) (omega arith), r, h)
    ])
  ]

  -- What a step panics on: an event whose address is resolved and that has no metadata, or an answer of
  -- the IP service with no comma in its position, or that comes once the handler has returned.
  abbrev pub Fault : Parsers F → Step → Tracker F → Type 0
  Fault P (observes a) t =
      (t.running ≡ true) × ((at : String × ℤ) × (resolve a ≡ ok at)) × (a.event.meta_data ≡ none)
  Fault P (fetches_ip written (err e)) t = ⊥
  Fault P (fetches_ip written (ok ip)) t = (t.running ≡ false) ⊎ (length (P.split ip.lat_long) < 2)

  observe-cases :
      (bit_at : List ℕ → ℕ → Bool) (a : Observation) (t : Tracker F)
      → ((t' : Tracker F) × (observe bit_at a t ≡ returns t'))
        ⊎ (((at : String × ℤ) × (resolve a ≡ ok at))
            × (a.event.meta_data ≡ none)
            × (observe bit_at a t ≡ panics nil_deref))
  unfolding observe
  observe-cases bit_at a t = elim (Result-cases (resolve a)) [
    | inr (e, r) ↦ inl (t, rw (r, observe) refl)
    | inl ((ip, port), r) ↦ (elim (Option-cases a.event.meta_data) [
      | inl n ↦ inr (((ip, port), r), n, rw (r, n, observe) refl)
      | inr (md, n) ↦ inl (no-panic (observe bit_at a t) (λ p h. ground (arith, r, n)))
    ])
  ]

  transaction-running : (t : Tracker F) → t.running ≡ true → transaction t ≡ some t.pending
  unfolding transaction
  transaction-running t e = simp e

  transaction-returned : (t : Tracker F) → t.running ≡ false → transaction t ≡ none
  unfolding transaction
  transaction-returned t e = simp e

  insert_ip_metadata-nil :
      (split : String → List String) (parse_float : String → F) (written : Bool) (ip : IpMetaData)
      → (m : String) × (insert_ip_metadata split parse_float written ip none ≡ panics m)
  unfolding insert_ip_metadata
  insert_ip_metadata-nil split parse_float written ip = elim (list-cases (split ip.lat_long)) [
    | inl f ↦ ("index out of range", rw (f, insert_ip_metadata) refl)
    | inr (lat, rest, f) ↦ (elim (list-cases rest) [
      | inl g ↦ ("index out of range", rw (f, g, insert_ip_metadata) refl)
      | inr (long, more, g) ↦ (nil_deref, rw (f, g, insert_ip_metadata) refl)
    ])
  ]

  -- An answer that comes once the handler has returned makes its goroutine panic.
  late_answer_panics :
      (P : Parsers F) (written : Bool) (ip : IpMetaData) (t : Tracker F)
      → t.running ≡ false
      → (m : String) × (step P (fetches_ip written (ok ip)) t ≡ panics m)
  unfolding step fetched
  late_answer_panics P written ip t e =
      let (m, h) = insert_ip_metadata-nil P.split P.parse_float written ip in
      (m, rw (transaction-returned t e, h) refl)

  step-cases :
      (P : Parsers F) (s : Step) (t : Tracker F)
      → ((t' : Tracker F) × (step P s t ≡ returns t'))
        ⊎ (Fault P s t × (m : String) × (step P s t ≡ panics m))
  unfolding step fetched
  step-cases P (observes a) t = elim (Bool-cases t.running) [
    | inr e ↦ inl (t, simp e)
    | inl e ↦ (elim (observe-cases P.bit_at a t) [
      | inl (t', h) ↦ inl (t', simp (e, h))
      | inr (at, n, h) ↦ inr ((e, at, n), nil_deref, simp (e, h))
    ])
  ]
  step-cases P (fetches_ip written (err e)) t = inl (t, refl)
  step-cases P (fetches_ip written (ok ip)) t = elim (Bool-cases t.running) [
    | inr e ↦ let (m, h) = late_answer_panics P written ip t e in inr (inl e, m, h)
    | inl e ↦ (elim (insert_ip_metadata-cases P.split P.parse_float written ip t.pending) [
      | inl (short, f) ↦ inr (inr short, "index out of range", rw (transaction-running t e, f) refl)
      | inr (_, r, f) ↦ inl (
          no-panic (step P (fetches_ip written (ok ip)) t)
            (λ p h. ground (arith, transaction-running t e, f)))
    ])
  ]

  Fault-panics :
      (P : Parsers F) (s : Step) (t : Tracker F)
      → Fault P s t
      → (m : String) × (step P s t ≡ panics m)
  unfolding step fetched observe
  Fault-panics P (observes a) t (e, (at, r), n) = (nil_deref, simp (e, r, n, observe) refl)
  Fault-panics P (fetches_ip written (err e)) t h = absurd h
  Fault-panics P (fetches_ip written (ok ip)) t (inl e) = late_answer_panics P written ip t e
  Fault-panics P (fetches_ip written (ok ip)) t (inr short) = elim (Bool-cases t.running) [
    | inr e ↦ late_answer_panics P written ip t e
    | inl e ↦ (elim (insert_ip_metadata-cases P.split P.parse_float written ip t.pending) [
      | inl (_, f) ↦ ("index out of range", rw (transaction-running t e, f) refl)
      | inr (long, _, _) ↦ absurd (omega arith)
    ])
  ]

  run_steps-append :
      (P : Parsers F) (xs ys : List Step) (t : Tracker F)
      → run_steps P (xs ++ ys) t ≡ (run_steps P xs t >>= run_steps P ys)
  unfolding run_steps
  run_steps-append P [] ys t = refl
  run_steps-append P (x ∷ xs) ys t =
      >>=-same (step P x t) _ _ (λ u. run_steps-append P xs ys u)
      ∙ sym (>>=-assoc (step P x t) (run_steps P xs) (run_steps P ys))

  -- Some step has a fault where the steps `early` before it leave the tracker.
  abbrev pub Faulty : Parsers F → List Step → Tracker F → Type 0
  Faulty P steps t =
      (early : List Step) × (s : Step) × (rest : List Step) × (u : Tracker F) × (steps
        ≡ early ++ (s ∷ rest))
      × (run_steps P early t ≡ returns u)
      × Fault P s u

  panics-Faulty :
      (P : Parsers F) (steps : List Step) (t : Tracker F) (m : String)
      → run_steps P steps t ≡ panics m
      → Faulty P steps t
  unfolding run_steps
  panics-Faulty P [] t m h = absurd (ground arith)
  panics-Faulty P (s ∷ steps) t m h = elim (step-cases P s t) [
    | inr (fault, _, _) ↦ ([], s, steps, t, refl, refl, fault)
    | inl (u, f) ↦
        let (early, s', rest, v, e, ran, fault) = panics-Faulty P steps u m (rw f at h) in
        (s ∷ early, s', rest, v, rw e refl, rw f ran, fault)
  ]

  Faulty-panics :
      (P : Parsers F) (steps : List Step) (t : Tracker F)
      → Faulty P steps t
      → (m : String) × (run_steps P steps t ≡ panics m)
  unfolding run_steps
  Faulty-panics P steps t (early, s, rest, u, e, ran, fault) =
      let (m, h) = Fault-panics P s u fault in
      (m, rw (e, run_steps-append P early (s ∷ rest) t, ran, h))

  -- The tracker panics over a list of steps exactly if some step has a fault in the state that the
  -- steps before it lead to: a round of the handler that takes an event whose address is resolved
  -- and that has no metadata, or an answer of the IP service whose position splits at commas into
  -- fewer than two parts or that comes once the handler has returned. Nothing else that fails makes
  -- it panic.
  pub run_steps-panics_iff :
      (P : Parsers F) (steps : List Step) (t : Tracker F)
      → ((m : String) × (run_steps P steps t ≡ panics m)) ↔ Faulty P steps t
  run_steps-panics_iff P steps t =
      ((λ h. panics-Faulty P steps t h.0 h.1), (λ faulty. Faulty-panics P steps t faulty))
