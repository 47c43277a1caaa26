-- ===== src/Text/Laws.antt =====
-- Splitting and searching texts that are put together from parts.
use valtrack.Base.{ℕ, [], ◌∷◌, ◌++◌, All, true, ◌≡◌, ◌≢◌, refl, arith}
use valtrack.Text.{Bytes, split, has_prefix, contains}

abbrev pub Lacks : ℕ → Bytes → Type 0
Lacks sep text = All (λ c. c ≢ sep) text

pub split-append :
    (sep : ℕ) (part text : Bytes)
    → Lacks sep part
    → split (part ++ sep ∷ text) sep ≡ part ∷ split text sep
unfolding split
split-append sep [] text h = ground arith
split-append sep (c ∷ part) text (ne, h) = rw (split-append sep part text h) (ground arith)

pub has_prefix-append : (prefix text : Bytes) → has_prefix (prefix ++ text) prefix ≡ true
unfolding has_prefix
has_prefix-append [] [] = refl
has_prefix-append [] (c ∷ text) = refl
has_prefix-append (c ∷ prefix) text = ground (arith, has_prefix-append prefix text)

pub contains-prefix : (part after : Bytes) → contains (part ++ after) part ≡ true
unfolding contains
contains-prefix [] [] = unfold has_prefix in refl
contains-prefix [] (c ∷ after) = unfold has_prefix in refl
contains-prefix (c ∷ part) after = rw (has_prefix-append (c ∷ part) after)

pub contains-append :
    (before after part : Bytes)
    → contains after part ≡ true
    → contains (before ++ after) part ≡ true
unfolding contains
contains-append [] after part h = h
contains-append (c ∷ before) after part h = ground (arith, contains-append before after part h)

pub split-whole : (sep : ℕ) (part : Bytes) → Lacks sep part → split part sep ≡ part ∷ []
unfolding split
split-whole sep [] h = refl
split-whole sep (c ∷ part) (ne, h) = rw (split-whole sep part h) (ground arith)
