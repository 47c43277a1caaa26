-- ===== src/Base/Failure.antt =====
-- Go's two ways to fail: `error` values and panics.
use Prim.Native.String.{String}
use mathlib.Core.Path.{◌≡◌, refl}
use mathlib.Core.Logic.{◌⊎◌, inl, inr}

-- Go's `error`: a message, or an error wrapped with a message (`%w`, `errors.Wrap`).
pub data Error : Type 0 where
  new : String → Error
  wrap : String → Error → Error

-- A call that returns a value or a non-nil `error`.
pub data Result {ℓ} (A : Type ℓ) : Type ℓ where
  ok : A → Result A
  err : Error → Result A

-- A call that returns to its caller, or panics with a message.
pub data Outcome {ℓ} (A : Type ℓ) : Type ℓ where
  returns : A → Outcome A
  panics : String → Outcome A

infixl 5 ◌>>=◌ ◌>>◌
abbrev pub ◌>>=◌ {ℓ κ} : {A : Type ℓ} {B : Type κ} → Outcome A → (A → Outcome B) → Outcome B
returns a >>= f = f a
panics m >>= f = panics m

abbrev pub ◌>>◌ {ℓ κ} : {A : Type ℓ} {B : Type κ} → Outcome A → Outcome B → Outcome B
m >> k = m >>= λ _. k

pub >>=-eq-returns {ℓ κ} :
    {A : Type ℓ} {B : Type κ} (m : Outcome A) (f : A → Outcome B) {b : B}
    → (m >>= f) ≡ returns b
    → (a : A) × (m ≡ returns a) × (f a ≡ returns b)
>>=-eq-returns (returns a) f h = (a, refl, h)
>>=-eq-returns (panics m) f h = cc

-- The call returns, with a value of which the predicate holds.
abbrev pub Returns {ℓ} : {A : Type ℓ} → Outcome A → (A → Type 0) → Type 0
Returns (returns a) P = P a
Returns (panics m) P = ⊥

pub Returns->>= {ℓ κ} :
    {A : Type ℓ} {B : Type κ} (m : Outcome A) (f : A → Outcome B) (P : A → Type 0) (Q : B → Type 0)
    → Returns m P
    → ((a : A) → P a → Returns (f a) Q)
    → Returns (m >>= f) Q
Returns->>= (returns a) f P Q h k = k a h
Returns->>= (panics m) f P Q h k = absurd h

pub Returns-weaken {ℓ} :
    {A : Type ℓ} (m : Outcome A) (P Q : A → Type 0)
    → Returns m P
    → ((a : A) → P a → Q a)
    → Returns m Q
Returns-weaken (returns a) P Q h k = k a h
Returns-weaken (panics m) P Q h k = absurd h

pub Result-cases {ℓ} :
    {A : Type ℓ} (r : Result A) → ((a : A) × (r ≡ ok a)) ⊎ ((e : Error) × (r ≡ err e))
Result-cases (ok a) = inl (a, refl)
Result-cases (err e) = inr (e, refl)

pub Returns-eq {ℓ} :
    {A : Type ℓ} (m : Outcome A) (P : A → Type 0) → Returns m P → (a : A) × (m ≡ returns a) × P a
Returns-eq (returns a) P h = (a, refl, h)
Returns-eq (panics m) P h = absurd h

-- A value is made of the call's value by one step or by two.
pub Returns-regroup {ℓ} :
    {A B C : Type ℓ} (m : Outcome A) (f : A → B) (g : B → C) (P : C → Type 0)
    → Returns (m >>= λ a. returns (g (f a))) P
    → Returns (m >>= (λ a. returns (f a)) >>= λ b. returns (g b)) P
Returns-regroup (returns a) f g P h = h
Returns-regroup (panics m) f g P h = absurd h

pub >>=-assoc {ℓ} :
    {A B C : Type ℓ} (m : Outcome A) (f : A → Outcome B) (g : B → Outcome C)
    → ((m >>= f) >>= g) ≡ (m >>= λ a. f a >>= g)
>>=-assoc (returns a) f g = refl
>>=-assoc (panics e) f g = refl

pub >>=-returns {ℓ} : {A : Type ℓ} (m : Outcome A) → (m >>= λ a. returns a) ≡ m
>>=-returns (returns a) = refl
>>=-returns (panics e) = refl

pub >>=-same {ℓ} :
    {A B : Type ℓ} (m : Outcome A) (f g : A → Outcome B)
    → ((a : A) → f a ≡ g a)
    → (m >>= f) ≡ (m >>= g)
>>=-same (returns a) f g h = h a
>>=-same (panics e) f g h = refl

pub Outcome-cases {ℓ} :
    {A : Type ℓ} (o : Outcome A) → ((a : A) × (o ≡ returns a)) ⊎ ((m : String) × (o ≡ panics m))
Outcome-cases (returns a) = inl (a, refl)
Outcome-cases (panics m) = inr (m, refl)
