-- ===== src/Consumer/Subnets.antt =====
-- consumer/utils.go: which attestation subnets a peer announces and which it only subscribes to.
-- A `for` loop over a range of numbers recurs on the rounds that are left.
pub mod Membership
use valtrack.Base.{
  ℕ, zero, suc, ℤ, pos, eq_ℤ, List, [], ◌∷◌, Bool, true, false, ◌&&◌, not, if◌then◌else◌,
}

-- The bits `i`, `i + 1`, … that are set, `rounds` of them looked at. `bit_at` is go-bitfield's.
unfoldable pub indexes_loop : (List ℕ → ℕ → Bool) → List ℕ → ℕ → ℕ → List ℤ
indexes_loop bit_at bits zero i = []
indexes_loop bit_at bits (suc rounds) i =
    let rest = indexes_loop bit_at bits rounds (suc i) in
    if bit_at bits i then pos i ∷ rest else rest

unfoldable pub indexes_from_bitfield : (List ℕ → ℕ → Bool) → List ℕ → List ℤ
unfolding indexes_loop
indexes_from_bitfield bit_at bits = indexes_loop bit_at bits 64 0

unfoldable pub contains : List ℤ → ℤ → Bool
contains [] item = false
contains (i ∷ slice) item = let rest = contains slice item in if eq_ℤ i item then true else rest

unfoldable pub extract_loop : List ℤ → List ℤ → ℕ → ℕ → List ℤ
unfolding contains
extract_loop subscribed long_lived zero i = []
extract_loop subscribed long_lived (suc rounds) i =
    let rest = extract_loop subscribed long_lived rounds (suc i) in
    if contains subscribed (pos i) && not (contains long_lived (pos i)) then pos i ∷ rest else rest

-- `for i := 1; i <= 64; i++`
unfoldable pub extract_short_lived_subnets : List ℤ → List ℤ → List ℤ
unfolding extract_loop
extract_short_lived_subnets subscribed long_lived = extract_loop subscribed long_lived 64 1
