-- ===== src/Hex.antt =====
-- Go's `hex.EncodeToString`, with which both parts print bit vectors.
use Prim.Native.String.{◌++◌ as ◌^^◌}
use valtrack.Base.{ℕ, ◌/◌, ◌%◌, String, List, [], ◌∷◌, get_elem?, ◌++◌, ◌-◌, Option, none, some}

abbrev letters : List String
letters = "f" ∷ "e" ∷ "d" ∷ "c" ∷ "b" ∷ "a" ∷ []

abbrev decimals : List String
decimals = "9" ∷ "8" ∷ "7" ∷ "6" ∷ "5" ∷ "4" ∷ "3" ∷ "2" ∷ "1" ∷ "0" ∷ []

-- The lists run down, so that `15 - n` is the place of the digit `n`.
abbrev digit : Option String → String
digit none = ""
digit (some d) = d

unfoldable pub nibble : ℕ → String
nibble n = digit (get_elem? (letters ++ decimals) (15 - n))

unfoldable pub encode_to_string : List ℕ → String
unfolding nibble
encode_to_string [] = ""
encode_to_string (b ∷ bytes) = nibble (b / 16 % 16) ^^ (nibble (b % 16) ^^ encode_to_string bytes)
