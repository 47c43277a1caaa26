-- ===== src/Text.antt =====
-- The functions of Go's `strings` and `strconv` that the sentry applies to topics. A text is its list
-- of bytes.
pub mod Laws
use Prim.Native.Char.{code}
use valtrack.Base.{
  ℕ, ◌+◌, ◌-◌, ◌*◌, ltb, leb, ◌==◌, ℤ, pos, negsuc, String, List, [], ◌∷◌, Bool, true, false, ◌&&◌,
  ◌||◌, Option, none, some, if◌then◌else◌,
}

abbrev pub Bytes : Type 0
Bytes = List ℕ

abbrev pub codes : String → Bytes
codes String.[] = []
codes (String.◌∷◌ c text) = code c ∷ codes text

abbrev pub onto_first : ℕ → List Bytes → List Bytes
onto_first c [] = (c ∷ []) ∷ []
onto_first c (part ∷ parts) = (c ∷ part) ∷ parts

-- `strings.Split` at a separator of one byte.
unfoldable pub split : Bytes → ℕ → List Bytes
split [] sep = [] ∷ []
split (c ∷ text) sep =
    let parts = split text sep in if c == sep then [] ∷ parts else onto_first c parts

-- `strings.HasPrefix`
unfoldable pub has_prefix : Bytes → Bytes → Bool
has_prefix text [] = true
has_prefix [] (d ∷ prefix) = false
has_prefix (c ∷ text) (d ∷ prefix) = c == d && has_prefix text prefix

-- `strings.Contains`
unfoldable pub contains : Bytes → Bytes → Bool
unfolding has_prefix
contains [] part = has_prefix [] part
contains (c ∷ text) part = has_prefix (c ∷ text) part || contains text part

-- The digits that are left, after those that made `n`.
unfoldable pub read_digits : ℕ → Bytes → Option ℕ
read_digits n [] = some n
read_digits n (c ∷ text) = elim (leb b'0' c && leb c b'9') [
  | true ↦ read_digits (n * 10 + (c - b'0')) text
  | false ↦ none
]

abbrev pub read_number : Bytes → Option ℕ
read_number [] = none
read_number (c ∷ text) = read_digits 0 (c ∷ text)

-- The range of `int`, which has 64 bits.
abbrev positive : Option ℕ → Option ℤ
positive none = none
positive (some n) = if leb n 9223372036854775807 then some (pos n) else none

abbrev negative : Option ℕ → Option ℤ
negative none = none
negative (some n) =
    if n == 0
    then some (pos 0)
    else if leb n 9223372036854775808
    then some (negsuc (n - 1))
    else none

-- `strconv.Atoi`: digits behind an optional sign.
unfoldable pub atoi : Bytes → Option ℤ
unfolding read_digits
atoi [] = none
atoi (c ∷ text) =
    if c == b'+'
    then positive (read_number text)
    else if c == b'-'
    then negative (read_number text)
    else positive (read_number (c ∷ text))
