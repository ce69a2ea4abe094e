-- ===== src/Common/Text.antt =====
-- Texts that the code takes apart, as lists of code points: the parts of Go's `strings` in use.
-- `lower` maps the ASCII letters and the two other code points whose lower case is an ASCII letter;
-- the rest stay, which no comparison with an ASCII text can tell.
use Prim.Native.Nat.{ℕ, ◌+◌}
use Prim.Native.Char.{code}
use Prim.Native.String.{String}
use mathlib.Core.Bool.{Bool, true, false, ◌&&◌, ◌||◌}
use mathlib.Core.List.{List, [], ◌∷◌, map, reverse}
use lecrm.Common.Tests.{leb, eqb, if◌then◌else◌}

abbrev pub codes : String → List ℕ
codes String.[] = []
codes (String.◌∷◌ c s) = code c ∷ codes s

-- `unicode.IsSpace`.
unfoldable pub is_space : ℕ → Bool
is_space c =
    (leb 9 c && leb c 13)
    || eqb c 32
    || eqb c 0x85
    || eqb c 0xa0
    || eqb c 0x1680
    || (leb 0x2000 c && leb c 0x200a)
    || eqb c 0x2028
    || eqb c 0x2029
    || eqb c 0x202f
    || eqb c 0x205f
    || eqb c 0x3000

unfoldable pub trim_left : List ℕ → List ℕ
unfolding is_space
trim_left [] = []
trim_left (c ∷ s) = if is_space c then trim_left s else c ∷ s

-- `strings.TrimSpace`.
unfoldable pub trim_space : List ℕ → List ℕ
unfolding trim_left
trim_space s = reverse (trim_left (reverse (trim_left s)))

unfoldable pub lower : ℕ → ℕ
lower c =
    if leb b'A' c && leb c b'Z'
    then c + 32
    else if eqb c 0x130
    then b'i'
    else if eqb c 0x212a
    then b'k'
    else c

-- `strings.ToLower`.
unfoldable pub to_lower : List ℕ → List ℕ
unfolding lower
to_lower = map lower

abbrev pub is_prefix : List ℕ → List ℕ → Bool
is_prefix [] s = true
is_prefix (p ∷ ps) [] = false
is_prefix (p ∷ ps) (c ∷ s) = eqb p c && is_prefix ps s

-- `strings.Contains s part`.
unfoldable pub contains_text : List ℕ → List ℕ → Bool
contains_text [] part = is_prefix part []
contains_text (c ∷ s) part = is_prefix part (c ∷ s) || contains_text s part

abbrev add_field : List ℕ → List (List ℕ) → List (List ℕ)
add_field [] rest = rest
add_field (c ∷ word) rest = (c ∷ word) ∷ rest

-- The word that a text begins with, and the words after it.
abbrev words : List ℕ → List ℕ × List (List ℕ)
words [] = ([], [])
words (c ∷ s) =
    let after = words s in
    if is_space c then ([], add_field after.0 after.1) else (c ∷ after.0, after.1)

-- `strings.Fields`.
unfoldable pub fields : List ℕ → List (List ℕ)
fields s = let found = words s in add_field found.0 found.1

-- `strings.TrimPrefix` and `strings.TrimSuffix` of one code point.
unfoldable pub trim_prefix : ℕ → List ℕ → List ℕ
trim_prefix p [] = []
trim_prefix p (c ∷ s) = if eqb c p then s else c ∷ s

unfoldable pub trim_suffix : ℕ → List ℕ → List ℕ
unfolding trim_prefix
trim_suffix p s = reverse (trim_prefix p (reverse s))
