-- ===== src/Encoding/Split.antt =====
-- `strings.Split` and `strings.Join` at a separator of one byte.
use lecrm.Common.{ℕ, ◌≡◌, ◌≢◌, refl, ap, ◌∙◌, arith, List, [], ◌∷◌, ◌++◌, All, eqb, if◌then◌else◌}

abbrev add_to_first : ℕ → List (List ℕ) → List (List ℕ)
add_to_first c [] = (c ∷ []) ∷ []
add_to_first c (part ∷ parts) = (c ∷ part) ∷ parts

unfoldable pub split : ℕ → List ℕ → List (List ℕ)
split sep [] = [] ∷ []
split sep (c ∷ s) = let rest = split sep s in if eqb c sep then [] ∷ rest else add_to_first c rest

unfoldable pub join : ℕ → List (List ℕ) → List ℕ
join sep [] = []
join sep (part ∷ []) = part
join sep (part ∷ next ∷ parts) = part ++ sep ∷ join sep (next ∷ parts)

abbrev pub Free : ℕ → List ℕ → Type 0
Free sep = All (λ c. c ≢ sep)

-- The first part ends at the first separator.
pub split-append :
    (sep : ℕ) (part rest : List ℕ)
    → Free sep part
    → split sep (part ++ sep ∷ rest) ≡ part ∷ split sep rest
unfolding split
split-append sep [] rest h = ground arith
split-append sep (c ∷ part) rest h = ground (arith, split-append sep part rest h.1)

pub split_whole : (sep : ℕ) (part : List ℕ) → Free sep part → split sep part ≡ part ∷ []
unfolding split
split_whole sep [] h = refl
split_whole sep (c ∷ part) h = ground (arith, split_whole sep part h.1)

-- Two texts that go on after the separator agree in both halves.
pub append-split_unique :
    (sep : ℕ) (a b x y : List ℕ)
    → Free sep a
    → Free sep b
    → a ++ sep ∷ x ≡ b ++ sep ∷ y
    → (a ≡ b) × (x ≡ y)
append-split_unique sep [] [] x y ha hb e = ground arith
append-split_unique sep [] (d ∷ b) x y ha hb e = ground arith
append-split_unique sep (c ∷ a) [] x y ha hb e = ground arith
append-split_unique sep (c ∷ a) (d ∷ b) x y ha hb e =
    ground (arith, append-split_unique sep a b x y ha.1 hb.1)

-- Joined parts without the separator come apart again.
pub split-join :
    (sep : ℕ) (part : List ℕ) (parts : List (List ℕ))
    → Free sep part
    → All (Free sep) parts
    → split sep (join sep (part ∷ parts)) ≡ part ∷ parts
unfolding join
split-join sep part [] h k = split_whole sep part h
split-join sep part (next ∷ parts) h k =
    split-append sep part (join sep (next ∷ parts)) h
    ∙ ap (λ (r : List (List ℕ)). part ∷ r) (split-join sep next parts k.0 k.1)
