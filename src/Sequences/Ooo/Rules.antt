-- ===== src/Sequences/Ooo/Rules.antt =====
-- The rules that say what a reply is (rules.go). A text is a list of code points. A compiled pattern is
-- a parameter: its source, in bytes, and whether it matches a text.
use lecrm.Common.{
  ℕ, zero, suc, ◌+◌, Bool, true, false, ◌&&◌, not, Option, none, some, List, [], ◌∷◌, ◌++◌, map,
  contains, any, nat_eq, eqb, leb, ltb, length, if◌then◌else◌,
}
use lecrm.Common.Text.{codes, to_lower}

pub record ReplyBody : Type 0 where
  pub sender : List ℕ
  pub subject : List ℕ
  pub body : List ℕ

pub record Pattern : Type 0 where
  pub source : List ℕ
  pub match_string : List ℕ → Bool

pub record Rules : Type 0 where
  pub subject_markers : List Pattern
  pub strong_body : List Pattern
  pub generic_auto : List Pattern
  pub return_phrase : List Pattern

pub data Verdict : Type 0 where
  verdict_reply verdict_ooo verdict_ambiguous : Verdict

-- The confidence in thousandths.
pub record RuleResult : Type 0 where
  pub verdict : Verdict
  pub confidence : ℕ
  pub signals : List (List ℕ)

abbrev pub ambiguous_reply_confidence : ℕ
ambiguous_reply_confidence = 500

-- `strings.ToLower`, with the capitals of Latin-1 besides those of ASCII.
abbrev lower_latin : ℕ → ℕ
lower_latin c = if leb 0xc0 c && leb c 0xde && not (eqb c 0xd7) then c + 32 else c

-- The letters that `accentFolder` replaces: a, e, i, o, u, c and n with their accents.
abbrev pub accented : List (ℕ × List ℕ)
accented =
    (b'a', 0xe0 ∷ 0xe2 ∷ 0xe4 ∷ 0xe1 ∷ 0xe3 ∷ [])
    ∷ (b'e', 0xe9 ∷ 0xe8 ∷ 0xea ∷ 0xeb ∷ [])
    ∷ (b'i', 0xed ∷ 0xec ∷ 0xee ∷ 0xef ∷ [])
    ∷ (b'o', 0xf3 ∷ 0xf2 ∷ 0xf4 ∷ 0xf6 ∷ 0xf5 ∷ [])
    ∷ (b'u', 0xfa ∷ 0xf9 ∷ 0xfb ∷ 0xfc ∷ [])
    ∷ (b'c', 0xe7 ∷ [])
    ∷ (b'n', 0xf1 ∷ [])
    ∷ []

abbrev base_letter : List (ℕ × List ℕ) → ℕ → ℕ
base_letter [] c = c
base_letter (group ∷ groups) c =
    let rest = base_letter groups c in if contains c group.1 then group.0 else rest

abbrev is_accented : ℕ → Bool
is_accented c = any (λ group. contains c group.1) accented

-- `foldAccents`: a text with none of the letters is left as it is.
unfoldable pub fold_accents : List ℕ → List ℕ
fold_accents s = if not (any is_accented s) then s else map (base_letter accented) s

-- What the patterns are tried on.
unfoldable pub normalized : List ℕ → List ℕ
unfolding fold_accents
normalized s = fold_accents (map lower_latin (to_lower s))

-- The first bytes of a pattern's source.
abbrev pub take : ℕ → List ℕ → List ℕ
take zero xs = []
take (suc n) [] = []
take (suc n) (x ∷ xs) = x ∷ take n xs

-- `firstMatch`
unfoldable pub first_match : List Pattern → List ℕ → Option (List ℕ)
first_match [] s = none
first_match (re ∷ patterns) s =
    let rest = first_match patterns s in
    if re.match_string s
    then some (if ltb 28 (length re.source) then take 28 re.source else re.source)
    else rest

abbrev pub is_found : Option (List ℕ) → Bool
is_found none = false
is_found (some name) = true

abbrev named : List ℕ → Option (List ℕ) → List (List ℕ)
named label none = []
named label (some name) = (label ++ name) ∷ []

abbrev plain : List ℕ → Option (List ℕ) → List (List ℕ)
plain label none = []
plain label (some name) = label ∷ []

abbrev pub whole_text : ReplyBody → List ℕ
whole_text body = normalized (body.subject ++ 10 ∷ body.body)

-- `Rules.Evaluate`
unfoldable pub evaluate : Rules → ReplyBody → RuleResult
evaluate rules body =
    let text = whole_text body in
    let in_subject = first_match rules.subject_markers (normalized body.subject) in
    let in_body = first_match rules.strong_body text in
    let auto = first_match rules.generic_auto text in
    let back = first_match rules.return_phrase text in
    let strong = if is_found in_subject then true else is_found in_body in
    let medium = (if is_found auto then 1 else 0) + (if is_found back then 1 else 0) in
    let signals =
      named (codes "subject:") in_subject
      ++ named (codes "body:") in_body
      ++ plain (codes "auto") auto
      ++ plain (codes "return") back in
    if strong
    then record { verdict = verdict_ooo; confidence = 970; signals = signals }
    else if leb 2 medium
    then record { verdict = verdict_ooo; confidence = 900; signals = signals }
    else if eqb medium 1
    then record {
      verdict = verdict_ambiguous;
      confidence = ambiguous_reply_confidence;
      signals = signals;
    }
    else record { verdict = verdict_reply; confidence = 960; signals = signals }
