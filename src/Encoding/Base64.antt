-- ===== src/Encoding/Base64.antt =====
-- `base64.RawURLEncoding`: no padding, line breaks skipped, trailing bits ignored.
use lecrm.Common.{
  ℕ, ◌+◌, ◌-◌, ◌*◌, ◌/◌, ◌%◌, ◌<◌, ◌≡◌, ◌≢◌, refl, ◌∙◌, arith, false, ◌&&◌, ◌||◌, Option, none,
  some, List, [], ◌∷◌, All, eqb, leb, ltb, if◌then◌else◌,
}

unfoldable pub symbol : ℕ → ℕ
symbol k =
    if ltb k 26
    then k + b'A'
    else if ltb k 52
    then k - 26 + b'a'
    else if ltb k 62
    then k - 52 + b'0'
    else if eqb k 62
    then b'-'
    else b'_'

unfoldable pub value : ℕ → Option ℕ
value c =
    if leb b'A' c && leb c b'Z'
    then some (c - b'A')
    else if leb b'a' c && leb c b'z'
    then some (c - b'a' + 26)
    else if leb b'0' c && leb c b'9'
    then some (c - b'0' + 52)
    else if eqb c b'-'
    then some 62
    else if eqb c b'_'
    then some 63
    else none

unfoldable pub encode : List ℕ → List ℕ
encode [] = []
encode (a ∷ []) = symbol (a / 4) ∷ symbol (a % 4 * 16) ∷ []
encode (a ∷ b ∷ []) = symbol (a / 4) ∷ symbol (a % 4 * 16 + b / 16) ∷ symbol (b % 16 * 4) ∷ []
encode (a ∷ b ∷ c ∷ rest) =
    symbol (a / 4)
    ∷ symbol (a % 4 * 16 + b / 16)
    ∷ symbol (b % 16 * 4 + c / 64)
    ∷ symbol (c % 64)
    ∷ encode rest

-- The six-bit values of a text, its line breaks skipped.
unfoldable pub values : List ℕ → Option (List ℕ)
values [] = some []
values (c ∷ s) =
    let rest = values s in
    if eqb c 10 || eqb c 13 then rest else elim (value c) [
      | none ↦ none
      | some v ↦ elim rest [ none ↦ none | some vs ↦ some (v ∷ vs) ]
    ]

unfoldable pub bytes_of_values : List ℕ → Option (List ℕ)
bytes_of_values [] = some []
bytes_of_values (p ∷ []) = none
bytes_of_values (p ∷ q ∷ []) = some ((p * 4 + q / 16) ∷ [])
bytes_of_values (p ∷ q ∷ r ∷ []) = some ((p * 4 + q / 16) ∷ (q % 16 * 16 + r / 4) ∷ [])
bytes_of_values (p ∷ q ∷ r ∷ s ∷ rest) = elim (bytes_of_values rest) [
  | none ↦ none
  | some bs ↦ some ((p * 4 + q / 16) ∷ (q % 16 * 16 + r / 4) ∷ (r % 4 * 64 + s) ∷ bs)
]

unfoldable pub decode : List ℕ → Option (List ℕ)
unfolding values bytes_of_values
decode s = elim (values s) [ none ↦ none | some vs ↦ bytes_of_values vs ]

abbrev pub IsByte : ℕ → Type 0
IsByte b = b < 256

value-symbol : (k : ℕ) → k < 64 → value (symbol k) ≡ some k
unfolding value symbol
value-symbol k h = ground arith

-- A symbol is no line break, and no full stop.
pub symbol_plain :
    (k : ℕ) → (eqb (symbol k) 10 ≡ false) × (eqb (symbol k) 13 ≡ false) × (symbol k ≢ b'.')
unfolding symbol
symbol_plain k = ground arith

values-symbol :
    (k : ℕ) (s vs : List ℕ) → k < 64 → values s ≡ some vs → values (symbol k ∷ s) ≡ some (k ∷ vs)
unfolding values
values-symbol k s vs h e = ground (arith, symbol_plain k, value-symbol k)

-- The six-bit values that encoding cuts the bytes into.
sextets : List ℕ → List ℕ
sextets [] = []
sextets (a ∷ []) = (a / 4) ∷ (a % 4 * 16) ∷ []
sextets (a ∷ b ∷ []) = (a / 4) ∷ (a % 4 * 16 + b / 16) ∷ (b % 16 * 4) ∷ []
sextets (a ∷ b ∷ c ∷ rest) =
    (a / 4) ∷ (a % 4 * 16 + b / 16) ∷ (b % 16 * 4 + c / 64) ∷ (c % 64) ∷ sextets rest

values-encode : (bs : List ℕ) → All IsByte bs → values (encode bs) ≡ some (sextets bs)
unfolding encode sextets
values-encode [] h = unfold values in refl
values-encode (a ∷ []) h =
    values-symbol _ _ _ (omega arith) (values-symbol _ _ _ (omega arith) (unfold values in refl))
values-encode (a ∷ b ∷ []) h =
    values-symbol _ _ _ (omega arith) (
      values-symbol _ _ _ (omega arith) (values-symbol _ _ _ (omega arith) (unfold values in refl)))
values-encode (a ∷ b ∷ c ∷ rest) h = values-symbol _ _ _ (omega arith) (
    values-symbol _ _ _ (omega arith) (
      values-symbol _ _ _ (omega arith)
        (values-symbol _ _ _ (omega arith) (values-encode rest h.1.1.1))))

bytes_of_values-sextets : (bs : List ℕ) → All IsByte bs → bytes_of_values (sextets bs) ≡ some bs
unfolding bytes_of_values sextets
bytes_of_values-sextets [] h = refl
bytes_of_values-sextets (a ∷ []) h = ground arith
bytes_of_values-sextets (a ∷ b ∷ []) h = ground arith
bytes_of_values-sextets (a ∷ b ∷ c ∷ rest) h =
    rw (bytes_of_values-sextets rest h.1.1.1) (ground arith)

decode-values : (s : List ℕ) {vs : List ℕ} → values s ≡ some vs → decode s ≡ bytes_of_values vs
unfolding decode
decode-values s e = ground arith

-- What is encoded from bytes decodes to them.
pub decode-encode : (bs : List ℕ) → All IsByte bs → decode (encode bs) ≡ some bs
decode-encode bs h = decode-values (encode bs) (values-encode bs h) ∙ bytes_of_values-sextets bs h

-- What holds of every symbol holds of every byte of an encoded text.
pub All-encode {ℓ} : (P : ℕ → Type ℓ) → ((k : ℕ) → P (symbol k)) → (bs : List ℕ) → All P (encode bs)
unfolding encode
All-encode P each [] = tt
All-encode P each (a ∷ []) = (each _, (each _, tt))
All-encode P each (a ∷ b ∷ []) = (each _, (each _, (each _, tt)))
All-encode P each (a ∷ b ∷ c ∷ rest) =
    (each _, (each _, (each _, (each _, All-encode P each rest))))

-- An encoded text holds no full stop, and no bar.
pub encode-no_dot : (bs : List ℕ) → All (λ c. c ≢ b'.') (encode bs)
encode-no_dot bs = All-encode (λ c. c ≢ b'.') (λ k. (symbol_plain k).2) bs

symbol-ne-bar : (k : ℕ) → symbol k ≢ b'|'
unfolding symbol
symbol-ne-bar k = ground arith

pub encode-no_bar : (bs : List ℕ) → All (λ c. c ≢ b'|') (encode bs)
encode-no_bar bs = All-encode (λ c. c ≢ b'|') symbol-ne-bar bs
