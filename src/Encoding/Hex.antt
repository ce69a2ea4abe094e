-- ===== src/Encoding/Hex.antt =====
-- `hex.EncodeToString`.
use lecrm.Common.{
  ℕ, ◌+◌, ◌/◌, ◌%◌, ◌<◌, List, [], ◌∷◌, ltb, if◌then◌else◌, All, ◌≡◌, refl, ap, arith,
}
use lecrm.Encoding.Base64.{IsByte}
use lecrm.Encoding.Split.{Free}

abbrev hex_digit : ℕ → ℕ
hex_digit n = if ltb n 10 then n + b'0' else n + 87

unfoldable pub hex : List ℕ → List ℕ
hex [] = []
hex (b ∷ bytes) = hex_digit (b / 16) ∷ hex_digit (b % 16) ∷ hex bytes

hex_digit_unique : (m n : ℕ) → m < 16 → n < 16 → hex_digit m ≡ hex_digit n → m ≡ n
hex_digit_unique m n a b h = ground arith

pub hex-no_nul : (bytes : List ℕ) → Free 0 (hex bytes)
unfolding hex
hex-no_nul [] = tt
hex-no_nul (b ∷ bytes) = ((λ e. ground arith), ((λ e. ground arith), hex-no_nul bytes))

abbrev head_or_zero : List ℕ → ℕ
head_or_zero [] = 0
head_or_zero (b ∷ bytes) = b

abbrev tail_of : List ℕ → List ℕ
tail_of [] = []
tail_of (b ∷ bytes) = bytes

-- Two texts of bytes have one hexadecimal text only if they are the same.
pub hex_unique : (a b : List ℕ) → All IsByte a → All IsByte b → hex a ≡ hex b → a ≡ b
unfolding hex
hex_unique [] [] ha hb h = refl
hex_unique [] (y ∷ b) ha hb h = cc
hex_unique (x ∷ a) [] ha hb h = cc
hex_unique (x ∷ a) (y ∷ b) ha hb h =
    let high =
      hex_digit_unique (x / 16) (y / 16) (omega (arith, ha.0)) (omega (arith, hb.0))
        (ap head_or_zero h) in
    let low =
      hex_digit_unique (x % 16) (y % 16) (omega arith) (omega arith)
        (ap (λ s. head_or_zero (tail_of s)) h) in
    let rest = hex_unique a b ha.1 hb.1 (ap (λ s. tail_of (tail_of s)) h) in
    let first : x ≡ y = omega (arith, high, low) in cc
