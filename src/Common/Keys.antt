-- ===== src/Common/Keys.antt =====
-- Types with a Boolean equality: the keys of maps and the identifiers that the code compares.
use Prim.Native.Nat.{ℕ}
use Prim.Native.String.{String}
use mathlib.Core.Path.{◌≡◌, refl}
use mathlib.Core.Logic.{◌↔◌}
use mathlib.Core.Bool.{Bool, true, false, ◌&&◌}
use mathlib.Core.List.{List, [], ◌∷◌}
use native.Mathlib.Omega.{arith}
use text.Mathlib.Text.{◌==◌ as str_eq}
use text.Mathlib.TextEquality.{eq_iff}
use lecrm.Common.Tests.{eqb, eqb_iff}

-- A test of the keys that decides their equality.
pub record Eq {κ} (K : Type κ) : Type κ where
  pub same : K → K → Bool
  pub same_iff : (j k : K) → (same j k ≡ true) ↔ (j ≡ k)

-- Lists of numbers, such as texts by their code points.
abbrev pub codes_beq : List ℕ → List ℕ → Bool
codes_beq [] [] = true
codes_beq (x ∷ xs) (y ∷ ys) = eqb x y && codes_beq xs ys
codes_beq _ _ = false

codes_beq_sound : (xs ys : List ℕ) → codes_beq xs ys ≡ true → xs ≡ ys
codes_beq_sound [] [] h = refl
codes_beq_sound (x ∷ xs) (y ∷ ys) h = ground (arith, codes_beq_sound xs ys)
codes_beq_sound [] (y ∷ ys) h = ground arith
codes_beq_sound (x ∷ xs) [] h = ground arith

codes_beq_self : (xs : List ℕ) → codes_beq xs xs ≡ true
codes_beq_self [] = refl
codes_beq_self (x ∷ xs) = ground (arith, codes_beq_self xs)

codes_beq_complete : (xs ys : List ℕ) → xs ≡ ys → codes_beq xs ys ≡ true
codes_beq_complete xs ys p = rw (← p) (codes_beq_self xs)

pub codes_beq_iff : (xs ys : List ℕ) → (codes_beq xs ys ≡ true) ↔ (xs ≡ ys)
codes_beq_iff xs ys = (codes_beq_sound xs ys, codes_beq_complete xs ys)

instance abbrev pub codes_eq : Eq (List ℕ)
codes_eq = record { same_iff = codes_beq_iff; same = codes_beq }

instance abbrev pub string_eq : Eq String
string_eq = record { same_iff = eq_iff; same = str_eq }

instance abbrev pub nat_eq : Eq ℕ
nat_eq = record { same_iff = eqb_iff; same = eqb }

infix 50 ◌==◌
abbrev pub ◌==◌ {κ} : {K : Type κ} ⦃keys : Eq K⦄ → K → K → Bool
◌==◌ ⦃keys⦄ j k = keys.same j k

module _ {ℓ} {A : Type ℓ} ⦃e : Eq A⦄ where
  pub beq_refl : (a : A) → (a == a) ≡ true
  beq_refl a = (e.same_iff a a).1 refl
