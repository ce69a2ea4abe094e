-- ===== src/Sequences/Activation.antt =====
-- The content gate of a template (apps/api/internal/sequences/glockapps.go).
use lecrm.Common.{
  Bool, true, false, not, ◌&&◌, ◌||◌, Bool-cases, ◌≡◌, ◌⊎◌, inl, inr, refl, arith, if◌then◌else◌,
  Result, ok, err,
}
use lecrm.Common.Int.{ℤ, pos, leb_ℤ, ltb_ℤ, ◌≤ℤ◌}

abbrev pub glock_apps_min_score : ℤ
glock_apps_min_score = pos 7

abbrev pub glock_apps_max_score : ℤ
glock_apps_max_score = pos 10

pub data ScoreError : Type 0 where
  invalid_glock_apps_score : ScoreError

-- `Reason` is a text for a reader, told apart by the three flags.
pub record ActivationDecision : Type 0 where
  pub allowed : Bool
  pub blocked : Bool
  pub overridden : Bool
  pub score : ℤ

-- `CheckTemplateActivation`
unfoldable pub check_template_activation : ℤ → Bool → Result ScoreError ActivationDecision
check_template_activation score admin_override =
    if ltb_ℤ score (pos 0) || ltb_ℤ glock_apps_max_score score
    then err invalid_glock_apps_score
    else if leb_ℤ glock_apps_min_score score
    then ok (record { allowed = true; blocked = false; overridden = false; score = score })
    else if admin_override
    then ok (record { allowed = true; blocked = false; overridden = true; score = score })
    else ok (record { allowed = false; blocked = true; overridden = false; score = score })

-- The gate decides exactly the scores from 0 to 10. Exactly one of allowed and blocked is then set,
-- allowed exactly from 7 on or under an override, and the override is recorded exactly where it was
-- needed; any other score is refused as an error, whatever the override.
check_template_activation_decides :
    (score : ℤ) (admin_override : Bool)
    → ((pos 0 ≤ℤ score)
        × (score ≤ℤ pos 10)
        × ((d : ActivationDecision) × (check_template_activation score admin_override ≡ ok d)
            × (d.allowed ≡ (leb_ℤ (pos 7) score || admin_override))
            × (d.blocked ≡ not d.allowed)
            × (d.overridden ≡ (admin_override && not (leb_ℤ (pos 7) score)))
            × (d.score ≡ score)))
      ⊎ ((¬ ((pos 0 ≤ℤ score) × (score ≤ℤ pos 10)))
          × (check_template_activation score admin_override ≡ err invalid_glock_apps_score))
unfolding check_template_activation
check_template_activation_decides score admin_override =
    elim (Bool-cases (ltb_ℤ score (pos 0) || ltb_ℤ glock_apps_max_score score)) [
      | inl out ↦ inr (ground arith, rw out)
      | inr in_range ↦ inl (
        ground arith,
        ground arith,
        elim (Bool-cases (leb_ℤ glock_apps_min_score score)) [
          | inl passes ↦ (
            record { allowed = true; blocked = false; overridden = false; score = score },
            rw (in_range, passes),
            ground arith,
            refl,
            ground arith,
            refl,
          )
          | inr below ↦ (
            record {
              allowed = admin_override;
              blocked = not admin_override;
              overridden = admin_override;
              score = score;
            },
            ground arith,
            ground arith,
            ground arith,
            ground arith,
            refl,
          )
        ],
      )
    ]
