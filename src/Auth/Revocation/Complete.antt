-- ===== src/Auth/Revocation/Complete.antt =====
-- What the cache answers after a refresh (apps/api/internal/auth/revocation.go).
use lecrm.Common.{
  ℕ, ◌≤◌, Bool, true, false, ◌||◌, List, [], ◌∷◌, any, ◌==◌, nat_eq, ok, lookup, Bool-cases, ◌≡◌,
  inl, inr, arith,
}
use lecrm.Auth.Revocation.{
  SessionRevocation, Revocations, RevocationCache, load_revoked_jtis, refresh, is_older, is_active,
  is_revoked,
}
use lecrm.Auth.Revocation.Bloom.{test-filter_of}

-- What the tables say.
abbrev pub revoked_in : ℕ → Revocations → ℕ → ℕ → ℕ → Bool
revoked_in now db jti user issued =
    is_older issued (lookup user db.users) || any (is_active now jti) db.sessions

loaded-is_active :
    (t now jti : ℕ) (rows : List SessionRevocation)
    → t ≤ now
    → any (is_active now jti) rows ≡ true
    → any (λ j. j == jti) (load_revoked_jtis t rows) ≡ true
unfolding load_revoked_jtis
loaded-is_active t now jti [] le h = cc
loaded-is_active t now jti (row ∷ rows) le h = ground (arith, loaded-is_active t now jti rows)

-- After a refresh that went through, and while the tables stay as they were, the cache answers exactly
-- what the tables say: whether all older sessions of the user are revoked, or this one is and its
-- revocation has not expired. Whatever the hash function, the filter hides no revocation.
pub is_revoked-refresh :
    (sum64 : ℕ → ℕ) (t now : ℕ) (db : Revocations) (rc : RevocationCache) (jti user issued : ℕ)
    → t ≤ now
    → is_revoked sum64 false now db (refresh sum64 false false t db rc) jti user issued
      ≡ ok (revoked_in now db jti user issued)
unfolding is_revoked refresh
is_revoked-refresh sum64 t now db rc jti user issued le =
    elim (Bool-cases (any (is_active now jti) db.sessions)) [
      | inl active ↦ ground (
        arith,
        active,
        test-filter_of sum64 jti (load_revoked_jtis t db.sessions)
            (loaded-is_active t now jti db.sessions le active),
      )
      | inr inactive ↦ ground (arith, inactive)
    ]
