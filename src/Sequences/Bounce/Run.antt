-- ===== src/Sequences/Bounce/Run.antt =====
-- What the count of consecutive soft bounces counts.
use lecrm.Common.{
  ℕ, suc, ◌<◌, String, Bool, true, some, List, [], ◌∷◌, ◌++◌, ◌≡◌, refl, arith, All, lt→ltb,
  if◌then◌else◌,
}
use lecrm.Sequences.Store.{Step, Db}
use lecrm.Sequences.Bounce.{
  Attempt, is_soft, went_to, attempts, insert_latest, order_latest, leading_soft,
}

insert_latest-newest :
    (t : ℕ) (b : Bool) (xs : List Attempt)
    → All (λ x. x.0 < t) xs
    → insert_latest (t, b) xs ≡ (t, b) ∷ xs
unfolding insert_latest
insert_latest-newest t b [] h = refl
insert_latest-newest t b (x ∷ xs) h = ground arith

All-insert_latest :
    (t : ℕ) (a : Attempt) (xs : List Attempt)
    → a.0 < t
    → All (λ x. x.0 < t) xs
    → All (λ x. x.0 < t) (insert_latest a xs)
unfolding insert_latest
All-insert_latest t a [] h k = (h, tt)
All-insert_latest t a (x ∷ xs) h k = ground (arith, All-insert_latest t a xs h k.1)

All-order_latest :
    (t : ℕ) (xs : List Attempt) → All (λ x. x.0 < t) xs → All (λ x. x.0 < t) (order_latest xs)
unfolding order_latest
All-order_latest t [] h = tt
All-order_latest t (x ∷ xs) h =
    All-insert_latest t x (order_latest xs) h.0 (All-order_latest t xs h.1)

-- The newest attempt comes first, wherever it stands in the table.
order_latest-newest :
    (t : ℕ) (b : Bool) (xs ys : List Attempt)
    → All (λ x. x.0 < t) (xs ++ ys)
    → order_latest (xs ++ (t, b) ∷ ys) ≡ (t, b) ∷ order_latest (xs ++ ys)
unfolding order_latest insert_latest
order_latest-newest t b [] ys h =
    insert_latest-newest t b (order_latest ys) (All-order_latest t ys h)
order_latest-newest t b (x ∷ xs) ys h =
    rw (order_latest-newest t b xs ys h.1) (older_after x (order_latest (xs ++ ys)) h.0)
  where
    older_after :
        (a : Attempt) (rest : List Attempt)
        → a.0 < t
        → insert_latest a ((t, b) ∷ rest) ≡ (t, b) ∷ insert_latest a rest
    older_after (u, c) rest k = rw (lt→ltb u t k)

attempts-append :
    (d : Db) (email : String) (xs ys : List Step)
    → attempts d email (xs ++ ys) ≡ attempts d email xs ++ attempts d email ys
unfolding attempts
attempts-append d email [] ys = refl
attempts-append d email (s ∷ xs) ys = ground (arith, attempts-append d email xs ys)

-- One more attempt at the address, sent later than all the others: if it soft-bounced the run is one
-- longer, and if it did not (delivered, or bounced hard) the run is over, whatever came before.
leading_soft-newest :
    (d : Db) (email : String) (s : Step) (t : ℕ) (xs ys : List Step)
    → went_to d email s ≡ true
    → s.sent_at ≡ some t
    → All (λ a. a.0 < t) (attempts d email (xs ++ ys))
    → leading_soft (order_latest (attempts d email (xs ++ s ∷ ys)))
      ≡ (if is_soft s then suc (leading_soft (order_latest (attempts d email (xs ++ ys)))) else 0)
unfolding leading_soft attempts
leading_soft-newest d email s t xs ys here sent newest =
    rw (attempts-append, here, sent)
      (rw
        (order_latest-newest t (is_soft s) (attempts d email xs) (attempts d email ys)
          (rw attempts-append at newest))
        (rw attempts-append))
