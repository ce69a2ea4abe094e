-- ===== src/Email/Delivery.antt =====
-- To whom the provider is asked to write.
use lecrm.Common.{
  String, Bool, true, false, ◌&&◌, Option, none, some, List, [], ◌∷◌, ◌++◌, All, is_empty, contains,
  lookup, beq_refl, string_eq, ◌≡◌, ◌⊎◌, inl, inr, refl, sym, ap, arith, eq_iff, if◌then◌else◌,
  Result, ok, err,
}
use lecrm.Email.{
  Schema, Address, SendRequest, Suppression, World, Faults, exec, write_audit_event,
  suppressed_rows, suppressed,
}
use lecrm.Email.Service.{
  Service, BounceStats, address_emails, write_audit, split_recipients, message_to, hand_over,
  after_provider, deliver, send_unpaused, send_checked, send_gated, send, BounceRateChecker,
}

abbrev pub is_there : Option Suppression → Bool
is_there none = false
is_there (some row) = true

-- The list of a schema has the address.
abbrev pub is_listed : World → Schema → String → Bool
is_listed w schema email = is_there (lookup email (w.suppressions schema))

-- The recipients that the list does not have, in order.
unfoldable pub unlisted : World → Schema → List Address → List Address
unlisted w schema [] = []
unlisted w schema (a ∷ addrs) =
    let rest = unlisted w schema addrs in if is_listed w schema a.email then rest else a ∷ rest

contains-suppressed_rows :
    (e : String) (emails : List String) (table : List (String × Suppression))
    → contains e (suppressed_rows emails table) ≡ (contains e emails && is_there (lookup e table))
unfolding lookup
contains-suppressed_rows e emails [] = ground arith
contains-suppressed_rows e emails ((k, row) ∷ table) =
    ground (arith, contains-suppressed_rows e emails table, eq_iff k e)

pub suppressed_rows_nil : (table : List (String × Suppression)) → suppressed_rows [] table ≡ []
suppressed_rows_nil [] = refl
suppressed_rows_nil ((k, row) ∷ table) = suppressed_rows_nil table

pub split_recipients-unlisted :
    (w : World) (schema : Schema) (emails : List String) (addrs : List Address)
    → All (λ a. contains a.email emails ≡ true) addrs
    → (split_recipients (suppressed_rows emails (w.suppressions schema)) addrs).0
      ≡ unlisted w schema addrs
unfolding split_recipients unlisted
split_recipients-unlisted w schema emails [] h = refl
split_recipients-unlisted w schema emails (a ∷ addrs) h = ground (
  arith,
  contains-suppressed_rows a.email emails (w.suppressions schema),
  split_recipients-unlisted w schema emails addrs h.1,
)

All-contains_more :
    (e : String) (emails : List String) (addrs : List Address)
    → All (λ a. contains a.email emails ≡ true) addrs
    → All (λ a. contains a.email (e ∷ emails) ≡ true) addrs
All-contains_more e emails [] h = tt
All-contains_more e emails (a ∷ addrs) h = (ground arith, All-contains_more e emails addrs h.1)

pub All-address_emails :
    (addrs : List Address) → All (λ a. contains a.email (address_emails addrs) ≡ true) addrs
All-address_emails [] = tt
All-address_emails (a ∷ addrs) = (
  rw (beq_refl a.email) refl,
  All-contains_more a.email (address_emails addrs) addrs (All-address_emails addrs),
)

-- What a send can hand over.
abbrev pub IsHanded : SendRequest → World → World → Type 0
IsHanded req w w' =
    (w'.suppressions ≡ w.suppressions)
    × ((w'.handed ≡ w.handed)
        ⊎ ((is_empty (unlisted w req.schema req.recipients) ≡ false)
            × (w'.handed
                ≡ w.handed
                  ++ (req.schema, message_to req (unlisted w req.schema req.recipients)) ∷ [])))

after_provider_keeps :
    (faults : Faults) (req : SendRequest) (allowed : List Address) (skipped : List String)
    (answer : Result String String) (w : World)
    → ((after_provider faults req allowed skipped answer w).0.handed ≡ w.handed)
      × ((after_provider faults req allowed skipped answer w).0.suppressions ≡ w.suppressions)
unfolding after_provider write_audit write_audit_event exec
after_provider_keeps faults req allowed skipped (err why) w = ground arith
after_provider_keeps faults req allowed skipped (ok id) w = ground arith

module _ (service : Service) (faults : Faults) (req : SendRequest) where
  deliver-IsHanded :
      (skipped : List String) (v w : World)
      → w.suppressions ≡ v.suppressions
      → w.handed ≡ v.handed
      → IsHanded req v
          (deliver service faults req (unlisted v req.schema req.recipients) skipped w).0
  unfolding deliver write_audit write_audit_event exec
  deliver-IsHanded skipped v w e f =
      let msg = message_to req (unlisted v req.schema req.recipients) in
      ground (
        arith,
        after_provider_keeps faults req (unlisted v req.schema req.recipients) skipped
            (service.provider msg) (hand_over req.schema msg w),
      )

  suppressed_cases :
      (emails : List String) (w : World)
      → ((suppressed faults req.schema emails w).1 ≡ none)
        ⊎ ((suppressed faults req.schema emails w).1
            ≡ some (suppressed_rows emails (w.suppressions req.schema)))
  unfolding suppressed exec
  suppressed_cases [] w = inr (ap some (sym (suppressed_rows_nil (w.suppressions req.schema))))
  suppressed_cases (e ∷ emails) w = ground arith

  suppressed_keeps :
      (emails : List String) (w : World)
      → ((suppressed faults req.schema emails w).0.handed ≡ w.handed)
        × ((suppressed faults req.schema emails w).0.suppressions ≡ w.suppressions)
  unfolding suppressed exec
  suppressed_keeps [] w = (refl, refl)
  suppressed_keeps (e ∷ emails) w = ground arith

  send_unpaused-IsHanded : (w : World) → IsHanded req w (send_unpaused service faults req w).0
  unfolding send_unpaused
  send_unpaused-IsHanded w =
      let emails = address_emails req.recipients in
      let (same_handed, same_list) = suppressed_keeps emails w in
      elim (suppressed_cases emails w) [
        | inl failed ↦ rw (failed, send_unpaused) (same_list, inl same_handed)
        | inr rows ↦
            let split =
              split_recipients-unlisted w req.schema emails req.recipients
                (All-address_emails req.recipients) in
            rw (rows, send_unpaused, split)
              (deliver-IsHanded _ w (suppressed faults req.schema emails w).0 same_list same_handed)
      ]

  send_checked-IsHanded :
      (stats : Result String BounceStats) (w : World)
      → IsHanded req w (send_checked service faults req stats w).0
  unfolding send_checked write_audit write_audit_event exec
  send_checked-IsHanded (err why) w = (refl, inl refl)
  send_checked-IsHanded (ok stats) w = ground (arith, send_unpaused-IsHanded w)

  send_gated-IsHanded :
      (o : Option BounceRateChecker) (w : World)
      → IsHanded req w (send_gated service faults req o w).0
  unfolding send_gated
  send_gated-IsHanded none w = send_unpaused-IsHanded w
  send_gated-IsHanded (some stats_of) w = send_checked-IsHanded _ w

-- However a send ends, it leaves the suppression lists alone and hands the provider at most one
-- message: to exactly those of its recipients, at least one, that the list of its schema does not have.
pub send-IsHanded :
    (service : Service) (faults : Faults) (req : SendRequest) (w : World)
    → IsHanded req w (send service faults req w).0
unfolding send
send-IsHanded service faults req w =
    ground (arith, send_gated-IsHanded service faults req service.bounce_rate w)
