-- ===== src/Tests/Bounces.antt =====
-- The bounce policy and the template gate.
use lecrm.Common.{false, ◌≡◌, refl, lookup, nat_eq, string_eq}
use lecrm.Common.Int.{pos}
use lecrm.Sequences.Store.{Tx, statement}
use lecrm.Sequences.Limits.{default_limits}
use lecrm.Sequences.Preflight.{recipient, preflight}
use lecrm.Sequences.Preflight.Gates.{lets_send}
use lecrm.Sequences.Bounce.{
  hard, evaluate_bounce, apply_bounce, act, upsert_suppression, is_soft_kind,
}
use lecrm.Sequences.Bounce.Policy.{preflight-apply_bounce}
use lecrm.Tests.Data.{no_faults, open_tx, leap_day}

abbrev bounced_tx : Tx
unfolding apply_bounce
bounced_tx = (apply_bounce no_faults 50 "ann@example.org" hard default_limits open_tx).0

preflight-apply_bounce_example :
    lets_send (preflight no_faults leap_day 5 (pos 1) default_limits bounced_tx).1 ≡ false
unfolding apply_bounce act upsert_suppression is_soft_kind evaluate_bounce statement recipient
    lookup
preflight-apply_bounce_example =
    preflight-apply_bounce no_faults 50 "ann@example.org" hard default_limits open_tx bounced_tx
      no_faults leap_day 5 7 (pos 1) default_limits refl refl refl refl
