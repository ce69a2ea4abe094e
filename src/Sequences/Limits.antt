-- ===== src/Sequences/Limits.antt =====
-- The deliverability budget (apps/api/internal/sequences/preflight.go).
-- A `time.Duration` is a signed number of nanoseconds.
use lecrm.Common.{if◌then◌else◌}
use lecrm.Common.Int.{ℤ, pos, leb_ℤ}
use lecrm.Calendar.{nanos_per_day}

pub record Limits : Type 0 where
  pub monthly_send_cap : ℤ
  pub throttle_window : ℤ
  pub soft_bounce_suppress_threshold : ℤ

abbrev pub default_monthly_send_cap : ℤ
default_monthly_send_cap = pos 5000

abbrev pub default_throttle_window : ℤ
default_throttle_window = pos nanos_per_day

abbrev pub default_soft_bounce_suppress_threshold : ℤ
default_soft_bounce_suppress_threshold = pos 3

abbrev pub default_limits : Limits
default_limits = record {
  monthly_send_cap = default_monthly_send_cap;
  throttle_window = default_throttle_window;
  soft_bounce_suppress_threshold = default_soft_bounce_suppress_threshold;
}

unfoldable pub with_defaults : Limits → Limits
with_defaults l = record l {
  throttle_window =
      if leb_ℤ l.throttle_window (pos 0) then default_throttle_window else l.throttle_window;
  soft_bounce_suppress_threshold =
      if leb_ℤ l.soft_bounce_suppress_threshold (pos 0)
      then default_soft_bounce_suppress_threshold
      else l.soft_bounce_suppress_threshold;
}
