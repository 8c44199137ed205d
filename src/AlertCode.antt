-- ===== src/AlertCode.antt =====
-- The alert codes and severities of alerts.v1 (gen/go/sumpnet/alerts/v1/alerts.pb.go) and
-- internal/alerts/codes.go.
use sumpnet.Prelude.{ℕ, Bool, true, ◌==◌, ◌≡◌, ◌↔◌, arith}

pub data AlertCode : Type 0 where
  unspecified float_high mains_lost dry_run continuous_run : AlertCode
  sensor_fault short_cycling outage_risk low_battery offline : AlertCode

-- The number of the enum value.
abbrev pub number : AlertCode → ℕ
number AlertCode.unspecified = 0
number float_high = 1
number mains_lost = 2
number dry_run = 3
number continuous_run = 4
number sensor_fault = 5
number short_cycling = 6
number outage_risk = 7
number low_battery = 8
number offline = 9

abbrev pub code_eq : AlertCode → AlertCode → Bool
code_eq a b = number a == number b

pub code_eq_iff : (a b : AlertCode) → (code_eq a b ≡ true) ↔ (a ≡ b)
code_eq_iff a b = ground arith

pub data AlertSeverity : Type 0 where
  unspecified info warning critical : AlertSeverity

abbrev pub severity_number : AlertSeverity → ℕ
severity_number AlertSeverity.unspecified = 0
severity_number info = 1
severity_number warning = 2
severity_number critical = 3

-- Severity: the fixed severity of a code.
abbrev pub severity : AlertCode → AlertSeverity
severity float_high = critical
severity dry_run = critical
severity continuous_run = critical
severity outage_risk = critical
severity mains_lost = warning
severity sensor_fault = warning
severity short_cycling = warning
severity low_battery = warning
severity offline = warning
severity AlertCode.unspecified = info
