-- ===== src/Alerts/Engine.antt =====
-- internal/alerts/engine.go: Raise and Resolve over the alerts table. Metrics and logs are left out.
-- The query GetDevicePitArea is the argument `device_home`; `now` is the process's clock and `db_now`
-- the database's. Failures of the statements on the table itself are left out: they roll the
-- transaction back.
pub mod Outcome
pub mod Lifecycle
pub mod Resolution
pub mod Isolation
pub mod Notified
use text.Mathlib.Text.{◌==◌ as str_eq}
use sumpnet.Prelude.{
  ℕ, zero, suc, ◌+◌, ◌-◌, String, Bool, true, false, not, ◌&&◌, ◌||◌, List, [], ◌∷◌, ◌++◌, Option,
  none, some, ltb, leb, ◌==◌, if◌then◌else◌,
}
use sumpnet.Prelude.Maps.{update}
use sumpnet.Prelude.Result.{Result, ok, err, ◌>>=◌}
use sumpnet.AlertCode.{AlertCode, AlertSeverity, severity, severity_number, critical}
use sumpnet.Alerts.Table.{
  NotifyState, pending, suppressed, Source, TriggerKey, Message, Table, get_open_alert, TableError,
  insert_alert, touch_alert, resolve_open_alert, last_notified_at,
}

pub data NotifyResolve : Type 0 where
  all only_critical never : NotifyResolve

pub record Config : Type 0 where
  pub min_severity : AlertSeverity
  pub notify_cooldown : ℕ
  pub notify_resolve_mode : NotifyResolve
  pub low_battery_mv : ℕ
  pub low_battery_clear_mv : ℕ
  pub rise_min_mm : ℕ
  pub rise_window : ℕ
  pub rain_window : ℕ
  pub rain_coverage_slack : ℕ
  pub offline_after : ℕ

abbrev pub default_config : Config
default_config = record {
  min_severity = AlertSeverity.warning;
  notify_cooldown = 3_600_000_000_000;
  notify_resolve_mode = only_critical;
  low_battery_mv = 3500;
  low_battery_clear_mv = 3700;
  rise_min_mm = 10;
  rise_window = 3_600_000_000_000;
  rain_window = 21_600_000_000_000;
  rain_coverage_slack = 1_800_000_000_000;
  offline_after = 3_600_000_000_000;
}

-- notifyResolve
abbrev pub notify_resolve : Config → AlertSeverity → Bool
notify_resolve cfg sev = elim cfg.notify_resolve_mode [
  | all ↦ true
  | only_critical ↦ severity_number sev == severity_number critical
  | never ↦ false
]

pub record HomeEntry : Type 0 where
  pub home : Option String
  pub segment : String
  pub at : ℕ

-- The engine's cache of homes and the table that its queries work on.
pub record State : Type 0 where
  pub homes : String → Option HomeEntry
  pub table : Table

pub record Clock : Type 0 where
  pub now : ℕ
  pub db_now : ℕ

pub data Error (E : Type 0) : Type 0 where
  home_of_failed : E → Error E
  insert_failed : TableError → Error E
  seed_levels_failed rain_near_failed stale_devices_failed : E → Error E

-- The columns of GetDevicePitArea that are read; `none` is pgx.ErrNoRows.
pub record HomeRow : Type 0 where
  pub home_id : Option String
  pub segment_id : String

abbrev pub five_minutes : ℕ
five_minutes = 300_000_000_000

-- now.Sub(at) < d for an instant `at` that may lie after `now`.
abbrev pub within : ℕ → ℕ → ℕ → Bool
within now at d = ltb now (at + d)

abbrev pub row_entry : Option HomeRow → ℕ → HomeEntry
row_entry none now = record { home = none; segment = ""; at = now }
row_entry (some row) now = record { home = row.home_id; segment = row.segment_id; at = now }

-- The notification state of a new alert.
unfoldable pub initial_state : Config → ℕ → AlertSeverity → Option ℕ → NotifyState
initial_state cfg now sev last_notified =
    if ltb (severity_number sev) (severity_number cfg.min_severity)
    then suppressed
    else elim last_notified [
      | none ↦ pending
      | some last ↦ if within now last cfg.notify_cooldown then suppressed else pending
    ]

abbrev pub is_fresh : ℕ → Option HomeEntry → Bool
is_fresh now none = false
is_fresh now (some e) = within now e.at five_minutes

abbrev pub entry_or : Option HomeEntry → HomeEntry → HomeEntry
entry_or none e = e
entry_or (some h) e = h

abbrev pub lift_home : {E A : Type 0} → Result E A → Result (Error E) A
lift_home (ok a) = ok a
lift_home (err e) = err (home_of_failed e)

abbrev pub lift_insert : {E A : Type 0} → Result TableError A → Result (Error E) A
lift_insert (ok a) = ok a
lift_insert (err e) = err (insert_failed e)

module _ {E : Type 0} (device_home : String → Result E (Option HomeRow)) where
  -- homeOf: the cached entry while it is younger than five minutes, else what the database says.
  unfoldable pub home_of : Clock → State → String → Result (Error E) (State × HomeEntry)
  home_of clock s dev =
      if is_fresh clock.now (s.homes dev)
      then ok (s, entry_or (s.homes dev) (row_entry none clock.now))
      else (lift_home (device_home dev) >>= λ row. ok (
        record s { homes = update s.homes dev (some (row_entry row clock.now)) },
        row_entry row clock.now,
      ))

  -- Raise
  unfoldable pub raise :
      Config
      → Clock
      → State
      → String
      → AlertCode
      → ℕ
      → Source
      → TriggerKey
      → Message
      → Result (Error E) (State × Bool)
  raise cfg clock s dev code at source trigger_key msg = elim (get_open_alert s.table dev code) [
    | some open_row ↦
        ok (record s { table = touch_alert s.table open_row.id at clock.db_now }, false)
    | none ↦ home_of clock s dev >>= λ (s1, home).
        let sev = severity code in
        lift_insert (
          insert_alert s1.table
            (record {
              device_id = dev;
              home_id = home.home;
              code = code;
              severity = sev;
              raised_at = at;
              message = msg;
              source = source;
              trigger_key = trigger_key;
              notify_state = initial_state cfg clock.now sev (last_notified_at s1.table dev code);
            })
            clock.db_now)
        >>= λ t. ok (record s1 { table = t }, true)
  ]

-- Resolve
unfoldable pub resolve : Config → Clock → State → String → AlertCode → ℕ → String → State × Bool
resolve cfg clock s dev code at reason =
    let (t, row) =
      resolve_open_alert s.table dev code at reason (notify_resolve cfg (severity code))
        clock.db_now in
    (record s { table = t }, elim row [ none ↦ false | some a ↦ true ])
