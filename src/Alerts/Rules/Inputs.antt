-- ===== src/Alerts/Rules/Inputs.antt =====
-- internal/alerts/rules.go: what the handlers read, and the samples that they keep.
use sumpnet.Prelude.{ℕ, String, Bool, List, Option}
use sumpnet.Prelude.Result.{Result}
use sumpnet.AlertCode.{AlertCode}
use sumpnet.Detector.{Action}
use sumpnet.Alerts.Engine.{State, HomeRow}

pub record AlarmEvent : Type 0 where
  pub device_id : String
  pub raised_at : ℕ
  pub f_cnt : ℕ
  pub code : AlertCode
  pub value : ℕ

pub record Reading : Type 0 where
  pub device_id : String
  pub ts : ℕ
  pub f_cnt : ℕ
  pub level_mm : ℕ
  pub float_high : Bool
  pub sensor_fault : Bool
  pub mains_ok : Bool
  pub batt_mv : Option ℕ

pub record DetectionRow : Type 0 where
  pub device_id : String
  pub code : AlertCode
  pub action : Action
  pub observed_at : ℕ
  pub f_cnt : ℕ

pub record LevelSample : Type 0 where
  pub ts : ℕ
  pub dist : ℕ

-- A readingHandler and the engine it works with.
pub record Handler : Type 0 where
  pub engine : State
  pub levels : String → Option (List LevelSample)

pub record RainRow : Type 0 where
  pub mm : ℕ
  pub covered_until : ℕ

pub record RainCheck : Type 0 where
  pub mm : ℕ
  pub covered : Bool

pub record StaleDevice : Type 0 where
  pub dev_eui : String
  pub last_seen_at : ℕ

-- The queries of other tables.
pub record Queries (E : Type 0) : Type 0 where
  pub device_home : String → Result E (Option HomeRow)
  pub readings_before : String → ℕ → Result E (List Reading)
  pub rain_near : ℕ → Result E RainRow
  pub stale_devices : ℕ → Result E (List StaleDevice)
