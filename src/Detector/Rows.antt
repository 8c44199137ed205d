-- ===== src/Detector/Rows.antt =====
-- internal/detector/detector.go: the rows that the handlers read and write, and the handler's state.
use sumpnet.Prelude.{ℕ, String, Bool, List, Option}
use sumpnet.AlertCode.{AlertCode}
use sumpnet.Hydrology.{Cycle}

pub data Action : Type 0 where
  raise clear : Action

pub record Config : Type 0 where
  pub healthy_cycles_to_clear : ℕ
  pub window : ℕ

-- A row of cycle_events.
pub record CycleRow : Type 0 where
  pub device_id : String
  pub started_at : ℕ
  pub f_cnt : ℕ
  pub received_at : ℕ
  pub run_s : ℕ
  pub level_start_mm : ℕ
  pub level_end_mm : ℕ
  pub pump_id : String

-- A row of storm_summaries.
pub record SummaryRow : Type 0 where
  pub device_id : String
  pub window_end : ℕ
  pub f_cnt : ℕ
  pub window_s : ℕ
  pub cycle_count : ℕ

pub record Detection : Type 0 where
  pub device : String
  pub code : AlertCode
  pub action : Action
  pub at : ℕ
  pub fcnt : ℕ

-- The maps of the handler, by device and pump or by device and condition.
pub record Handler : Type 0 where
  pub windows : String → String → Option (List Cycle)
  pub active : String → AlertCode → Bool
  pub healthy : String → AlertCode → ℕ
