-- ===== src/Codec/Payloads.antt =====
-- internal/codec/codec.go: the uplinks of each port and the errors.
use sumpnet.Prelude.{ℕ}
use sumpnet.Prelude.Int.{ℤ}

pub data Error : Type 0 where
  unknown_port bad_length bad_value : Error

pub record Heartbeat : Type 0 where
  pub level_mm : ℕ
  pub temp_centi_c : ℤ
  pub rh_pct : ℕ
  pub batt_mv : ℕ
  pub cycles_since_last : ℕ
  pub flags : ℕ
  pub reserved : ℕ

pub record CycleEvent : Type 0 where
  pub start_offset_s : ℕ
  pub run_s : ℕ
  pub peak_current_da : ℕ
  pub level_start_mm : ℕ
  pub level_end_mm : ℕ
  pub pump_id : ℕ

pub record Alarm : Type 0 where
  pub code : ℕ
  pub value : ℕ

pub record StormSummary : Type 0 where
  pub count : ℕ
  pub window_s : ℕ
  pub total_run_s : ℕ
  pub max_peak_current_da : ℕ
  pub min_level_mm : ℕ

pub record RainGauge : Type 0 where
  pub tip_count : ℕ
  pub mm_per_tip_um : ℕ
  pub interval_s : ℕ
  pub batt_mv : ℕ
  pub flags : ℕ

-- The sealed union.
pub data Uplink : Type 0 where
  heartbeat : Heartbeat → Uplink
  cycle_event : CycleEvent → Uplink
  alarm : Alarm → Uplink
  storm_summary : StormSummary → Uplink
  rain_gauge : RainGauge → Uplink
