-- ===== src/Ingest/Convert/Messages.antt =====
-- internal/ingest/convert.go: the messages that clients submit, with the fields of the protobuf
-- messages, the rows that they become, and why a message is rejected.
use sumpnet.Prelude.{ℕ, Bool, List, Option}
use sumpnet.Prelude.Int.{ℤ}

pub data Reject : Type 0 where
  no_meta bad_dev_eui no_time future bad_pump_id bad_alarm_code bad_value : Reject

pub record UplinkMeta : Type 0 where
  pub dev_eui : List ℕ
  pub received_at : Option ℕ
  pub f_cnt : ℕ
  pub gateway_id : List ℕ
  pub rssi_dbm : ℤ
  pub snr_db : Option ℤ
  pub spreading_factor : ℕ
  pub deduplication_id : List ℕ

-- What the conversion float32 makes of a double, which is kept as it was before its rounding.
pub data Float32 : Type 0 where
  float32 : Option ℤ → Float32

-- store.Meta
pub record Meta : Type 0 where
  pub gateway : Option (List ℕ)
  pub rssi : Option ℤ
  pub snr : Option Float32
  pub sf : Option ℕ
  pub dedup_id : Option ℕ

-- An identified device, the time of receipt and the optional columns.
pub record Origin : Type 0 where
  pub device : List ℕ
  pub received : ℕ
  pub meta : Meta

-- The server's clock and MaxFuture.
pub record Limits : Type 0 where
  pub now : ℕ
  pub max_future : ℕ

pub record ReadingRow : Type 0 where
  pub device_id : List ℕ
  pub ts : ℕ
  pub f_cnt : ℕ
  pub level_mm : ℕ
  pub temp_c : Float32
  pub rh_pct : ℕ
  pub batt_mv : ℕ
  pub cycles_since_last : ℕ
  pub mains_ok : Bool
  pub float_high : Bool
  pub backup_ran : Bool
  pub sensor_fault : Bool
  pub meta : Meta

pub record Flags : Type 0 where
  pub mains_ok : Bool
  pub float_high : Bool
  pub backup_ran : Bool
  pub sensor_fault : Bool

pub record Reading : Type 0 where
  pub meta : Option UplinkMeta
  pub ts : Option ℕ
  pub level_mm : ℕ
  pub temp_c : Option ℤ
  pub rh_pct : ℕ
  pub batt_mv : ℕ
  pub cycles_since_last : ℕ
  pub flags : Option Flags

pub data PumpId : Type 0 where
  unspecified primary backup : PumpId

pub record CycleEvent : Type 0 where
  pub meta : Option UplinkMeta
  pub started_at : Option ℕ
  pub run_s : ℕ
  pub peak_current_a : Option ℤ
  pub level_start_mm : ℕ
  pub level_end_mm : ℕ
  pub pump_id : PumpId

-- pump_id is "primary" or "backup".
pub record CycleEventRow : Type 0 where
  pub device_id : List ℕ
  pub started_at : ℕ
  pub f_cnt : ℕ
  pub received_at : ℕ
  pub run_s : ℕ
  pub peak_current_a : Float32
  pub level_start_mm : ℕ
  pub level_end_mm : ℕ
  pub pump_id : PumpId
  pub meta : Meta

pub record StormSummary : Type 0 where
  pub meta : Option UplinkMeta
  pub window_end : Option ℕ
  pub count : ℕ
  pub window_s : ℕ
  pub total_run_s : ℕ
  pub max_peak_current_a : Option ℤ
  pub min_level_mm : ℕ

pub record StormSummaryRow : Type 0 where
  pub device_id : List ℕ
  pub window_end : ℕ
  pub f_cnt : ℕ
  pub window_s : ℕ
  pub cycle_count : ℕ
  pub total_run_s : ℕ
  pub max_peak_current_a : Float32
  pub min_level_mm : ℕ
  pub meta : Meta

pub record Alarm : Type 0 where
  pub meta : Option UplinkMeta
  pub code : ℤ
  pub value : ℕ
  pub raised_at : Option ℕ

pub record AlarmRow : Type 0 where
  pub device_id : List ℕ
  pub raised_at : ℕ
  pub f_cnt : ℕ
  pub code : ℤ
  pub value : ℕ
  pub meta : Meta

-- mm_per_tip is a whole number of millionths of a millimetre.
pub record RainGaugeReading : Type 0 where
  pub meta : Option UplinkMeta
  pub ts : Option ℕ
  pub tip_count : ℕ
  pub mm_per_tip : Option ℤ
  pub interval_s : ℕ
  pub batt_mv : ℕ
  pub counter_reset : Bool
  pub sensor_fault : Bool

pub record RainGaugeRow : Type 0 where
  pub device_id : List ℕ
  pub ts : ℕ
  pub f_cnt : ℕ
  pub tip_count : ℕ
  pub mm_per_tip : Option ℤ
  pub interval_s : ℕ
  pub batt_mv : ℕ
  pub counter_reset : Bool
  pub sensor_fault : Bool
  pub meta : Meta
