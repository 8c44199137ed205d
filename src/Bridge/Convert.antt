-- ===== src/Bridge/Convert.antt =====
-- internal/bridge/convert.go: FromUplink, from a decoded payload to the message that is submitted. A
-- double is a whole number of thousandths, the depth of a tip one of millionths, which the
-- quotients by 10, 100 and 1000 are. The event
-- time is later than the zero time by more than a start offset.
pub mod Wire
use sumpnet.Prelude.{
  ℕ, suc, ◌+◌, ◌-◌, ◌*◌, Bool, true, false, Option, none, some, ◌==◌, if◌then◌else◌,
}
use sumpnet.Prelude.Int.{ℤ, pos, negsuc}
use sumpnet.Codec.{
  Uplink, Heartbeat, heartbeat, cycle_event, alarm, storm_summary, rain_gauge, has, flag_mains_ok,
  flag_float_high, flag_backup_ran, flag_sensor_fault, rain_counter_reset, rain_sensor_fault,
  pump_backup,
}
use sumpnet.Ingest.Convert.{
  UplinkMeta, Reading, CycleEvent, StormSummary, Alarm, RainGaugeReading, PumpId,
}

-- The field of Decoded that is set.
pub data Decoded : Type 0 where
  reading : Reading → Decoded
  cycle : CycleEvent → Decoded
  alarm_message : Alarm → Decoded
  summary : StormSummary → Decoded
  gauge : RainGaugeReading → Decoded

abbrev pub second : ℕ
second = 1_000_000_000

-- Ten times an integer.
abbrev pub tenfold : ℤ → ℤ
tenfold (pos n) = pos (n * 10)
tenfold (negsuc n) = negsuc (n * 10 + 9)

abbrev pub pump_of : ℕ → PumpId
pump_of p = if p == pump_backup then PumpId.backup else PumpId.primary

-- The message for a heartbeat.
abbrev pub reading_of : Heartbeat → UplinkMeta → ℕ → Reading
reading_of v m event_time = record {
  meta = some m;
  ts = some event_time;
  level_mm = v.level_mm;
  temp_c = some (tenfold v.temp_centi_c);
  rh_pct = v.rh_pct;
  batt_mv = v.batt_mv;
  cycles_since_last = v.cycles_since_last;
  flags = some (record {
    mains_ok = has v.flags flag_mains_ok;
    float_high = has v.flags flag_float_high;
    backup_ran = has v.flags flag_backup_ran;
    sensor_fault = has v.flags flag_sensor_fault;
  });
}

unfoldable pub from_uplink : Uplink → UplinkMeta → ℕ → Decoded
from_uplink (heartbeat v) m event_time = reading (reading_of v m event_time)
from_uplink (cycle_event v) m event_time = cycle (record {
  meta = some m;
  started_at = some (event_time - v.start_offset_s * second);
  run_s = v.run_s;
  peak_current_a = some (pos (v.peak_current_da * 100));
  level_start_mm = v.level_start_mm;
  level_end_mm = v.level_end_mm;
  pump_id = pump_of v.pump_id;
})
from_uplink (alarm v) m event_time =
    alarm_message
      (record { meta = some m; code = pos v.code; value = v.value; raised_at = some event_time })
from_uplink (storm_summary v) m event_time = summary (record {
  meta = some m;
  window_end = some event_time;
  count = v.count;
  window_s = v.window_s;
  total_run_s = v.total_run_s;
  max_peak_current_a = some (pos (v.max_peak_current_da * 100));
  min_level_mm = v.min_level_mm;
})
from_uplink (rain_gauge v) m event_time = gauge (record {
  meta = some m;
  ts = some event_time;
  tip_count = v.tip_count;
  mm_per_tip = some (pos (v.mm_per_tip_um * 1000));
  interval_s = v.interval_s;
  batt_mv = v.batt_mv;
  counter_reset = has v.flags rain_counter_reset;
  sensor_fault = has v.flags rain_sensor_fault;
})
