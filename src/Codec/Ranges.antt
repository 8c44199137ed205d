-- ===== src/Codec/Ranges.antt =====
-- The values that the Go fields of internal/codec can hold.
use sumpnet.Prelude.{◌<◌}
use sumpnet.Prelude.Bytes.{IsI16}
use sumpnet.Codec.{
  Heartbeat, CycleEvent, Alarm, StormSummary, RainGauge, Uplink, heartbeat, cycle_event, alarm,
  storm_summary, rain_gauge,
}

pub record HeartbeatInRange (h : Heartbeat) : Type 0 where
  pub level_mm : h.level_mm < 65536
  pub temp_centi_c : IsI16 h.temp_centi_c
  pub rh_pct : h.rh_pct < 256
  pub batt_mv : h.batt_mv < 65536
  pub cycles_since_last : h.cycles_since_last < 256
  pub flags : h.flags < 256
  pub reserved : h.reserved < 256

pub record CycleEventInRange (c : CycleEvent) : Type 0 where
  pub start_offset_s : c.start_offset_s < 65536
  pub run_s : c.run_s < 65536
  pub peak_current_da : c.peak_current_da < 65536
  pub level_start_mm : c.level_start_mm < 65536
  pub level_end_mm : c.level_end_mm < 65536
  pub pump_id : c.pump_id < 256

pub record AlarmInRange (a : Alarm) : Type 0 where
  pub code : a.code < 256
  pub value : a.value < 65536

pub record StormSummaryInRange (s : StormSummary) : Type 0 where
  pub count : s.count < 256
  pub window_s : s.window_s < 65536
  pub total_run_s : s.total_run_s < 65536
  pub max_peak_current_da : s.max_peak_current_da < 65536
  pub min_level_mm : s.min_level_mm < 65536

pub record RainGaugeInRange (r : RainGauge) : Type 0 where
  pub tip_count : r.tip_count < 4294967296
  pub mm_per_tip_um : r.mm_per_tip_um < 65536
  pub interval_s : r.interval_s < 65536
  pub batt_mv : r.batt_mv < 65536
  pub flags : r.flags < 256

-- Every field holds a value of its Go type.
abbrev pub InRange : Uplink → Type 0
InRange (heartbeat h) = HeartbeatInRange h
InRange (cycle_event c) = CycleEventInRange c
InRange (alarm a) = AlarmInRange a
InRange (storm_summary s) = StormSummaryInRange s
InRange (rain_gauge r) = RainGaugeInRange r
