-- ===== src/Ingest/Tables.antt =====
-- The five telemetry tables of internal/store/bulk.go with the rows of internal/store/rows.go. The driver
-- writes a time to its timestamptz column in whole microseconds.
use Prim.Native.Nat.{◌/◌}
use mathlib.Core.Bool.{true, false}
use sumpnet.Store.{Telemetry, house, rain}
use sumpnet.Ingest.Convert.{ReadingRow, CycleEventRow, StormSummaryRow, AlarmRow, RainGaugeRow}

instance unfoldable pub readings_table : Telemetry ReadingRow
readings_table = record {
  name = "readings";
  is_partitioned = true;
  kind = house;
  key = λ r. record { device = r.device_id; at = r.ts / 1000; f_cnt = r.f_cnt };
  time = λ r. r.ts;
}

instance unfoldable pub cycle_events_table : Telemetry CycleEventRow
cycle_events_table = record {
  name = "cycle_events";
  is_partitioned = true;
  kind = house;
  key = λ r. record { device = r.device_id; at = r.started_at / 1000; f_cnt = r.f_cnt };
  time = λ r. r.started_at;
}

instance unfoldable pub storm_summaries_table : Telemetry StormSummaryRow
storm_summaries_table = record {
  name = "storm_summaries";
  is_partitioned = false;
  kind = house;
  key = λ r. record { device = r.device_id; at = r.window_end / 1000; f_cnt = r.f_cnt };
  time = λ r. r.window_end;
}

instance unfoldable pub alarm_events_table : Telemetry AlarmRow
alarm_events_table = record {
  name = "alarm_events";
  is_partitioned = false;
  kind = house;
  key = λ r. record { device = r.device_id; at = r.raised_at / 1000; f_cnt = r.f_cnt };
  time = λ r. r.raised_at;
}

instance unfoldable pub rain_gauge_uplinks_table : Telemetry RainGaugeRow
rain_gauge_uplinks_table = record {
  name = "rain_gauge_uplinks";
  is_partitioned = true;
  kind = rain;
  key = λ r. record { device = r.device_id; at = r.ts / 1000; f_cnt = r.f_cnt };
  time = λ r. r.ts;
}
