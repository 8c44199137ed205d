-- ===== src/Ingest/Tests.antt =====
-- The theorems on accepted rows, applied to a heartbeat and to a rain gauge report.
use sumpnet.Prelude.{ℕ, ◌≡◌, refl, false, List, [], ◌∷◌, Option, none, some}
use sumpnet.Prelude.Int.{pos, negsuc}
use sumpnet.Prelude.Result.{ok}
use sumpnet.Ingest.Convert.{
  float32, UplinkMeta, Limits, Reading, ReadingRow, RainGaugeReading, RainGaugeRow, columns,
  meta_of, event_time, reading_row, rain_gauge_row, i32, i16, to_lower,
}
use sumpnet.Ingest.Convert.Fits.{
  ReadingFits, RainGaugeFits, reading_row-ReadingFits, rain_gauge_row-RainGaugeFits,
}

abbrev no_uuid : List ℕ → Option ℕ
no_uuid s = none

abbrev limits : Limits
limits = record { now = 1000; max_future = 300 }

-- "70B3D57ED0000001"
abbrev upper_eui : List ℕ
upper_eui = 55 ∷ 48 ∷ 66 ∷ 51 ∷ 68 ∷ 53 ∷ 55 ∷ 69 ∷ 68 ∷ 48 ∷ 48 ∷ 48 ∷ 48 ∷ 48 ∷ 48 ∷ 49 ∷ []

abbrev uplink_meta : UplinkMeta
uplink_meta = record {
  dev_eui = upper_eui;
  received_at = some 990;
  f_cnt = 12;
  gateway_id = [];
  rssi_dbm = negsuc 89;
  snr_db = none;
  spreading_factor = 7;
  deduplication_id = [];
}

abbrev reading : Reading
reading = record {
  meta = some uplink_meta;
  ts = none;
  level_mm = 430;
  temp_c = some (pos 11500);
  rh_pct = 70;
  batt_mv = 3600;
  cycles_since_last = 2;
  flags = none;
}

abbrev row : ReadingRow
row = record {
  device_id = to_lower upper_eui;
  ts = 990;
  f_cnt = 12;
  level_mm = 430;
  temp_c = float32 (some (pos 11500));
  rh_pct = 70;
  batt_mv = 3600;
  cycles_since_last = 2;
  mains_ok = false;
  float_high = false;
  backup_ran = false;
  sensor_fault = false;
  meta = columns no_uuid limits uplink_meta;
}

reading_accepted : reading_row no_uuid limits reading ≡ ok row
unfolding reading_row meta_of event_time i32 i16
reading_accepted = refl

reading_row-ReadingFits_example : ReadingFits limits row
reading_row-ReadingFits_example =
    reading_row-ReadingFits no_uuid limits reading row reading_accepted

abbrev gauge : RainGaugeReading
gauge = record {
  meta = some uplink_meta;
  ts = some 1200;
  tip_count = 9;
  mm_per_tip = some (pos 200000);
  interval_s = 300;
  batt_mv = 3500;
  counter_reset = false;
  sensor_fault = false;
}

abbrev gauge_row : RainGaugeRow
gauge_row = record {
  device_id = to_lower upper_eui;
  ts = 1200;
  f_cnt = 12;
  tip_count = 9;
  mm_per_tip = some (pos 200000);
  interval_s = 300;
  batt_mv = 3500;
  counter_reset = false;
  sensor_fault = false;
  meta = columns no_uuid limits uplink_meta;
}

gauge_accepted : rain_gauge_row no_uuid limits gauge ≡ ok gauge_row
unfolding rain_gauge_row meta_of event_time i32
gauge_accepted = refl

rain_gauge_row-RainGaugeFits_example : RainGaugeFits limits gauge_row
rain_gauge_row-RainGaugeFits_example =
    rain_gauge_row-RainGaugeFits no_uuid limits gauge gauge_row gauge_accepted
