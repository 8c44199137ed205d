-- ===== src/Ingest/Convert.antt =====
-- internal/ingest/convert.go: the validation of submitted messages and their rows. Message fields
-- are protobuf's: a uint32 or uint64 is a number, an int32 an integer, an absent message or time is
-- none. Times are numbers of nanoseconds since a fixed origin. A device id is a list of code points,
-- of which strings.ToLower turns only A to F into hexadecimal digits. A double is none for NaN and
-- else a whole number of thousandths, in mm_per_tip of millionths; a float32 is kept as the double that
-- it was converted from. uuid.Parse, of a library, is the argument `parse_uuid`.
pub mod Messages
pub mod Fits
pub use Messages.*
use sumpnet.Prelude.{
  ℕ, zero, suc, ◌+◌, ◌-◌, Bool, true, false, not, ◌&&◌, ◌||◌, List, [], ◌∷◌, Option, none, some,
  ltb, leb, ◌==◌, if◌then◌else◌, min, max, length, map,
}
use sumpnet.Prelude.Int.{ℤ, pos, negsuc, ltb_ℤ}
use sumpnet.Prelude.Result.{Result, ok, err, ◌>>=◌}

-- strings.ToLower
abbrev pub to_lower : List ℕ → List ℕ
to_lower [] = []
to_lower (c ∷ cs) = (if leb 65 c && leb c 90 then c + 32 else c) ∷ to_lower cs

abbrev pub all_hex : List ℕ → Bool
all_hex [] = true
all_hex (c ∷ cs) = ((leb 48 c && leb c 57) || (leb 97 c && leb c 102)) && all_hex cs

-- devEUIRe: sixteen lower-case hexadecimal digits.
abbrev pub is_dev_eui : List ℕ → Bool
is_dev_eui s = length s == 16 && all_hex s

abbrev pub is_future : Limits → ℕ → Bool
is_future l t = ltb (l.now + l.max_future) t

-- clamp to int16
abbrev pub clamp16 : ℤ → ℤ
clamp16 (pos n) = pos (min n 32767)
clamp16 (negsuc n) = negsuc (min n 32767)

abbrev pub is_blank : List ℕ → Bool
is_blank [] = true
is_blank (c ∷ cs) = false

unfoldable pub i32 : ℕ → ℕ
i32 v = min 2147483647 v

unfoldable pub i16 : ℕ → ℕ
i16 v = min 32767 v

abbrev pub or_received : Option ℕ → ℕ → ℕ
or_received none received = received
or_received (some t) received = t

abbrev pub flags_or_unset : Option Flags → Flags
flags_or_unset (some f) = f
flags_or_unset none = record {
  mains_ok = false;
  float_high = false;
  backup_ran = false;
  sensor_fault = false;
}

-- v < 0, false of NaN.
abbrev pub is_negative : Option ℤ → Bool
is_negative none = false
is_negative (some v) = ltb_ℤ v (pos 0)

-- mm > 0 and not mm > maxMMPerTip; NaN is refused by the first.
abbrev pub is_depth : Option ℤ → Bool
is_depth none = false
is_depth (some v) = ltb_ℤ (pos 0) v && not (ltb_ℤ (pos 999_999_000) v)

abbrev pub f_cnt_of : Option UplinkMeta → ℕ
f_cnt_of none = 0
f_cnt_of (some m) = m.f_cnt

module _ (parse_uuid : List ℕ → Option ℕ) (l : Limits) where
  abbrev pub columns : UplinkMeta → Meta
  columns m = record {
    gateway = if is_blank m.gateway_id then none else some m.gateway_id;
    rssi = if is_blank m.gateway_id then none else some (clamp16 m.rssi_dbm);
    snr = if is_blank m.gateway_id then none else some (float32 m.snr_db);
    sf = if m.spreading_factor == 0 then none else some (min m.spreading_factor 12);
    dedup_id = parse_uuid m.deduplication_id;
  }

  -- metaOf
  unfoldable pub meta_of : Option UplinkMeta → Result Reject Origin
  meta_of none = err no_meta
  meta_of (some m) =
      if not (is_dev_eui (to_lower m.dev_eui)) then err bad_dev_eui else elim m.received_at [
        | none ↦ err no_time
        | some t ↦
            if is_future l t
            then err future
            else ok (record { device = to_lower m.dev_eui; received = t; meta = columns m })
      ]

  -- The test of an optional event time.
  unfoldable pub event_time : Option ℕ → ℕ → Result Reject ℕ
  event_time none received = ok received
  event_time (some t) received = if is_future l t then err future else ok t

  unfoldable pub reading_row : Reading → Result Reject ReadingRow
  reading_row r = meta_of r.meta >>= λ o. event_time r.ts o.received >>= λ ts.
      let f = flags_or_unset r.flags in
      ok (record {
        device_id = o.device;
        ts = ts;
        f_cnt = f_cnt_of r.meta;
        level_mm = i32 r.level_mm;
        temp_c = float32 r.temp_c;
        rh_pct = i16 r.rh_pct;
        batt_mv = i32 r.batt_mv;
        cycles_since_last = i16 r.cycles_since_last;
        mains_ok = f.mains_ok;
        float_high = f.float_high;
        backup_ran = f.backup_ran;
        sensor_fault = f.sensor_fault;
        meta = o.meta;
      })

  unfoldable pub cycle_row : CycleEvent → Result Reject CycleEventRow
  cycle_row c = meta_of c.meta >>= λ o. elim c.started_at [
    | none ↦ err no_time
    | some at ↦
        (elim c.pump_id [
          | unspecified ↦ err bad_pump_id
          | primary ↦ ok PumpId.primary
          | backup ↦ ok PumpId.backup
        ])
        >>= λ pump.
            if is_negative c.peak_current_a
            then err bad_value
            else ok (record {
              device_id = o.device;
              started_at = at;
              f_cnt = f_cnt_of c.meta;
              received_at = o.received;
              run_s = i32 c.run_s;
              peak_current_a = float32 c.peak_current_a;
              level_start_mm = i32 c.level_start_mm;
              level_end_mm = i32 c.level_end_mm;
              pump_id = pump;
              meta = o.meta;
            })
  ]

  unfoldable pub summary_row : StormSummary → Result Reject StormSummaryRow
  summary_row x = meta_of x.meta >>= λ o. ok (record {
    device_id = o.device;
    window_end = or_received x.window_end o.received;
    f_cnt = f_cnt_of x.meta;
    window_s = i32 x.window_s;
    cycle_count = i32 x.count;
    total_run_s = i32 x.total_run_s;
    max_peak_current_a = float32 x.max_peak_current_a;
    min_level_mm = i32 x.min_level_mm;
    meta = o.meta;
  })

  unfoldable pub alarm_row : Alarm → Result Reject AlarmRow
  alarm_row a = meta_of a.meta >>= λ o.
      if ltb_ℤ a.code (pos 1) || ltb_ℤ (pos 5) a.code
      then err bad_alarm_code
      else ok (record {
        device_id = o.device;
        raised_at = or_received a.raised_at o.received;
        f_cnt = f_cnt_of a.meta;
        code = a.code;
        value = i32 a.value;
        meta = o.meta;
      })

  unfoldable pub rain_gauge_row : RainGaugeReading → Result Reject RainGaugeRow
  rain_gauge_row r = meta_of r.meta >>= λ o. event_time r.ts o.received >>= λ ts.
      if not (is_depth r.mm_per_tip)
      then err bad_value
      else ok (record {
        device_id = o.device;
        ts = ts;
        f_cnt = f_cnt_of r.meta;
        tip_count = r.tip_count;
        mm_per_tip = r.mm_per_tip;
        interval_s = i32 r.interval_s;
        batt_mv = i32 r.batt_mv;
        counter_reset = r.counter_reset;
        sensor_fault = r.sensor_fault;
        meta = o.meta;
      })
