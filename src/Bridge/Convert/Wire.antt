-- ===== src/Bridge/Convert/Wire.antt =====
-- From the wire to the row: what the codec decodes, the bridge converts and ingest accepts.
use sumpnet.Prelude.{ℕ, ◌+◌, ◌≡◌, ◌≤◌, ◌<◌, refl, false, List, Option, some, arith}
use sumpnet.Prelude.Bytes.{AreBytes}
use sumpnet.Prelude.Result.{ok}
use sumpnet.Codec.{
  Heartbeat, heartbeat, decode, has, flag_mains_ok, flag_float_high, flag_backup_ran,
  flag_sensor_fault,
}
use sumpnet.Codec.Bounds.{decode-InRange}
use sumpnet.Ingest.Convert.{
  UplinkMeta, Origin, Limits, is_future, i32, i16, Reading, ReadingRow, float32, meta_of,
  event_time, reading_row,
}
use sumpnet.Bridge.Convert.{reading, reading_of, from_uplink, tenfold}

-- A row with the values of a heartbeat, for a device and a time.
pub record Carries (row : ReadingRow) (h : Heartbeat) (device : List ℕ) (t : ℕ) : Type 0 where
  pub device_id : row.device_id ≡ device
  pub ts : row.ts ≡ t
  pub level_mm : row.level_mm ≡ h.level_mm
  pub temp_c : row.temp_c ≡ float32 (some (tenfold h.temp_centi_c))
  pub rh_pct : row.rh_pct ≡ h.rh_pct
  pub batt_mv : row.batt_mv ≡ h.batt_mv
  pub cycles_since_last : row.cycles_since_last ≡ h.cycles_since_last
  pub mains_ok : row.mains_ok ≡ has h.flags flag_mains_ok
  pub float_high : row.float_high ≡ has h.flags flag_float_high
  pub backup_ran : row.backup_ran ≡ has h.flags flag_backup_ran
  pub sensor_fault : row.sensor_fault ≡ has h.flags flag_sensor_fault

-- The row that ingest makes of the message for a heartbeat.
abbrev stored_row : Heartbeat → UplinkMeta → Origin → ℕ → ReadingRow
stored_row h m o t = record {
  device_id = o.device;
  ts = t;
  f_cnt = m.f_cnt;
  level_mm = i32 h.level_mm;
  temp_c = float32 (some (tenfold h.temp_centi_c));
  rh_pct = i16 h.rh_pct;
  batt_mv = i32 h.batt_mv;
  cycles_since_last = i16 h.cycles_since_last;
  mains_ok = has h.flags flag_mains_ok;
  float_high = has h.flags flag_float_high;
  backup_ran = has h.flags flag_backup_ran;
  sensor_fault = has h.flags flag_sensor_fault;
  meta = o.meta;
}

i32-small : (v : ℕ) → v < 65536 → i32 v ≡ v
unfolding i32
i32-small v h = omega arith

i16-small : (v : ℕ) → v < 256 → i16 v ≡ v
unfolding i16
i16-small v h = omega arith

module _ (parse_uuid : List ℕ → Option ℕ) (l : Limits) where
  -- A heartbeat that Decode reads from a payload of bytes is submitted by the bridge as a reading
  -- which ingest, if it accepts the meta data and the event time is not later than the limit on
  -- future times, stores with the values on the wire: nothing is clamped, and the
  -- temperature is converted to a float32.
  pub wire_heartbeat_kept :
      (p : ℕ) (b : List ℕ) (h : Heartbeat) (m : UplinkMeta) (o : Origin) (t : ℕ)
      → AreBytes b
      → decode p b ≡ ok (heartbeat h)
      → meta_of parse_uuid l (some m) ≡ ok o
      → t ≤ l.now + l.max_future
      → (r : Reading) × (row : ReadingRow) × (from_uplink (heartbeat h) m t ≡ reading r)
        × (reading_row parse_uuid l r ≡ ok row)
        × Carries row h o.device t
  unfolding from_uplink reading_row event_time
  wire_heartbeat_kept p b h m o t bytes e me le =
      let ranges = decode-InRange p b (heartbeat h) bytes e in
      let early : is_future l t ≡ false = ground arith in
      (
        reading_of h m t,
        stored_row h m o t,
        refl,
        rw (me, early) refl,
        record {
          device_id = refl;
          ts = refl;
          level_mm = i32-small h.level_mm ranges.level_mm;
          temp_c = refl;
          rh_pct = i16-small h.rh_pct ranges.rh_pct;
          batt_mv = i32-small h.batt_mv ranges.batt_mv;
          cycles_since_last = i16-small h.cycles_since_last ranges.cycles_since_last;
          mains_ok = refl;
          float_high = refl;
          backup_ran = refl;
          sensor_fault = refl;
        },
      )
