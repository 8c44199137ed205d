-- ===== src/Codec.antt =====
-- internal/codec/codec.go: the binary LoRaWAN uplink payloads. A uint8, uint16 or uint32 is a
-- number below 2 ^ 8, 2 ^ 16 or 2 ^ 32, an int16 an integer, a []byte a list of numbers below 256.
-- Errors keep their sentinel and drop the message.
pub mod Payloads
pub mod Ranges
pub mod RoundTrip
pub mod Canonical
pub mod WellFormed
pub mod Bounds
mod Tests
pub use Payloads.*
use Prim.Native.Nat.{bit_and, bit_xor}
use sumpnet.Prelude.{ℕ, Bool, not, ◌||◌, List, ◌∷◌, [], ◌++◌, ltb, ◌==◌, if◌then◌else◌, length}
use sumpnet.Prelude.Int.{ℤ}
use sumpnet.Prelude.Result.{Result, ok, err, ◌>>=◌, ◌>>◌}
use sumpnet.Prelude.Bytes.{byte_at, le16, le32, u16_at, u32_at, u16_of_i16, i16_of_u16}

abbrev pub port_heartbeat : ℕ
port_heartbeat = 1

abbrev pub port_cycle_event : ℕ
port_cycle_event = 2

abbrev pub port_alarm : ℕ
port_alarm = 3

abbrev pub port_storm_summary : ℕ
port_storm_summary = 4

abbrev pub port_rain_gauge : ℕ
port_rain_gauge = 5

abbrev pub len_heartbeat : ℕ
len_heartbeat = 10

abbrev pub len_cycle_event : ℕ
len_cycle_event = 11

abbrev pub len_alarm : ℕ
len_alarm = 3

abbrev pub len_storm_summary : ℕ
len_storm_summary = 9

abbrev pub len_rain_gauge : ℕ
len_rain_gauge = 11

abbrev pub max_len : ℕ
max_len = 11

abbrev pub flag_mains_ok : ℕ
flag_mains_ok = 1

abbrev pub flag_float_high : ℕ
flag_float_high = 2

abbrev pub flag_backup_ran : ℕ
flag_backup_ran = 4

abbrev pub flag_sensor_fault : ℕ
flag_sensor_fault = 8

abbrev pub flags_mask : ℕ
flags_mask = 15

abbrev pub rain_counter_reset : ℕ
rain_counter_reset = 1

abbrev pub rain_sensor_fault : ℕ
rain_sensor_fault = 2

abbrev pub rain_flags_mask : ℕ
rain_flags_mask = 3

-- `Has` of Flags and of RainFlags.
unfoldable pub has : ℕ → ℕ → Bool
has f x = bit_and f x == x

-- f &^ mask != 0, on bytes.
unfoldable pub has_undefined_bits : ℕ → ℕ → Bool
has_undefined_bits f mask = not (bit_and f (bit_xor mask 255) == 0)

abbrev pub pump_primary : ℕ
pump_primary = 0

abbrev pub pump_backup : ℕ
pump_backup = 1

abbrev pub alarm_float_high : ℕ
alarm_float_high = 1

abbrev pub alarm_sensor_fault : ℕ
alarm_sensor_fault = 5

abbrev pub port : Uplink → ℕ
port (heartbeat h) = port_heartbeat
port (cycle_event c) = port_cycle_event
port (alarm a) = port_alarm
port (storm_summary s) = port_storm_summary
port (rain_gauge r) = port_rain_gauge

-- checkLen; its success carries no value.
unfoldable pub check_len : ℕ → List ℕ → Result Error (Unit {0})
check_len want b = if length b == want then ok tt else err bad_length

unfoldable pub marshal_heartbeat : Heartbeat → Result Error (List ℕ)
marshal_heartbeat h =
    if has_undefined_bits h.flags flags_mask
    then err bad_value
    else if not (h.reserved == 0)
    then err bad_value
    else ok (
        le16 h.level_mm
        ++ (le16 (u16_of_i16 h.temp_centi_c)
            ++ (h.rh_pct ∷ (le16 h.batt_mv ++ (h.cycles_since_last ∷ h.flags ∷ h.reserved ∷ [])))))

unfoldable pub unmarshal_heartbeat : List ℕ → Result Error Heartbeat
unfolding check_len
unmarshal_heartbeat b = do
  check_len len_heartbeat b
  if has_undefined_bits (byte_at b 8) flags_mask
      then err bad_value
      else if not (byte_at b 9 == 0)
      then err bad_value
      else ok (record {
        level_mm = u16_at b 0;
        temp_centi_c = i16_of_u16 (u16_at b 2);
        rh_pct = byte_at b 4;
        batt_mv = u16_at b 5;
        cycles_since_last = byte_at b 7;
        flags = byte_at b 8;
        reserved = byte_at b 9;
      })

unfoldable pub marshal_cycle_event : CycleEvent → Result Error (List ℕ)
marshal_cycle_event c =
    if ltb pump_backup c.pump_id
    then err bad_value
    else ok (
        le16 c.start_offset_s
        ++ (le16 c.run_s
            ++ (le16 c.peak_current_da
                ++ (le16 c.level_start_mm ++ (le16 c.level_end_mm ++ (c.pump_id ∷ []))))))

unfoldable pub unmarshal_cycle_event : List ℕ → Result Error CycleEvent
unfolding check_len
unmarshal_cycle_event b = do
  check_len len_cycle_event b
  if ltb pump_backup (byte_at b 10)
      then err bad_value
      else ok (record {
        start_offset_s = u16_at b 0;
        run_s = u16_at b 2;
        peak_current_da = u16_at b 4;
        level_start_mm = u16_at b 6;
        level_end_mm = u16_at b 8;
        pump_id = byte_at b 10;
      })

unfoldable pub marshal_alarm : Alarm → Result Error (List ℕ)
marshal_alarm a =
    if ltb a.code alarm_float_high || ltb alarm_sensor_fault a.code
    then err bad_value
    else ok (a.code ∷ le16 a.value)

unfoldable pub unmarshal_alarm : List ℕ → Result Error Alarm
unfolding check_len
unmarshal_alarm b = do
  check_len len_alarm b
  let code = byte_at b 0
  if ltb code alarm_float_high || ltb alarm_sensor_fault code
      then err bad_value
      else ok (record { code = byte_at b 0; value = u16_at b 1 })

unfoldable pub marshal_storm_summary : StormSummary → Result Error (List ℕ)
marshal_storm_summary s = ok (
    s.count
    ∷ (le16 s.window_s
        ++ (le16 s.total_run_s ++ (le16 s.max_peak_current_da ++ le16 s.min_level_mm))))

unfoldable pub unmarshal_storm_summary : List ℕ → Result Error StormSummary
unfolding check_len
unmarshal_storm_summary b = do
  check_len len_storm_summary b
  ok (record {
    count = byte_at b 0;
    window_s = u16_at b 1;
    total_run_s = u16_at b 3;
    max_peak_current_da = u16_at b 5;
    min_level_mm = u16_at b 7;
  })

unfoldable pub check_rain : ℕ → ℕ → Result Error (Unit {0})
check_rain tip_um flags =
    if tip_um == 0
    then err bad_value
    else if has_undefined_bits flags rain_flags_mask
    then err bad_value
    else ok tt

unfoldable pub marshal_rain_gauge : RainGauge → Result Error (List ℕ)
unfolding check_rain
marshal_rain_gauge r = do
  check_rain r.mm_per_tip_um r.flags
  ok (
      le32 r.tip_count
      ++ (le16 r.mm_per_tip_um ++ (le16 r.interval_s ++ (le16 r.batt_mv ++ (r.flags ∷ [])))))

unfoldable pub unmarshal_rain_gauge : List ℕ → Result Error RainGauge
unfolding check_len check_rain
unmarshal_rain_gauge b = do
  check_len len_rain_gauge b
  let v : RainGauge = record {
    tip_count = u32_at b 0;
    mm_per_tip_um = u16_at b 4;
    interval_s = u16_at b 6;
    batt_mv = u16_at b 8;
    flags = byte_at b 10;
  }
  check_rain v.mm_per_tip_um v.flags
  ok v

unfoldable pub marshal : Uplink → Result Error (List ℕ)
marshal (heartbeat h) = marshal_heartbeat h
marshal (cycle_event c) = marshal_cycle_event c
marshal (alarm a) = marshal_alarm a
marshal (storm_summary s) = marshal_storm_summary s
marshal (rain_gauge r) = marshal_rain_gauge r

-- The switch of Decode, with the unmarshaller of the value that each case allocates.
unfoldable pub decode : ℕ → List ℕ → Result Error Uplink
decode f_port b =
    if f_port == port_heartbeat
    then (unmarshal_heartbeat b >>= λ h. ok (heartbeat h))
    else if f_port == port_cycle_event
    then (unmarshal_cycle_event b >>= λ c. ok (cycle_event c))
    else if f_port == port_alarm
    then (unmarshal_alarm b >>= λ a. ok (alarm a))
    else if f_port == port_storm_summary
    then (unmarshal_storm_summary b >>= λ s. ok (storm_summary s))
    else if f_port == port_rain_gauge
    then (unmarshal_rain_gauge b >>= λ r. ok (rain_gauge r))
    else err unknown_port

unfoldable pub encode : Uplink → Result Error (ℕ × List ℕ)
encode u = do b ← marshal u; ok (port u, b)
