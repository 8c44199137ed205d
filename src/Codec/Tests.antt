-- ===== src/Codec/Tests.antt =====
-- The theorems on the codec, applied to an alarm and to a rain gauge report.
use sumpnet.Prelude.{ℕ, ◌≡◌, ◌≤◌, ◌<◌, ◌↔◌, ◌⊎◌, refl, List, [], ◌∷◌, arith, length, ◌≢◌}
use sumpnet.Prelude.Bytes.{AreBytes}
use sumpnet.Prelude.Result.{ok, err}
use sumpnet.Codec.{
  port_alarm, Uplink, alarm, rain_gauge, decode, encode, bad_value, bad_length, unknown_port,
  max_len, marshal_alarm, marshal, unmarshal_alarm,
}
use sumpnet.Codec.Ranges.{InRange}
use sumpnet.Codec.RoundTrip.{decode-encode}
use sumpnet.Codec.Canonical.{encode-decode}
use sumpnet.Codec.WellFormed.{encode_refuses, IsDefined}
use sumpnet.Codec.Bounds.{decode_errors, encode_bounds, len_of_port}

-- MAINS_LOST with a battery of 3600 mV.
abbrev mains_alarm : Uplink
mains_alarm = alarm (record { code = 2; value = 3600 })

abbrev mains_bytes : List ℕ
mains_bytes = 2 ∷ 16 ∷ 14 ∷ []

abbrev bad_gauge : Uplink
bad_gauge =
    rain_gauge
      (record { tip_count = 7; mm_per_tip_um = 0; interval_s = 300; batt_mv = 3600; flags = 0 })

mains-InRange : InRange mains_alarm
mains-InRange = record { code = omega arith; value = omega arith }

gauge-InRange : InRange bad_gauge
gauge-InRange = record {
  tip_count = omega arith;
  mm_per_tip_um = omega arith;
  interval_s = omega arith;
  batt_mv = omega arith;
  flags = omega arith;
}

mains-AreBytes : AreBytes mains_bytes
mains-AreBytes = (omega arith, (omega arith, (omega arith, tt)))

mains_encode : encode mains_alarm ≡ ok (3, mains_bytes)
unfolding encode marshal marshal_alarm
mains_encode = refl

mains_decode : decode 3 mains_bytes ≡ ok mains_alarm
unfolding decode unmarshal_alarm
mains_decode = refl

decode-encode_example : decode 3 mains_bytes ≡ ok mains_alarm
decode-encode_example = decode-encode mains_alarm 3 mains_bytes mains-InRange mains_encode

encode-decode_example : encode mains_alarm ≡ ok (3, mains_bytes)
encode-decode_example = encode-decode 3 mains_bytes mains_alarm mains-AreBytes mains_decode

encode_refuses_example : (encode bad_gauge ≡ err bad_value) ↔ ¬ (IsDefined bad_gauge)
encode_refuses_example = encode_refuses bad_gauge gauge-InRange

abbrev short_bytes : List ℕ
short_bytes = 1 ∷ []

decode_errors_example :
    ((decode port_alarm short_bytes ≡ err unknown_port) ↔ ((port_alarm ≡ 0) ⊎ (5 < port_alarm)))
    × ((decode port_alarm short_bytes ≡ err bad_length)
        ↔ ((1 ≤ port_alarm) × (port_alarm ≤ 5) × (length short_bytes ≢ len_of_port port_alarm)))
decode_errors_example = decode_errors port_alarm short_bytes

encode_bounds_example :
    (length mains_bytes ≡ len_of_port 3) × (length mains_bytes ≤ max_len) × AreBytes mains_bytes
encode_bounds_example = encode_bounds mains_alarm 3 mains_bytes mains-InRange mains_encode
