-- ===== src/Codec/Bounds.antt =====
-- What a decoded or an encoded payload looks like.
use sumpnet.Prelude.{
  ℕ, zero, suc, ◌≢◌, ◌+◌, ◌*◌, ◌≤◌, ◌<◌, ◌≡◌, ◌↔◌, ◌⊎◌, List, [], ◌∷◌, arith, length,
}
use sumpnet.Prelude.Result.{ok, err}
use sumpnet.Prelude.Bytes.{AreBytes, i16_of_u16-IsI16}
use sumpnet.Codec.{
  unknown_port, bad_length, Uplink, heartbeat, cycle_event, alarm, storm_summary, rain_gauge,
  Heartbeat, CycleEvent, Alarm, StormSummary, RainGauge, max_len, unmarshal_heartbeat,
  unmarshal_cycle_event, unmarshal_alarm, unmarshal_storm_summary, unmarshal_rain_gauge, decode,
  encode, marshal, marshal_heartbeat, marshal_cycle_event, marshal_alarm, marshal_storm_summary,
  marshal_rain_gauge,
}
use sumpnet.Codec.Ranges.{
  HeartbeatInRange, CycleEventInRange, AlarmInRange, StormSummaryInRange, RainGaugeInRange, InRange,
}

-- The one length that a port accepts.
abbrev pub len_of_port : ℕ → ℕ
len_of_port (suc zero) = 10
len_of_port (suc (suc zero)) = 11
len_of_port (suc (suc (suc zero))) = 3
len_of_port (suc (suc (suc (suc zero)))) = 9
len_of_port (suc (suc (suc (suc (suc zero))))) = 11
len_of_port _ = 0

-- Decode fails with unknown_port exactly on the ports other than 1 to 5, and on those with
-- bad_length exactly on the payloads that do not have the length of the port.
pub decode_errors :
    (p : ℕ) (b : List ℕ)
    → ((decode p b ≡ err unknown_port) ↔ ((p ≡ 0) ⊎ (5 < p)))
      × ((decode p b ≡ err bad_length) ↔ ((1 ≤ p) × (p ≤ 5) × (length b ≢ len_of_port p)))
unfolding decode unmarshal_heartbeat unmarshal_cycle_event unmarshal_alarm unmarshal_storm_summary
    unmarshal_rain_gauge
decode_errors zero b = ground arith
decode_errors (suc zero) b = ground arith
decode_errors (suc (suc zero)) b = ground arith
decode_errors (suc (suc (suc zero))) b = ground arith
decode_errors (suc (suc (suc (suc zero)))) b = ground arith
decode_errors (suc (suc (suc (suc (suc zero))))) b = ground arith
decode_errors (suc (suc (suc (suc (suc (suc p)))))) b = ground arith

heartbeat_range :
    (b : List ℕ) (h : Heartbeat) → AreBytes b → unmarshal_heartbeat b ≡ ok h → HeartbeatInRange h
unfolding unmarshal_heartbeat
heartbeat_range (b0 ∷ b1 ∷ b2 ∷ b3 ∷ b4 ∷ b5 ∷ b6 ∷ b7 ∷ b8 ∷ b9 ∷ []) h bs e =
    ground (arith, i16_of_u16-IsI16 (b2 + 256 * b3))
heartbeat_range _ h bs e = ground arith

cycle_event_range :
    (b : List ℕ) (c : CycleEvent)
    → AreBytes b
    → unmarshal_cycle_event b ≡ ok c
    → CycleEventInRange c
unfolding unmarshal_cycle_event
cycle_event_range (b0 ∷ b1 ∷ b2 ∷ b3 ∷ b4 ∷ b5 ∷ b6 ∷ b7 ∷ b8 ∷ b9 ∷ b10 ∷ []) c bs e = ground arith
cycle_event_range _ c bs e = ground arith

alarm_range : (b : List ℕ) (a : Alarm) → AreBytes b → unmarshal_alarm b ≡ ok a → AlarmInRange a
unfolding unmarshal_alarm
alarm_range (b0 ∷ b1 ∷ b2 ∷ []) a bs e = ground arith
alarm_range _ a bs e = ground arith

storm_summary_range :
    (b : List ℕ) (s : StormSummary)
    → AreBytes b
    → unmarshal_storm_summary b ≡ ok s
    → StormSummaryInRange s
unfolding unmarshal_storm_summary
storm_summary_range (b0 ∷ b1 ∷ b2 ∷ b3 ∷ b4 ∷ b5 ∷ b6 ∷ b7 ∷ b8 ∷ []) s bs e = ground arith
storm_summary_range _ s bs e = ground arith

rain_gauge_range :
    (b : List ℕ) (g : RainGauge) → AreBytes b → unmarshal_rain_gauge b ≡ ok g → RainGaugeInRange g
unfolding unmarshal_rain_gauge
rain_gauge_range (b0 ∷ b1 ∷ b2 ∷ b3 ∷ b4 ∷ b5 ∷ b6 ∷ b7 ∷ b8 ∷ b9 ∷ b10 ∷ []) g bs e = ground arith
rain_gauge_range _ g bs e = ground arith

-- What Decode reads from a payload of bytes has in every field a value of the field's Go type.
pub decode-InRange : (p : ℕ) (b : List ℕ) (u : Uplink) → AreBytes b → decode p b ≡ ok u → InRange u
unfolding decode
decode-InRange p b (heartbeat h) bs e = ground (arith, heartbeat_range b h bs)
decode-InRange p b (cycle_event c) bs e = ground (arith, cycle_event_range b c bs)
decode-InRange p b (alarm a) bs e = ground (arith, alarm_range b a bs)
decode-InRange p b (storm_summary s) bs e = ground (arith, storm_summary_range b s bs)
decode-InRange p b (rain_gauge g) bs e = ground (arith, rain_gauge_range b g bs)

-- An encoded uplink has the length of its port, at most the eleven bytes that a slow data rate
-- carries, and consists of bytes.
pub encode_bounds :
    (u : Uplink) (p : ℕ) (b : List ℕ)
    → InRange u
    → encode u ≡ ok (p, b)
    → (length b ≡ len_of_port p) × (length b ≤ max_len) × AreBytes b
unfolding encode marshal marshal_heartbeat marshal_cycle_event marshal_alarm marshal_storm_summary
    marshal_rain_gauge
encode_bounds (heartbeat h) p b r e = ground arith
encode_bounds (cycle_event c) p b r e = ground arith
encode_bounds (alarm a) p b r e = ground arith
encode_bounds (storm_summary s) p b r e = ground arith
encode_bounds (rain_gauge g) p b r e = ground arith
