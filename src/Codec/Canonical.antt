-- ===== src/Codec/Canonical.antt =====
-- Decode accepts only what Encode produces.
use sumpnet.Prelude.{ℕ, ◌+◌, ◌*◌, ◌≡◌, List, [], ◌∷◌, arith}
use sumpnet.Prelude.Result.{ok}
use sumpnet.Prelude.Bytes.{AreBytes, u16-i16}
use sumpnet.Codec.{
  Heartbeat, CycleEvent, Alarm, StormSummary, RainGauge, Uplink, heartbeat, cycle_event, alarm,
  storm_summary, rain_gauge, marshal_heartbeat, unmarshal_heartbeat, marshal_cycle_event,
  unmarshal_cycle_event, marshal_alarm, unmarshal_alarm, marshal_storm_summary,
  unmarshal_storm_summary, marshal_rain_gauge, unmarshal_rain_gauge, marshal, encode, decode,
}

heartbeat_canonical :
    (b : List ℕ) (h : Heartbeat)
    → AreBytes b
    → unmarshal_heartbeat b ≡ ok h
    → marshal_heartbeat h ≡ ok b
unfolding marshal_heartbeat unmarshal_heartbeat
heartbeat_canonical (b0 ∷ b1 ∷ b2 ∷ b3 ∷ b4 ∷ b5 ∷ b6 ∷ b7 ∷ b8 ∷ b9 ∷ []) h bs e =
    ground (arith, u16-i16 (b2 + 256 * b3))
heartbeat_canonical _ h bs e = ground arith

cycle_event_canonical :
    (b : List ℕ) (c : CycleEvent)
    → AreBytes b
    → unmarshal_cycle_event b ≡ ok c
    → marshal_cycle_event c ≡ ok b
unfolding marshal_cycle_event unmarshal_cycle_event
cycle_event_canonical (b0 ∷ b1 ∷ b2 ∷ b3 ∷ b4 ∷ b5 ∷ b6 ∷ b7 ∷ b8 ∷ b9 ∷ b10 ∷ []) c bs e =
    ground arith
cycle_event_canonical _ c bs e = ground arith

alarm_canonical :
    (b : List ℕ) (a : Alarm) → AreBytes b → unmarshal_alarm b ≡ ok a → marshal_alarm a ≡ ok b
unfolding marshal_alarm unmarshal_alarm
alarm_canonical (b0 ∷ b1 ∷ b2 ∷ []) a bs e = ground arith
alarm_canonical _ a bs e = ground arith

storm_summary_canonical :
    (b : List ℕ) (s : StormSummary)
    → AreBytes b
    → unmarshal_storm_summary b ≡ ok s
    → marshal_storm_summary s ≡ ok b
unfolding marshal_storm_summary unmarshal_storm_summary
storm_summary_canonical (b0 ∷ b1 ∷ b2 ∷ b3 ∷ b4 ∷ b5 ∷ b6 ∷ b7 ∷ b8 ∷ []) s bs e = ground arith
storm_summary_canonical _ s bs e = ground arith

rain_gauge_canonical :
    (b : List ℕ) (g : RainGauge)
    → AreBytes b
    → unmarshal_rain_gauge b ≡ ok g
    → marshal_rain_gauge g ≡ ok b
unfolding marshal_rain_gauge unmarshal_rain_gauge
rain_gauge_canonical (b0 ∷ b1 ∷ b2 ∷ b3 ∷ b4 ∷ b5 ∷ b6 ∷ b7 ∷ b8 ∷ b9 ∷ b10 ∷ []) g bs e =
    ground arith
rain_gauge_canonical _ g bs e = ground arith

-- A payload that Decode accepts is, byte for byte and on the same port, what Encode produces for
-- the decoded uplink.
pub encode-decode :
    (p : ℕ) (b : List ℕ) (u : Uplink) → AreBytes b → decode p b ≡ ok u → encode u ≡ ok (p, b)
unfolding encode decode marshal
encode-decode p b (heartbeat h) bs e = ground (arith, heartbeat_canonical b h bs)
encode-decode p b (cycle_event c) bs e = ground (arith, cycle_event_canonical b c bs)
encode-decode p b (alarm a) bs e = ground (arith, alarm_canonical b a bs)
encode-decode p b (storm_summary s) bs e = ground (arith, storm_summary_canonical b s bs)
encode-decode p b (rain_gauge g) bs e = ground (arith, rain_gauge_canonical b g bs)
