-- ===== src/Codec/RoundTrip.antt =====
-- Decoding what Encode produced.
use sumpnet.Prelude.{ℕ, ◌≡◌, List, arith}
use sumpnet.Prelude.Result.{ok}
use sumpnet.Prelude.Bytes.{i16-u16, u16_of_i16-lt}
use sumpnet.Codec.{
  Heartbeat, CycleEvent, Alarm, StormSummary, RainGauge, Uplink, heartbeat, cycle_event, alarm,
  storm_summary, rain_gauge, marshal_heartbeat, unmarshal_heartbeat, marshal_cycle_event,
  unmarshal_cycle_event, marshal_alarm, unmarshal_alarm, marshal_storm_summary,
  unmarshal_storm_summary, marshal_rain_gauge, unmarshal_rain_gauge, marshal, encode, decode,
}
use sumpnet.Codec.Ranges.{
  HeartbeatInRange, CycleEventInRange, AlarmInRange, StormSummaryInRange, RainGaugeInRange, InRange,
}

heartbeat_back :
    (h : Heartbeat) (b : List ℕ)
    → HeartbeatInRange h
    → marshal_heartbeat h ≡ ok b
    → unmarshal_heartbeat b ≡ ok h
unfolding marshal_heartbeat unmarshal_heartbeat
heartbeat_back h b r e =
    ground (arith, i16-u16 h.temp_centi_c r.temp_centi_c, u16_of_i16-lt h.temp_centi_c)

cycle_event_back :
    (c : CycleEvent) (b : List ℕ)
    → CycleEventInRange c
    → marshal_cycle_event c ≡ ok b
    → unmarshal_cycle_event b ≡ ok c
unfolding marshal_cycle_event unmarshal_cycle_event
cycle_event_back c b r e = ground arith

alarm_back :
    (a : Alarm) (b : List ℕ) → AlarmInRange a → marshal_alarm a ≡ ok b → unmarshal_alarm b ≡ ok a
unfolding marshal_alarm unmarshal_alarm
alarm_back a b r e = ground arith

storm_summary_back :
    (s : StormSummary) (b : List ℕ)
    → StormSummaryInRange s
    → marshal_storm_summary s ≡ ok b
    → unmarshal_storm_summary b ≡ ok s
unfolding marshal_storm_summary unmarshal_storm_summary
storm_summary_back s b r e = ground arith

rain_gauge_back :
    (g : RainGauge) (b : List ℕ)
    → RainGaugeInRange g
    → marshal_rain_gauge g ≡ ok b
    → unmarshal_rain_gauge b ≡ ok g
unfolding marshal_rain_gauge unmarshal_rain_gauge
rain_gauge_back g b r e = ground arith

-- What Encode produces for an uplink whose fields hold values of their Go types, Decode on the
-- port that Encode names reads back as the same uplink.
pub decode-encode :
    (u : Uplink) (p : ℕ) (b : List ℕ) → InRange u → encode u ≡ ok (p, b) → decode p b ≡ ok u
unfolding encode decode marshal
decode-encode (heartbeat h) p b r e = ground (arith, heartbeat_back h b r)
decode-encode (cycle_event c) p b r e = ground (arith, cycle_event_back c b r)
decode-encode (alarm a) p b r e = ground (arith, alarm_back a b r)
decode-encode (storm_summary s) p b r e = ground (arith, storm_summary_back s b r)
decode-encode (rain_gauge g) p b r e = ground (arith, rain_gauge_back g b r)
