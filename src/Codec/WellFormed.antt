-- ===== src/Codec/WellFormed.antt =====
-- Which uplinks Encode accepts, described by numbers.
use sumpnet.Prelude.{
  ℕ, ◌≤◌, ◌<◌, ◌≡◌, ◌↔◌, refl, Bool, true, false, not, arith, ltb, every_under, every_under_get,
}
use sumpnet.Prelude.Result.{err}
use sumpnet.Codec.{
  bad_value, Uplink, heartbeat, cycle_event, alarm, storm_summary, rain_gauge, flags_mask,
  rain_flags_mask, has_undefined_bits, marshal_heartbeat, marshal_cycle_event, marshal_alarm,
  marshal_storm_summary, marshal_rain_gauge, marshal, encode,
}
use sumpnet.Codec.Ranges.{InRange}

-- The values that the payload format defines, apart from the field widths.
abbrev pub IsDefined : Uplink → Type 0
IsDefined (heartbeat h) = (h.flags < 16) × (h.reserved ≡ 0)
IsDefined (cycle_event c) = c.pump_id ≤ 1
IsDefined (alarm a) = (1 ≤ a.code) × (a.code ≤ 5)
IsDefined (storm_summary s) = Unit
IsDefined (rain_gauge r) = (0 < r.mm_per_tip_um) × (r.flags < 4)

abbrev eqb : Bool → Bool → Bool
eqb true b = b
eqb false b = not b

eqb→eq : (a b : Bool) → eqb a b ≡ true → a ≡ b
eqb→eq a b h = ground arith

flags_table : every_under (λ f. eqb (has_undefined_bits f flags_mask) (ltb 15 f)) 256 ≡ true
unfolding every_under has_undefined_bits
flags_table = refl

rain_flags_table :
    every_under (λ f. eqb (has_undefined_bits f rain_flags_mask) (ltb 3 f)) 256 ≡ true
unfolding every_under has_undefined_bits
rain_flags_table = refl

pub undefined_flags : (f : ℕ) → f < 256 → has_undefined_bits f flags_mask ≡ ltb 15 f
undefined_flags f h = eqb→eq _ _ (every_under_get _ 256 f h flags_table)

pub undefined_rain_flags : (f : ℕ) → f < 256 → has_undefined_bits f rain_flags_mask ≡ ltb 3 f
undefined_rain_flags f h = eqb→eq _ _ (every_under_get _ 256 f h rain_flags_table)

-- Encode refuses an uplink whose fields hold values of their Go types, with the error bad_value,
-- exactly when a value is undefined in the payload format: a flag bit above the fourth or a
-- reserved byte in a heartbeat, a pump other than 0 and 1, an alarm code outside 1 to 5, a rain
-- gauge with no depth per tip or with a flag bit above the second.
pub encode_refuses : (u : Uplink) → InRange u → (encode u ≡ err bad_value) ↔ ¬ (IsDefined u)
unfolding encode marshal marshal_heartbeat marshal_cycle_event marshal_alarm marshal_storm_summary
    marshal_rain_gauge
encode_refuses (heartbeat h) r = ground (arith, undefined_flags h.flags r.flags)
encode_refuses (cycle_event c) r = ground arith
encode_refuses (alarm a) r = ground arith
encode_refuses (storm_summary s) r = ground arith
encode_refuses (rain_gauge g) r = ground (arith, undefined_rain_flags g.flags r.flags)
