-- ===== src/Weather/Gauge.antt =====
-- internal/weather/gauge.go: the rainfall rows that the uplinks of a gauge stand for. A time is the
-- number of nanoseconds since Go's zero time; an int32 interval is under 69 years, so that
-- subtracting one from a recent time does not pass the zero time. A depth is a whole number of the
-- unit that `mm_per_tip` counts in; the rounding of floats is left out.
pub mod Tiles
pub mod Depth
use sumpnet.Prelude.{
  ℕ, ◌+◌, ◌-◌, ◌*◌, ◌/◌, ◌^◌, Bool, true, false, not, ◌&&◌, ◌||◌, List, [], ◌∷◌, ◌++◌, Option, none,
  some, ltb, leb, if◌then◌else◌, min, max,
}

abbrev pub second : ℕ
second = 1_000_000_000

-- TipWindow and lossSlack
abbrev pub tip_window : ℕ
tip_window = 300_000_000_000

abbrev pub loss_slack : ℕ
loss_slack = 30_000_000_000

pub record GaugeUplink : Type 0 where
  pub at : ℕ
  pub f_cnt : ℕ
  pub tip_count : ℕ
  pub mm_per_tip : ℕ
  pub interval_s : ℕ
  pub counter_reset : Bool
  pub sensor_fault : Bool

pub record RainRow : Type 0 where
  pub start : ℕ
  pub interval_s : ℕ
  pub mm : ℕ

-- The tips that an uplink reports, the time from which, and whether an uplink was lost before it.
pub record Span : Type 0 where
  pub tips : ℕ
  pub start : ℕ
  pub lost : Bool

abbrev pub node_start : GaugeUplink → ℕ
node_start u = u.at - u.interval_s * second

abbrev pub max_int32 : ℕ
max_int32 = 2_147_483_647

-- seconds
abbrev pub seconds : ℕ → ℕ
seconds d = min (d / second) max_int32

-- The switch of deriveOne; none where it returns no rows.
unfoldable pub span_of : Option GaugeUplink → GaugeUplink → Option Span
span_of none u =
    if not u.counter_reset
    then none
    else some (record { tips = u.tip_count; start = node_start u; lost = false })
span_of (some p) u =
    if u.counter_reset || ltb u.tip_count p.tip_count
    then some (record {
      tips = u.tip_count;
      start = if ltb (node_start u) p.at then p.at else node_start u;
      lost = false;
    })
    else some (record {
      tips = u.tip_count - p.tip_count;
      start = p.at;
      lost = ltb (p.at + loss_slack) (node_start u);
    })

-- u.At.Sub(start) < time.Second; the difference may be negative.
abbrev pub too_short : GaugeUplink → Span → Bool
too_short u s = ltb u.at (s.start + second)

-- The rest of deriveOne.
unfoldable pub rows_of : GaugeUplink → Span → List RainRow
rows_of u s =
    let total = u.at - s.start in
    let mm = s.tips * u.mm_per_tip in
    let wet = u.at - tip_window in
    if too_short u s || u.sensor_fault
    then []
    else (if ltb 0 s.tips && (not s.lost && ltb tip_window total)
        then record { start = s.start; interval_s = seconds (wet - s.start); mm = 0 }
          ∷ record { start = wet; interval_s = seconds tip_window; mm = mm }
          ∷ []
        else record { start = s.start; interval_s = seconds total; mm = mm } ∷ [])

-- deriveOne
unfoldable pub derive_one : Option GaugeUplink → GaugeUplink → List RainRow
derive_one p u = elim (span_of p u) [ none ↦ [] | some s ↦ rows_of u s ]

-- DeriveGaugeRainfall
unfoldable pub derive_gauge_rainfall : Option GaugeUplink → List GaugeUplink → List RainRow
derive_gauge_rainfall p [] = []
derive_gauge_rainfall p (u ∷ ups) = derive_one p u ++ derive_gauge_rainfall (some u) ups
