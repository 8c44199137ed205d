-- ===== src/Weather/Tests.antt =====
-- The theorems on gauge rainfall, applied to two uplinks after a stored one, with one lost between.
use sumpnet.Prelude.{ℕ, ◌+◌, ◌*◌, ◌≡◌, refl, false, List, [], ◌∷◌, some, arith}
use sumpnet.Weather.Gauge.{GaugeUplink, derive_gauge_rainfall}
use sumpnet.Weather.Gauge.Tiles.{Laid, Sorted, derive_gauge_rainfall-Laid}
use sumpnet.Weather.Gauge.Depth.{depth, Steady, derive_gauge_rainfall-depth}

abbrev uplink : ℕ → ℕ → GaugeUplink
uplink at tips = record {
  at = at;
  f_cnt = 3;
  tip_count = tips;
  mm_per_tip = 200;
  interval_s = 300;
  counter_reset = false;
  sensor_fault = false;
}

abbrev stored : GaugeUplink
stored = uplink 1_000_000_000_000 40

abbrev uplinks : List GaugeUplink
uplinks = uplink 1_300_000_000_000 42 ∷ uplink 1_900_000_000_000 47 ∷ []

sorted : Sorted stored.at uplinks 1_900_000_000_000
sorted = (omega arith, (omega arith, refl))

steady : Steady 200 stored uplinks 47
steady =
    (omega arith, omega arith, refl, refl, refl, (omega arith, omega arith, refl, refl, refl, refl))

derive_gauge_rainfall-Laid_example :
    Laid stored.at (derive_gauge_rainfall (some stored) uplinks) 1_900_000_000_000
derive_gauge_rainfall-Laid_example =
    derive_gauge_rainfall-Laid stored uplinks 1_900_000_000_000 sorted

derive_gauge_rainfall-depth_example :
    depth (derive_gauge_rainfall (some stored) uplinks) + stored.tip_count * 200 ≡ 47 * 200
derive_gauge_rainfall-depth_example = derive_gauge_rainfall-depth 200 stored uplinks 47 steady
