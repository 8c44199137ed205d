-- ===== src/Hydrology/Storm/Tests.antt =====
-- Storms of a concrete series, and each property at it.
use sumpnet.Prelude.{ℕ, ◌≡◌, refl, true, false, List, [], ◌∷◌, arith, ◌*◌}
use sumpnet.Hydrology.Storm.{
  RainInterval, segment_storms, segment_from, rained, flush, intensity, is_onset, stronger,
}
use sumpnet.Hydrology.Storm.Apart.{AreApart, segment_storms-AreApart}

abbrev hour : ℕ
hour = 3600000000000

abbrev rain_at : ℕ → ℕ → RainInterval
rain_at h mm = record { start = h * hour; dur = hour; mm = mm }

-- A drizzle, four millimetres in the next hour and two more after five dry hours; a dry interval; a
-- shower that is too small; and a storm that is still open at the horizon.
abbrev series : List RainInterval
series =
    rain_at 1 500
    ∷ rain_at 2 4000
    ∷ rain_at 8 2000
    ∷ rain_at 10 0
    ∷ rain_at 20 3000
    ∷ rain_at 40 9000
    ∷ []

found :
    segment_storms (44 * hour) series
    ≡ record {
      first_rain = hour;
      onset = 2 * hour;
      rain_end = 9 * hour;
      total_mm = 6500;
      peak = record { mm = 4000; dur = hour };
      is_closed = true;
    }
      ∷ record {
        first_rain = 40 * hour;
        onset = 40 * hour;
        rain_end = 41 * hour;
        total_mm = 9000;
        peak = record { mm = 9000; dur = hour };
        is_closed = false;
      }
      ∷ []
unfolding segment_storms segment_from rained flush intensity is_onset stronger
found = refl

segment_storms-AreApart_example : AreApart 0 (segment_storms (44 * hour) series)
segment_storms-AreApart_example =
    segment_storms-AreApart (44 * hour) 0 series
      (omega arith, (omega arith, (omega arith, (omega arith, (omega arith, (omega arith, tt))))))
