-- ===== src/Storms/Select/Tests.antt =====
-- Rainfall of a gauge and a fallback station, and each property at it.
use sumpnet.Prelude.{ℕ, ◌≡◌, refl, true, false, List, [], ◌∷◌, some, arith}
use sumpnet.Prelude.Words.{word_eq}
use sumpnet.Hydrology.Storm.{RainInterval}
use sumpnet.Storms.Select.{
  RainfallRow, gauge, eccc, select_rain, add_rows, add_row, same_source, sort_series, place_series,
  key_lt, word_lt, sort, place, extend, spans_of, union_spans, search, bisect, halve, uncovered,
  cover_of, used, set_of, flatten, wet_extent, saw_rain, source_for,
}
use sumpnet.Storms.Select.Cover.{clear_of, uncovered-clear_of}

abbrev interval : ℕ → ℕ → ℕ → RainInterval
interval start dur mm = record { start = start; dur = dur; mm = mm }

-- The spans of a gauge with touching and separate intervals.
abbrev cover : List RainInterval
cover = interval 20 5 0 ∷ interval 0 10 3 ∷ interval 10 5 1 ∷ interval 40 0 9 ∷ []

two_spans : union_spans cover ≡ record { from = 0; to = 15 } ∷ record { from = 20; to = 25 } ∷ []
unfolding union_spans sort place spans_of extend
two_spans = refl

abbrev hours : List RainInterval
hours = interval 5 12 2 ∷ interval 15 5 2 ∷ interval 24 10 0 ∷ interval 38 5 4 ∷ []

gap_kept : uncovered (union_spans cover) hours ≡ interval 15 5 2 ∷ interval 38 5 4 ∷ []
unfolding uncovered search bisect halve union_spans sort place spans_of extend
gap_kept = refl

abbrev rows : List RainfallRow
rows =
    record { source = eccc; station_id = 49 ∷ []; ts = 0; interval_s = 3600; mm = 2 }
    ∷ record { source = gauge; station_id = 50 ∷ []; ts = 60; interval_s = 300; mm = 0 }
    ∷ record { source = eccc; station_id = 49 ∷ []; ts = 3600000000000; interval_s = 3600; mm = 7 }
    ∷ []

-- The gauge comes first; the hour that it covers in part is not taken from the fallback.
selected : select_rain rows ≡ record {
  stations = (interval 60 300000000000 0 ∷ []) ∷ (interval 3600000000000 3600000000000 7 ∷ []) ∷ [];
  gauge = true ∷ false ∷ [];
}
unfolding select_rain add_rows add_row same_source word_eq sort_series place_series key_lt word_lt
    cover_of union_spans sort place spans_of extend set_of used uncovered search bisect halve
selected = refl

extent :
    wet_extent (flatten ((interval 9 3 0 ∷ interval 20 5 1 ∷ []) ∷ (interval 15 2 4 ∷ []) ∷ []))
    ≡ some (15, 25)
unfolding wet_extent flatten
extent = refl

-- A gauge that stayed dry during the storm is not its source.
fallback :
    source_for
      (record { from = 0; to = 30 })
      ((interval 0 10 0 ∷ []) ∷ (interval 0 30 5 ∷ []) ∷ [])
      (true ∷ false ∷ [])
    ≡ eccc
unfolding source_for saw_rain
fallback = refl

uncovered-clear_of_example : uncovered (union_spans cover) hours ≡ clear_of cover hours
uncovered-clear_of_example =
    uncovered-clear_of cover hours (omega arith, (omega arith, (omega arith, (omega arith, tt))))
