-- ===== src/Privacy.antt =====
-- internal/privacy/privacy.go: segment aggregates and when they may be shown. A volume or a time is a
-- whole number of some unit, and a quotient is kept as its two numbers: float rounding is left out.
pub mod Anonymity
mod Tests
use text.Mathlib.Text.{◌==◌ as str_eq}
use sumpnet.Prelude.{
  ℕ, zero, suc, ◌+◌, ◌-◌, ◌*◌, ◌/◌, ◌%◌, String, Bool, true, false, not, ◌&&◌, ◌||◌, List, [], ◌∷◌,
  ◌++◌, Option, none, some, ltb, leb, ◌==◌, if◌then◌else◌, length, get_elem?,
}

abbrev pub min_homes : ℕ
min_homes = 3

-- Visible
abbrev pub visible : ℕ → Bool
visible homes_reporting = leb min_homes homes_reporting

pub record HomeStorm : Type 0 where
  pub home_id : String
  pub volume_l : ℕ
  pub lag_min : Option ℕ
  pub recession_min : Option ℕ

-- A quotient of two numbers.
pub record Ratio : Type 0 where
  pub num : ℕ
  pub den : ℕ

abbrev pub nothing : Ratio
nothing = record { num = 0; den = 1 }

pub record SegmentStorm : Type 0 where
  pub segment_id : String
  pub homes_reporting : ℕ
  pub is_suppressed : Bool
  pub load_l_per_home : Ratio
  pub median_lag_min : Ratio
  pub median_recession_min : Ratio

-- The variables of AggregateStorm's loop; `seen` holds the keys of the map.
pub record Totals : Type 0 where
  pub seen : List String
  pub total : ℕ
  pub lags : List ℕ
  pub recessions : List ℕ

abbrev pub no_totals : Totals
no_totals = record { seen = []; total = 0; lags = []; recessions = [] }

unfoldable pub is_seen : List String → String → Bool
is_seen [] home = false
is_seen (s ∷ seen) home = str_eq s home || is_seen seen home

abbrev pub append_some : List ℕ → Option ℕ → List ℕ
append_some xs none = xs
append_some xs (some x) = xs ++ x ∷ []

-- The loop's body.
unfoldable pub add_home : Totals → HomeStorm → Totals
add_home t h = if is_seen t.seen h.home_id then t else record {
  seen = h.home_id ∷ t.seen;
  total = t.total + h.volume_l;
  lags = append_some t.lags h.lag_min;
  recessions = append_some t.recessions h.recession_min;
}

unfoldable pub totals : Totals → List HomeStorm → Totals
totals t [] = t
totals t (h ∷ homes) = totals (add_home t h) homes

-- sort.Float64s
insert : ℕ → List ℕ → List ℕ
insert x [] = x ∷ []
insert x (y ∷ ys) = let rest = insert x ys in if leb x y then x ∷ y ∷ ys else y ∷ rest

sort : List ℕ → List ℕ
unfolding insert
sort [] = []
sort (x ∷ xs) = insert x (sort xs)

abbrev at_or_zero : List ℕ → ℕ → ℕ
at_or_zero xs i = elim (get_elem? xs i) [ none ↦ 0 | some x ↦ x ]

-- median, without its rounding to nine decimals; the indices are in range.
unfoldable pub median : List ℕ → Ratio
unfolding sort
median [] = nothing
median (x ∷ xs) =
    let s = sort (x ∷ xs) in
    let n = length s in
    if n % 2 == 1
    then record { num = at_or_zero s (n / 2); den = 1 }
    else record { num = at_or_zero s (n / 2 - 1) + at_or_zero s (n / 2); den = 2 }

-- What AggregateStorm makes of the loop's variables.
unfoldable pub published : String → Totals → SegmentStorm
published segment t =
    let n = length t.seen in
    if not (visible n)
    then record {
      segment_id = segment;
      homes_reporting = n;
      is_suppressed = true;
      load_l_per_home = nothing;
      median_lag_min = nothing;
      median_recession_min = nothing;
    }
    else record {
      segment_id = segment;
      homes_reporting = n;
      is_suppressed = false;
      load_l_per_home = record { num = t.total; den = n };
      median_lag_min = median t.lags;
      median_recession_min = median t.recessions;
    }

unfoldable pub aggregate_storm : String → List HomeStorm → SegmentStorm
aggregate_storm segment homes = published segment (totals no_totals homes)

pub record SegmentStatus : Type 0 where
  pub segment_id : String
  pub homes_reporting : ℕ
  pub is_suppressed : Bool
  pub cycles_per_hour : Ratio
  pub active_alerts : ℕ

unfoldable pub aggregate_status : String → ℕ → ℕ → ℕ → SegmentStatus
aggregate_status segment homes_reporting cycles_per_hour active_alerts =
    if not (visible homes_reporting)
    then record {
      segment_id = segment;
      homes_reporting = homes_reporting;
      is_suppressed = true;
      cycles_per_hour = nothing;
      active_alerts = 0;
    }
    else record {
      segment_id = segment;
      homes_reporting = homes_reporting;
      is_suppressed = false;
      cycles_per_hour = record { num = cycles_per_hour; den = homes_reporting };
      active_alerts = active_alerts;
    }
