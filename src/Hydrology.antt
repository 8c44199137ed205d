-- ===== src/Hydrology.antt =====
-- internal/hydrology/hydrology.go. A time.Time is the number of nanoseconds since Go's zero time, a
-- time.Duration a number of nanoseconds. Run times and levels are numbers: internal/ingest stores
-- an int32 between 0 and 2 ^ 31 - 1, so the int32 difference of two levels does not wrap.
pub mod Storm
pub mod ShortCycling
mod Tests
use sumpnet.Prelude.{
  ℕ, zero, suc, ◌+◌, ◌-◌, ◌*◌, ◌/◌, String, Bool, true, false, not, ◌&&◌, List, [], ◌∷◌, Option,
  none, some, ltb, leb, if◌then◌else◌, length, get_elem?,
}
use sumpnet.Prelude.Int.{ℤ, pos, ltb_ℤ, sub_ℕ}

abbrev pub second : ℕ
second = 1_000_000_000

abbrev pub minute : ℕ
minute = 60_000_000_000

abbrev pub hour : ℕ
hour = 3_600_000_000_000

abbrev pub cycle_min_run_s : ℕ
cycle_min_run_s = 3

abbrev pub cycle_min_drop_mm : ℤ
cycle_min_drop_mm = pos 20

abbrev pub dry_run_min_run_s : ℕ
dry_run_min_run_s = 30

abbrev pub dry_run_max_drop_mm : ℤ
dry_run_max_drop_mm = pos 5

abbrev pub short_cycle_gap : ℕ
short_cycle_gap = 60_000_000_000

abbrev pub short_cycle_min_count : ℕ
short_cycle_min_count = 5

abbrev pub continuous_run : ℕ
continuous_run = 600_000_000_000

pub record Cycle : Type 0 where
  pub started_at : ℕ
  pub run_s : ℕ
  pub level_start_mm : ℕ
  pub level_end_mm : ℕ
  pub pump : String

abbrev pub ended_at : Cycle → ℕ
ended_at c = c.started_at + c.run_s * second

abbrev pub drop_mm : Cycle → ℤ
drop_mm c = sub_ℕ c.level_end_mm c.level_start_mm

unfoldable pub is_cycle : Cycle → Bool
is_cycle c = leb cycle_min_run_s c.run_s && not (ltb_ℤ (drop_mm c) cycle_min_drop_mm)

unfoldable pub is_dry_run : Cycle → Bool
is_dry_run c = leb dry_run_min_run_s c.run_s && ltb_ℤ (drop_mm c) dry_run_max_drop_mm

unfoldable pub is_continuous_run : Cycle → Bool
is_continuous_run c = ltb continuous_run (c.run_s * second)

-- gap >= ShortCycleGap, for the gap between the end of `p` and the start of `c`, which is negative
-- where the runs overlap.
unfoldable pub is_apart : Cycle → Cycle → Bool
is_apart p c = leb (ended_at p + short_cycle_gap) c.started_at

-- The gap test at sorted[i] and sorted[i-1]; both indices are in range.
apart_at : List Cycle → ℕ → Bool
apart_at sorted i = elim (get_elem? sorted i) [
  | none ↦ true
  | some p ↦ elim (get_elem? sorted (suc i)) [ none ↦ true | some c ↦ is_apart p c ]
]

-- The loop of ShortCyclingRun, entered with its i, and the value of `run` so far.
count_close : List Cycle → ℕ → ℕ → ℕ
count_close sorted zero run = run
count_close sorted (suc i) run =
    let rest = count_close sorted i (run + 1) in if apart_at sorted i then run else rest

unfoldable pub short_cycling_run : List Cycle → ℕ
unfolding count_close apart_at
short_cycling_run [] = 0
short_cycling_run (c ∷ cs) = count_close (c ∷ cs) (length cs) 1

-- float64(windowS)/float64(count) <= 60, with both sides multiplied by the positive count.
unfoldable pub summary_short_cycling : ℕ → ℕ → Bool
summary_short_cycling count window_s =
    leb short_cycle_min_count count && ltb 0 window_s && leb window_s (60 * count)

-- The loop of LevelRising: every distance is below the one before it.
all_falling : ℕ → List ℕ → Bool
all_falling d [] = true
all_falling d (e ∷ es) = if leb d e then false else all_falling e es

last_or : ℕ → List ℕ → ℕ
last_or d [] = d
last_or d (e ∷ es) = last_or e es

unfoldable pub level_rising : List ℕ → ℕ → Bool
unfolding all_falling last_or
level_rising [] min_total_mm = false
level_rising (d ∷ []) min_total_mm = false
level_rising (d ∷ e ∷ es) min_total_mm =
    all_falling d (e ∷ es) && not (ltb_ℤ (sub_ℕ d (last_or e es)) (pos min_total_mm))
