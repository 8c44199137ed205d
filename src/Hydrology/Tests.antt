-- ===== src/Hydrology/Tests.antt =====
-- The theorem on short cycling, applied to two close cycles after a distant one.
use sumpnet.Prelude.{ℕ, List, [], ◌∷◌}
use sumpnet.Hydrology.{Cycle, short_cycling_run}
use sumpnet.Hydrology.ShortCycling.{IsTrailingRun, short_cycling_run-IsTrailingRun}

abbrev cycle_at : ℕ → Cycle
cycle_at s = record {
  started_at = s;
  run_s = 20;
  level_start_mm = 300;
  level_end_mm = 500;
  pump = "primary";
}

abbrev later_cycles : List Cycle
later_cycles = cycle_at 900_000_000_000 ∷ cycle_at 930_000_000_000 ∷ []

short_cycling_run-IsTrailingRun_example :
    IsTrailingRun (cycle_at 0 ∷ later_cycles) (short_cycling_run (cycle_at 0 ∷ later_cycles))
short_cycling_run-IsTrailingRun_example = short_cycling_run-IsTrailingRun (cycle_at 0) later_cycles
