-- ===== src/Alerts/Rules/Outage.antt =====
-- What has to hold for a heartbeat to open an outage-risk episode.
use sumpnet.Prelude.{ℕ, ◌+◌, ◌≡◌, ◌≤◌, ◌<◌, ◌⊎◌, String, false, length}
use sumpnet.Prelude.Result.{ok}
use sumpnet.AlertCode.{AlertCode, outage_risk}
use sumpnet.Alerts.Table.Invariant.{IsConsistent}
use sumpnet.Alerts.Table.Frame.{rows_of, Differ}
use sumpnet.Alerts.Engine.{Config, State, Clock}
use sumpnet.Alerts.Rules.{Queries, Reading, LevelSample, Handler, RainRow}
use sumpnet.Alerts.Rules.Samples.{Before, Rises}

-- How many episodes of a device and a code the table records, open or not.
abbrev pub episodes : String → AlertCode → State → ℕ
episodes dev code s = length (rows_of dev code s.table.rows)

module _ {E : Type 0} (q : Queries E) (cfg : Config) (clock : Clock) where
  -- The facts on which the outage rule raises: the reading and the two samples before it lie within
  -- the rise window, their distances fall by the configured total, and rain was recorded or the
  -- rainfall record does not reach the reading.
  pub record AtRisk (h : Handler) (r : Reading) : Type 0 where
    pub mains_off : r.mains_ok ≡ false
    pub first : LevelSample
    pub middle : LevelSample
    pub sampled : Before q cfg clock h r first middle
    pub soon : r.ts ≤ first.ts + cfg.rise_window
    pub rising : Rises cfg.rise_min_mm first.dist middle.dist r.level_mm
    pub rain : RainRow
    pub rain_known : q.rain_near r.ts ≡ ok rain
    pub rain_holds : (0 < rain.mm) ⊎ (rain.covered_until + cfg.rain_coverage_slack < r.ts)

  module _ (dev : String) (n : ℕ) where
    abbrev Recorded : State → Type 0
    Recorded s = IsConsistent s.table × (episodes dev outage_risk s ≡ n)

    abbrev Other : String → AlertCode → Type 0
    Other d k = Differ d k dev outage_risk
