-- ===== src/Alerts/Rules/Tests.antt =====
-- The theorems on the rules, applied to heartbeats of a home without mains and to a healthy one.
use sumpnet.Prelude.{ℕ, ◌≡◌, refl, ap, Bool, true, false, [], ◌∷◌, none, some, arith}
use sumpnet.Prelude.Result.{Result, ok, err, ◌>>=◌}
use sumpnet.Hydrology.{level_rising}
use sumpnet.AlertCode.{mains_lost}
use sumpnet.Alerts.Table.{
  get_open_alert, find_where, insert_alert, last_notified_at, last_notified, update_where,
  resolve_open_alert,
}
use sumpnet.Alerts.Table.Invariant.{IsConsistent, count_where}
use sumpnet.Alerts.Engine.{
  default_config, State, Clock, Error, raise, resolve, home_of, initial_state,
}
use sumpnet.Alerts.Rules.{
  Queries, Reading, Handler, handle_reading, handle_readings, raise_alert, resolve_alert, flag,
  battery, routine, watch_level, samples, last_three, rain_term, holds, mains_gone,
}
use sumpnet.Alerts.Rules.Reach.{Step, here, there, reached-IsConsistent}
use sumpnet.Alerts.Rules.Healthy.{IsHealthy, OpenedAfter, healthy_heartbeat_ends}

-- No home is known, nothing was read before, and no rainfall is recorded.
abbrev queries : Queries ℕ
queries = record {
  device_home = λ dev. ok none;
  readings_before = λ dev ts. ok [];
  rain_near = λ ts. ok (record { mm = 0; covered_until = 0 });
  stale_devices = λ after. ok [];
}

abbrev noon : Clock
noon = record { now = 9_000_000_000_000; db_now = 9_000_000_000_000 }

-- A heartbeat of the home, healthy but for the mains.
abbrev heartbeat : ℕ → ℕ → Bool → Reading
heartbeat ts level mains = record {
  device_id = "70b3d57ed0000001";
  ts = ts;
  f_cnt = 1;
  level_mm = level;
  float_high = false;
  sensor_fault = false;
  mains_ok = mains;
  batt_mv = some 3800;
}

abbrev empty_state : State
empty_state = record { homes = λ dev. none; table = record { rows = []; next_id = 0 } }

-- Two samples of a rising level, five minutes apart.
abbrev rising : Handler
rising = record {
  engine = empty_state;
  levels = λ dev. some (
      record { ts = 8_000_000_000_000; dist = 500 }
      ∷ record { ts = 8_300_000_000_000; dist = 480 }
      ∷ []);
}

empty_IsConsistent : IsConsistent empty_state.table
unfolding count_where
empty_IsConsistent = record {
  one_open = λ dev code. omega arith;
  below = tt;
  distinct = tt;
  rows = tt;
}

abbrev handler_or : Result (Error ℕ) Handler → Handler → Handler
handler_or (ok h) other = h
handler_or (err e) other = other

abbrev third_sample : Reading
third_sample = heartbeat 8_600_000_000_000 460 false

abbrev flooded : Handler
flooded = handler_or (handle_reading queries default_config noon rising third_sample) rising

third_handled : handle_reading queries default_config noon rising third_sample ≡ ok flooded
unfolding handle_reading routine flag battery raise_alert resolve_alert watch_level samples
    last_three rain_term holds mains_gone raise resolve home_of initial_state last_notified_at
    last_notified insert_alert get_open_alert find_where update_where resolve_open_alert
    level_rising
third_handled = refl

one_handled : handle_readings queries default_config noon rising (third_sample ∷ []) ≡ ok flooded
unfolding handle_readings
one_handled = ap (λ r. r >>= λ h. ok h) third_handled

abbrev one_step : Step queries default_config empty_state flooded.engine
one_step = Step.readings noon (third_sample ∷ []) rising.levels flooded one_handled refl

reached-IsConsistent_example : IsConsistent flooded.engine.table
reached-IsConsistent_example =
    reached-IsConsistent queries default_config empty_state flooded.engine empty_IsConsistent
      (there empty_state flooded.engine here one_step)

flooded_IsConsistent : IsConsistent flooded.engine.table
flooded_IsConsistent =
    reached-IsConsistent queries default_config empty_state flooded.engine empty_IsConsistent
      (there empty_state flooded.engine here one_step)

abbrev all_well : Reading
all_well = heartbeat 8_900_000_000_000 700 true

all_well-IsHealthy : IsHealthy queries default_config noon all_well
all_well-IsHealthy = record {
  float_low = refl;
  sensor_ok = refl;
  mains_on = refl;
  mv = 3800;
  battery_known = refl;
  battery_up = omega arith;
  battery_clear = omega arith;
}

healthy_heartbeat_ends_example :
    (h' : Handler) × (handle_reading queries default_config noon flooded all_well ≡ ok h')
    × (h'.levels "70b3d57ed0000001" ≡ none)
    × OpenedAfter 8_900_000_000_000 (get_open_alert h'.engine.table "70b3d57ed0000001" mains_lost)
healthy_heartbeat_ends_example =
    healthy_heartbeat_ends queries default_config noon flooded all_well mains_lost
      flooded_IsConsistent all_well-IsHealthy refl
