-- ===== src/Detector.antt =====
-- internal/detector/detector.go: the state and the rules of the cycle-detector service. The Go maps
-- are functions, with the zero value of the missing key; metrics, logs and the JSON detail of a
-- detection are left out. The database query of `seed` is the argument `list_cycles_before`.
pub mod Rows
pub mod Alternation
pub mod Batches
pub mod Recovery
pub mod Write
pub mod Windows
mod Tests
pub use Rows.*
use text.Mathlib.Text.{◌==◌ as str_eq}
use sumpnet.Prelude.{
  ℕ, zero, suc, ◌+◌, ◌-◌, String, Bool, true, false, not, ◌&&◌, List, [], ◌∷◌, ◌++◌, map, Option,
  none, some, ltb, leb, ◌==◌, if◌then◌else◌, length, drop,
}
use sumpnet.Prelude.Result.{Result, ok, err, ◌>>=◌}
use sumpnet.AlertCode.{AlertCode, dry_run, continuous_run, short_cycling, code_eq}
use sumpnet.Hydrology.{
  Cycle, ended_at, is_dry_run, is_continuous_run, short_cycling_run, short_cycle_min_count,
  summary_short_cycling,
}
use sumpnet.Hydrology as Hydrology

unfoldable pub reset : Handler
reset = record { windows = λ dev pump. none; active = λ dev code. false; healthy = λ dev code. 0 }

-- m[condKey{dev, code}] = v
abbrev pub set_cond {ℓ} :
    {V : Type ℓ} → (String → AlertCode → V) → String → AlertCode → V → String → AlertCode → V
set_cond m dev code v d c = if str_eq dev d && code_eq code c then v else m d c

-- m[windowKey{dev, pump}] = v
abbrev pub set_window {ℓ} :
    {V : Type ℓ} → (String → String → V) → String → String → V → String → String → V
set_window m dev pump v d p = if str_eq dev d && str_eq pump p then v else m d p

abbrev pub to_cycle : CycleRow → Cycle
to_cycle r = record {
  started_at = r.started_at;
  run_s = r.run_s;
  level_start_mm = r.level_start_mm;
  level_end_mm = r.level_end_mm;
  pump = r.pump_id;
}

-- The cycles of one pump among rows that come newest first, oldest first.
window_of : String → List CycleRow → List Cycle → List Cycle
window_of pump [] later = later
window_of pump (r ∷ prev) later =
    window_of pump prev (if str_eq r.pump_id pump then to_cycle r ∷ later else later)

pub last? : List Cycle → Option Cycle
last? [] = none
last? (c ∷ []) = some c
last? (c ∷ d ∷ cs) = last? (d ∷ cs)

-- The end of seed, for the rows that the query returned.
seed_from : Handler → String → String → List CycleRow → Handler
unfolding window_of last?
seed_from h dev pump prev =
    let w = window_of pump prev [] in
    let h' = record h { windows = set_window h.windows dev pump (some w) } in
    elim (last? w) [
      | none ↦ h'
      | some last ↦ record h' {
        active =
            set_cond (set_cond h'.active dev dry_run (is_dry_run last)) dev short_cycling
              (leb short_cycle_min_count (short_cycling_run w));
      }
    ]

-- The part of classify on dry runs.
unfoldable pub classify_dry : Config → Handler → CycleRow → Cycle → Handler × List Detection
classify_dry cfg h r c =
    let dev = r.device_id in
    if is_dry_run c
    then (let h' = record h { healthy = set_cond h.healthy dev dry_run 0 } in
        if h.active dev dry_run then (h', []) else (
          record h' { active = set_cond h.active dev dry_run true },
          record {
            device = dev;
            code = dry_run;
            action = raise;
            at = r.received_at;
            fcnt = r.f_cnt;
          }
              ∷ [],
        ))
    else if h.active dev dry_run
    then (let n = h.healthy dev dry_run + 1 in
        let h' = record h { healthy = set_cond h.healthy dev dry_run n } in
        if leb cfg.healthy_cycles_to_clear n
        then (
          record h' { active = set_cond h.active dev dry_run false },
          record { device = dev; code = dry_run; action = clear; at = ended_at c; fcnt = r.f_cnt }
              ∷ [],
        )
        else (h', []))
    else (h, [])

-- The part on continuous runs.
unfoldable pub classify_continuous : CycleRow → Cycle → List Detection
classify_continuous r c =
    if is_continuous_run c
    then record {
      device = r.device_id;
      code = continuous_run;
      action = raise;
      at = c.started_at + Hydrology.continuous_run;
      fcnt = r.f_cnt;
    }
      ∷ record {
        device = r.device_id;
        code = continuous_run;
        action = clear;
        at = ended_at c;
        fcnt = r.f_cnt;
      }
      ∷ []
    else []

-- w = append(w, c), and the last `n` of it where there are more.
abbrev pub last_n : ℕ → List Cycle → List Cycle
last_n n w = if ltb n (length w) then drop (length w - n) w else w

abbrev or_empty : Option (List Cycle) → List Cycle
or_empty none = []
or_empty (some w) = w

-- The switch on the run `run` of the window.
unfoldable pub classify_short : Config → Handler → CycleRow → Cycle → ℕ → Handler × List Detection
classify_short cfg h r c run =
    let dev = r.device_id in
    if leb short_cycle_min_count run
    then (let h' = record h { healthy = set_cond h.healthy dev short_cycling 0 } in
        if h.active dev short_cycling then (h', []) else (
          record h' { active = set_cond h.active dev short_cycling true },
          record {
            device = dev;
            code = short_cycling;
            action = raise;
            at = ended_at c;
            fcnt = r.f_cnt;
          }
              ∷ [],
        ))
    else if run == 1 && h.active dev short_cycling
    then (let n = h.healthy dev short_cycling + 1 in
        let h' = record h { healthy = set_cond h.healthy dev short_cycling n } in
        if leb cfg.healthy_cycles_to_clear n
        then (
          record h' { active = set_cond h.active dev short_cycling false },
          record {
            device = dev;
            code = short_cycling;
            action = clear;
            at = ended_at c;
            fcnt = r.f_cnt;
          }
              ∷ [],
        )
        else (h', []))
    else (record h { healthy = set_cond h.healthy dev short_cycling 0 }, [])

-- The part on short cycling: the cycle joins the window of its pump.
unfoldable pub classify_window : Config → Handler → CycleRow → Cycle → Handler × List Detection
classify_window cfg h r c =
    let w = last_n cfg.window (or_empty (h.windows r.device_id c.pump) ++ c ∷ []) in
    classify_short cfg (record h { windows = set_window h.windows r.device_id c.pump (some w) }) r c
      (short_cycling_run w)

-- classify behind its seeding.
unfoldable pub classify_seeded : Config → Handler → CycleRow → Cycle → Handler × List Detection
classify_seeded cfg h r c =
    let (h1, dry) = classify_dry cfg h r c in
    let (h2, short) = classify_window cfg h1 r c in (h2, dry ++ (classify_continuous r c ++ short))

module _ {E : Type 0} (list_cycles_before : String → ℕ → ℕ → Result E (List CycleRow)) where
  unfoldable pub classify : Config → Handler → CycleRow → Result E (Handler × List Detection)
  unfolding seed_from
  classify cfg h r =
      let c = to_cycle r in
      elim (h.windows r.device_id c.pump) [
        | some w ↦ ok (classify_seeded cfg h r c)
        | none ↦ list_cycles_before r.device_id r.started_at cfg.window >>= λ prev.
            ok (classify_seeded cfg (seed_from h r.device_id c.pump prev) r c)
      ]

-- One row of the storm_summaries stage.
unfoldable pub classify_summary : Config → Handler → SummaryRow → Handler × List Detection
classify_summary cfg h r =
    let dev = r.device_id in
    if summary_short_cycling r.cycle_count r.window_s
    then (let h' = record h { healthy = set_cond h.healthy dev short_cycling 0 } in
        if h.active dev short_cycling then (h', []) else (
          record h' { active = set_cond h.active dev short_cycling true },
          record {
            device = dev;
            code = short_cycling;
            action = raise;
            at = r.window_end;
            fcnt = r.f_cnt;
          }
              ∷ [],
        ))
    else if h.active dev short_cycling
    then (let n = h.healthy dev short_cycling + 1 in
        let h' = record h { healthy = set_cond h.healthy dev short_cycling n } in
        if leb cfg.healthy_cycles_to_clear n
        then (
          record h' { active = set_cond h.active dev short_cycling false },
          record {
            device = dev;
            code = short_cycling;
            action = clear;
            at = r.window_end;
            fcnt = r.f_cnt;
          }
              ∷ [],
        )
        else (h', []))
    else (h, [])

module _ {E : Type 0} (list_cycles_before : String → ℕ → ℕ → Result E (List CycleRow)) where
  -- The loops of Handle over the cycles of a device: classify each, and collect the detections.
  unfoldable pub classify_all :
      Config → Handler → List CycleRow → Result E (Handler × List Detection)
  classify_all cfg h [] = ok (h, [])
  classify_all cfg h (r ∷ rs) = classify list_cycles_before cfg h r >>= λ (h1, d).
      classify_all cfg h1 rs >>= λ (h2, ds). ok (h2, d ++ ds)

-- The loop of the storm_summaries stage.
unfoldable pub classify_summaries : Config → Handler → List SummaryRow → Handler × List Detection
classify_summaries cfg h [] = (h, [])
classify_summaries cfg h (r ∷ rs) =
    let (h1, d) = classify_summary cfg h r in
    let (h2, ds) = classify_summaries cfg h1 rs in (h2, d ++ ds)
