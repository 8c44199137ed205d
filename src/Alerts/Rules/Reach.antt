-- ===== src/Alerts/Rules/Reach.antt =====
-- Every state that the alerts service reaches: handler runs, sweeps, acknowledgements and
-- notification marks, in any order.
use sumpnet.Prelude.{ℕ, ◌≡◌, subst, inl, inr, String, List, Option}
use sumpnet.Prelude.Result.{ok, Result-cases}
use sumpnet.AlertCode.{AlertCode}
use sumpnet.Alerts.Table.{
  NotifyState, acknowledge_alert, mark_raise_notification, mark_resolve_notification,
}
use sumpnet.Alerts.Table.Invariant.{
  IsConsistent, acknowledge-IsConsistent, mark_raise-IsConsistent, mark_resolve-IsConsistent,
}
use sumpnet.Alerts.Engine.{Config, State, Clock, raise}
use sumpnet.Alerts.Engine.Lifecycle.{raise_opens}
use sumpnet.Alerts.Engine.Resolution.{resolve-Resolution}
use sumpnet.Alerts.Rules.{
  Queries, AlarmEvent, Reading, DetectionRow, LevelSample, Handler, raise_alert, resolve_alert,
  handle_alarms, handle_readings, handle_detections, sweep_offline,
}
use sumpnet.Alerts.Rules.Steps.{
  Keeps, handle_alarms-keeps, handle_readings-keeps, handle_detections-keeps, sweep_offline-keeps,
}

-- One transaction of the service that commits, at some time of the clock.
pub data Step {E : Type 0} (q : Queries E) (cfg : Config) (s s' : State) : Type 0 where
  alarms :
      (clock : Clock) (rows : List AlarmEvent)
      → handle_alarms q cfg clock s rows ≡ ok s'
      → Step q cfg s s'
  readings :
      (clock : Clock) (rows : List Reading) (levels : String → Option (List LevelSample))
      (h' : Handler)
      → handle_readings q cfg clock (record { engine = s; levels = levels }) rows ≡ ok h'
      → h'.engine ≡ s'
      → Step q cfg s s'
  detections :
      (clock : Clock) (rows : List DetectionRow)
      → handle_detections q cfg clock s rows ≡ ok s'
      → Step q cfg s s'
  sweep : (clock : Clock) → sweep_offline q cfg clock s ≡ ok s' → Step q cfg s s'
  acknowledge :
      (id at now : ℕ) (text : Option String)
      → record s { table = acknowledge_alert s.table id at text now } ≡ s'
      → Step q cfg s s'
  mark_raise :
      (id now : ℕ) (state : NotifyState)
      → record s { table = mark_raise_notification s.table id state now } ≡ s'
      → Step q cfg s s'
  mark_resolve :
      (id now : ℕ) (state : NotifyState)
      → record s { table = mark_resolve_notification s.table id state now } ≡ s'
      → Step q cfg s s'

pub data Reaches {E : Type 0} (q : Queries E) (cfg : Config) (s : State) : State → Type 0 where
  here : Reaches q cfg s s
  there : (s1 s2 : State) → Reaches q cfg s s1 → Step q cfg s1 s2 → Reaches q cfg s s2

abbrev pub Anything : String → AlertCode → Type 0
Anything dev code = Unit

abbrev pub Consistent : State → Type 0
Consistent s = IsConsistent s.table

module _ {E : Type 0} (q : Queries E) (cfg : Config) where
  pub keeps_Consistent : (clock : Clock) → Keeps q cfg clock Anything Consistent
  unfolding raise_alert resolve_alert
  keeps_Consistent clock = record {
    by_raise = λ s s' dev code at source key msg a p e.
        elim (Result-cases (raise q.device_home cfg clock s dev code at source key msg)) [
          | inr (x, g) ↦ let e1 = rw (g, raise_alert) at e in cc
          | inl ((s1, created), g) ↦
              let e1 = rw (g, raise_alert) at e in
              let same : s1 ≡ s' = cc in
              subst Consistent same
                (raise_opens q.device_home cfg clock s s1 dev code at source key msg created p g).0
        ];
    by_resolve =
        λ s dev code at reason a p. (resolve-Resolution cfg clock s dev code at reason p).0;
  }

  Step-IsConsistent : (s s' : State) → Consistent s → Step q cfg s s' → Consistent s'
  Step-IsConsistent s s' p (alarms clock rows e) =
      handle_alarms-keeps q cfg clock Anything Consistent (keeps_Consistent clock) s s' rows
        (λ d c. tt) p e
  Step-IsConsistent s s' p (readings clock rows levels h' e same) = subst Consistent same (
      handle_readings-keeps q cfg clock Anything Consistent (keeps_Consistent clock) _ h' rows
        (λ d c. tt) p e)
  Step-IsConsistent s s' p (detections clock rows e) =
      handle_detections-keeps q cfg clock Anything Consistent (keeps_Consistent clock) s s' rows
        (λ d c. tt) p e
  Step-IsConsistent s s' p (sweep clock e) =
      sweep_offline-keeps q cfg clock Anything Consistent (keeps_Consistent clock) s s' (λ d c. tt)
        p e
  Step-IsConsistent s s' p (acknowledge id at now text same) =
      subst Consistent same (acknowledge-IsConsistent s.table id at text now p)
  Step-IsConsistent s s' p (mark_raise id now state same) =
      subst Consistent same (mark_raise-IsConsistent s.table id state now p)
  Step-IsConsistent s s' p (mark_resolve id now state same) =
      subst Consistent same (mark_resolve-IsConsistent s.table id state now p)

  -- Every state that committed transactions of the service reach from a consistent state is
  -- consistent: at most one alert of a device and a code is open, ids are unique and below the
  -- counter, and every row is sound.
  pub reached-IsConsistent :
      (s s' : State) → IsConsistent s.table → Reaches q cfg s s' → IsConsistent s'.table
  reached-IsConsistent s s' p here = p
  reached-IsConsistent s s' p (there s1 s2 run step) =
      Step-IsConsistent s1 s' (reached-IsConsistent s s1 p run) step
