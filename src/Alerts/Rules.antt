-- ===== src/Alerts/Rules.antt =====
-- internal/alerts/rules.go: the handlers of node alarms, heartbeats and detections, and the sweep for
-- silent devices. The queries ListReadingsBefore, RainNear, ListStaleDevices and GetDevicePitArea are
-- fields of an argument; the clock does not move during a call. Rainfall is a number of some unit, of which only
-- the sign counts.
pub mod Inputs
pub mod Samples
pub mod Steps
pub mod Reach
pub mod Outage
pub mod Healthy
mod Tests
pub use Inputs.*
use sumpnet.Prelude.{
  ℕ, ◌+◌, ◌-◌, String, Bool, true, false, not, ◌&&◌, ◌||◌, List, [], ◌∷◌, ◌++◌, Option, none, some,
  ltb, leb, ◌==◌, if◌then◌else◌, map,
}
use sumpnet.Prelude.Maps.{update}
use sumpnet.Prelude.Result.{Result, ok, err, ◌>>=◌}
use sumpnet.AlertCode.{
  AlertCode, float_high, mains_lost, dry_run, continuous_run, sensor_fault, short_cycling,
  outage_risk, low_battery, offline,
}
use sumpnet.Hydrology.{level_rising}
use sumpnet.Detector.{Action, clear}
use sumpnet.Alerts.Table.{
  Source, Message, TriggerKey, row_key, sweep_key, node_alarm, float_active, battery_at, detected,
  no_uplink_since,
}
use sumpnet.Alerts.Engine.{
  Config, State, Clock, Error, HomeRow, raise, resolve, seed_levels_failed, rain_near_failed,
  stale_devices_failed,
}

-- The keys of alarmMessages.
abbrev pub has_alarm_message : AlertCode → Bool
has_alarm_message float_high = true
has_alarm_message mains_lost = true
has_alarm_message dry_run = true
has_alarm_message continuous_run = true
has_alarm_message sensor_fault = true
has_alarm_message AlertCode.unspecified = false
has_alarm_message short_cycling = false
has_alarm_message outage_risk = false
has_alarm_message low_battery = false
has_alarm_message offline = false

-- rainCheck.holds
unfoldable pub holds : RainCheck → Bool
holds c = ltb 0 c.mm || not c.covered

abbrev pub rain_text : RainCheck → Option ℕ
rain_text c = if c.covered then some c.mm else none

abbrev pub lift : {E A B : Type 0} → (E → B) → Result E A → Result B A
lift f (ok a) = ok a
lift f (err e) = err (f e)

-- The samples of the seed, oldest first: of the readings before, newest first, those without mains.
unfoldable pub seed_samples : List Reading → List LevelSample
seed_samples [] = []
seed_samples (r ∷ rs) =
    let rest = seed_samples rs in
    if r.mains_ok then rest else rest ++ record { ts = r.ts; dist = r.level_mm } ∷ []

-- s[len(s)-3:] where there are more than three.
unfoldable pub last_three : List LevelSample → List LevelSample
last_three [] = []
last_three (a ∷ []) = a ∷ []
last_three (a ∷ b ∷ []) = a ∷ b ∷ []
last_three (a ∷ b ∷ c ∷ []) = a ∷ b ∷ c ∷ []
last_three (a ∷ b ∷ c ∷ d ∷ rest) = last_three (b ∷ c ∷ d ∷ rest)

-- The test that the level falls: each of the last two distances is above the one before it.
abbrev pub receding : LevelSample → LevelSample → LevelSample → Bool
receding a b c = ltb b.dist c.dist && ltb a.dist b.dist

module _ {E : Type 0} (q : Queries E) (cfg : Config) (clock : Clock) where
  -- A call of Raise whose first result is ignored.
  unfoldable pub raise_alert :
      State → String → AlertCode → ℕ → Source → TriggerKey → Message → Result (Error E) State
  raise_alert s dev code at source key msg =
      raise q.device_home cfg clock s dev code at source key msg >>= λ (s1, created). ok s1

  unfoldable pub resolve_alert : State → String → AlertCode → ℕ → String → State
  resolve_alert s dev code at reason = (resolve cfg clock s dev code at reason).0

  -- alarmHandler.Handle
  unfoldable pub handle_alarms : State → List AlarmEvent → Result (Error E) State
  handle_alarms s [] = ok s
  handle_alarms s (a ∷ rows) =
      (if has_alarm_message a.code
        then raise_alert s a.device_id a.code a.raised_at Source.node
            (row_key "alarm_events" a.device_id a.raised_at a.f_cnt) (node_alarm a.code a.value)
        else ok s)
      >>= λ s1. handle_alarms s1 rows

  -- readingHandler.samples: the last three samples of the device, this reading's included.
  unfoldable pub samples : Handler → Reading → Result (Error E) (List LevelSample)
  samples h r =
      elim (h.levels r.device_id) [
        | some s ↦ ok s
        | none ↦ lift seed_levels_failed (q.readings_before r.device_id r.ts) >>= λ prev.
            ok (seed_samples prev)
      ]
      >>= λ s. ok (last_three (s ++ record { ts = r.ts; dist = r.level_mm } ∷ []))

  -- rainTerm
  unfoldable pub rain_term : ℕ → Result (Error E) RainCheck
  rain_term at = lift rain_near_failed (q.rain_near at) >>= λ row.
      ok (record { mm = row.mm; covered = leb at (row.covered_until + cfg.rain_coverage_slack) })

  -- Raise or Resolve, by a flag of the heartbeat.
  unfoldable pub flag :
      State → Reading → AlertCode → Bool → Message → String → Result (Error E) State
  flag s r code active msg reason =
      if active
      then raise_alert s r.device_id code r.ts Source.heartbeat
          (row_key "readings" r.device_id r.ts r.f_cnt) msg
      else ok (resolve_alert s r.device_id code r.ts reason)

  unfoldable pub battery : State → Reading → Result (Error E) State
  battery s r = elim r.batt_mv [
    | none ↦ ok s
    | some mv ↦
        if ltb mv cfg.low_battery_mv
        then flag s r low_battery true (battery_at mv) ""
        else (if leb cfg.low_battery_clear_mv mv
            then flag s r low_battery false (battery_at mv) "battery recovered"
            else ok s)
  ]

  -- The outage rule, for the samples that the reading completed.
  unfoldable pub watch_level : State → Reading → List LevelSample → Result (Error E) State
  watch_level s r (a ∷ b ∷ c ∷ []) =
      if leb c.ts (a.ts + cfg.rise_window)
      then (if level_rising (a.dist ∷ b.dist ∷ c.dist ∷ []) cfg.rise_min_mm
          then (rain_term r.ts >>= λ rain.
              if holds rain
              then flag s r outage_risk true
                  (Message.outage_risk (a.dist - c.dist) 3 (rain_text rain)) ""
              else ok s)
          else (if receding a b c
              then flag s r outage_risk false Message.mains_lost "level falling"
              else ok s))
      else ok s
  watch_level s r [] = ok s
  watch_level s r (a ∷ []) = ok s
  watch_level s r (a ∷ b ∷ []) = ok s
  watch_level s r (a ∷ b ∷ c ∷ d ∷ rest) = ok s

  -- The rules of a heartbeat that do not look at the mains.
  unfoldable pub routine : State → Reading → Result (Error E) State
  routine s r =
      flag (resolve_alert s r.device_id offline r.ts "device reporting") r float_high r.float_high
        (float_active r.level_mm) "float low"
      >>= λ s1. flag s1 r sensor_fault r.sensor_fault Message.sensor_fault "sensor ok" >>= λ s2.
          battery s2 r

  -- The mains are on: both episodes end, and the samples are dropped.
  unfoldable pub mains_back : Handler → Reading → State → Handler
  mains_back h r s = record {
    engine =
        resolve_alert (resolve_alert s r.device_id mains_lost r.ts "mains_ok") r.device_id
          outage_risk r.ts "mains_ok";
    levels = update h.levels r.device_id none;
  }

  -- The mains are off: MAINS_LOST, then the outage rule.
  unfoldable pub mains_gone : Handler → Reading → State → Result (Error E) Handler
  mains_gone h r s = flag s r mains_lost true Message.mains_lost "" >>= λ s1.
      samples h r >>= λ last. watch_level s1 r last >>= λ s2.
      ok (record { engine = s2; levels = update h.levels r.device_id (some last) })

  -- The body of readingHandler.Handle's loop.
  unfoldable pub handle_reading : Handler → Reading → Result (Error E) Handler
  handle_reading h r =
      routine h.engine r >>= λ s. if r.mains_ok then ok (mains_back h r s) else mains_gone h r s

  unfoldable pub handle_readings : Handler → List Reading → Result (Error E) Handler
  handle_readings h [] = ok h
  handle_readings h (r ∷ rows) = handle_reading h r >>= λ h1. handle_readings h1 rows

  -- detectionHandler.Handle; every action is raise or clear.
  unfoldable pub handle_detections : State → List DetectionRow → Result (Error E) State
  handle_detections s [] = ok s
  handle_detections s (d ∷ rows) =
      elim d.action [
        | Action.raise ↦
            raise_alert s d.device_id d.code d.observed_at Source.detector
              (row_key "detections" d.device_id d.observed_at d.f_cnt) (detected d.code)
        | clear ↦ ok (resolve_alert s d.device_id d.code d.observed_at "detector clear")
      ]
      >>= λ s1. handle_detections s1 rows

  unfoldable pub raise_stale : State → List StaleDevice → Result (Error E) State
  raise_stale s [] = ok s
  raise_stale s (d ∷ rows) =
      raise_alert s d.dev_eui offline clock.now Source.sweep (sweep_key d.dev_eui clock.now)
        (no_uplink_since d.last_seen_at)
      >>= λ s1. raise_stale s1 rows

  -- SweepOffline; no sweep where OfflineAfter is 0.
  unfoldable pub sweep_offline : State → Result (Error E) State
  sweep_offline s =
      if cfg.offline_after == 0
      then ok s
      else (lift stale_devices_failed (q.stale_devices cfg.offline_after) >>= λ stale.
          raise_stale s stale)
