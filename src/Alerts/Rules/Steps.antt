-- ===== src/Alerts/Rules/Steps.antt =====
-- The handlers change the state by Raise and Resolve only: a property of the state that these two
-- keep is kept by the handlers.
use sumpnet.Prelude.{
  ℕ, ◌+◌, ◌≡◌, ◌≢◌, ◌⊎◌, refl, ap, subst, String, Bool, true, false, List, [], ◌∷◌, none,
  Bool-cases, if-cases, Option-cases, inl, inr, ◌==◌, ltb, leb,
}
use sumpnet.Prelude.Result.{Result, ok, err, ◌>>=◌, bind-ok, Result-cases}
use sumpnet.AlertCode.{
  AlertCode, float_high, mains_lost, sensor_fault, outage_risk, low_battery, offline,
}
use sumpnet.Hydrology.{level_rising}
use sumpnet.Detector.{Action, clear}
use sumpnet.Alerts.Table.{Source, Message, TriggerKey, float_active}
use sumpnet.Alerts.Engine.{Config, State, Clock}
use sumpnet.Alerts.Rules.{
  Queries, AlarmEvent, Reading, DetectionRow, LevelSample, Handler, StaleDevice, has_alarm_message,
  raise_alert, resolve_alert, handle_alarms, flag, battery, watch_level, rain_term, samples,
  routine, mains_back, mains_gone, handle_reading, handle_readings, handle_detections, raise_stale,
  sweep_offline, holds, receding,
}

pub unchanged : {E : Type 0} → (s s' : State) → ◌≡◌ {A = Result E State} (ok s) (ok s') → s ≡ s'
unchanged s s' e = cc

action_cases : (a : Action) → (a ≡ Action.raise) ⊎ (a ≡ clear)
action_cases Action.raise = inl refl
action_cases clear = inr refl

abbrev pub engine_of : {E : Type 0} → Result E Handler → State
engine_of (ok h) = h.engine
engine_of (err e) = record { homes = λ d. none; table = record { rows = []; next_id = 0 } }

module _ {E : Type 0} (q : Queries E) (cfg : Config) (clock : Clock) where
  -- Raise and Resolve keep `P`, for the devices and codes of `A`.
  pub record Keeps (A : String → AlertCode → Type 0) (P : State → Type 0) : Type 0 where
    pub by_raise :
        (s s' : State) (dev : String) (code : AlertCode) (at : ℕ) (source : Source)
        (key : TriggerKey) (msg : Message)
        → A dev code
        → P s
        → raise_alert q cfg clock s dev code at source key msg ≡ ok s'
        → P s'
    pub by_resolve :
        (s : State) (dev : String) (code : AlertCode) (at : ℕ) (reason : String)
        → A dev code
        → P s
        → P (resolve_alert q cfg clock s dev code at reason)

  module _ (A : String → AlertCode → Type 0) (P : State → Type 0) (k : Keeps A P) where
    pub flag-keeps :
        (s s' : State) (r : Reading) (code : AlertCode) (active : Bool) (msg : Message)
        (reason : String)
        → A r.device_id code
        → P s
        → flag q cfg clock s r code active msg reason ≡ ok s'
        → P s'
    unfolding flag
    flag-keeps s s' r code true msg reason a p e = k.by_raise s s' _ code _ _ _ msg a p e
    flag-keeps s s' r code false msg reason a p e =
        let same : resolve_alert q cfg clock s r.device_id code r.ts reason ≡ s' = cc in
        subst P same (k.by_resolve s r.device_id code r.ts reason a p)

    battery-keeps :
        (s s' : State) (r : Reading)
        → A r.device_id low_battery
        → P s
        → battery q cfg clock s r ≡ ok s'
        → P s'
    unfolding battery
    battery-keeps s s' r a p e = elim (Option-cases r.batt_mv) [
      | inl h ↦ subst P (cc (rw (h, battery) at e)) p
      | inr (mv, h) ↦
          let e1 = rw (h, battery) at e in
          elim (Bool-cases (ltb mv cfg.low_battery_mv)) [
            | inl lo ↦ flag-keeps s s' r low_battery true _ _ a p (rw lo at e1)
            | inr lo ↦
                let e2 = rw lo at e1 in
                elim (Bool-cases (leb cfg.low_battery_clear_mv mv)) [
                  | inl hi ↦ flag-keeps s s' r low_battery false _ _ a p (rw hi at e2)
                  | inr hi ↦ subst P (cc (rw hi at e2)) p
                ]
          ]
    ]

    pub routine-keeps :
        (s s' : State) (r : Reading)
        → ((code : AlertCode) → code ≢ outage_risk → A r.device_id code)
        → P s
        → routine q cfg clock s r ≡ ok s'
        → P s'
    unfolding routine
    routine-keeps s s' r a p e =
        let (s1, e1, f1) =
          bind-ok
            (flag q cfg clock
              (resolve_alert q cfg clock s r.device_id offline r.ts "device reporting") r float_high
              r.float_high (float_active r.level_mm) "float low")
            (λ u.
              flag q cfg clock u r sensor_fault r.sensor_fault Message.sensor_fault "sensor ok"
              >>= λ v. battery q cfg clock v r)
            s' e in
        let (s2, e2, f2) =
          bind-ok
            (flag q cfg clock s1 r sensor_fault r.sensor_fault Message.sensor_fault "sensor ok")
            (λ v. battery q cfg clock v r) s' f1 in
        battery-keeps s2 s' r (a low_battery (λ x. cc))
          (flag-keeps s1 s2 r sensor_fault _ _ _ (a sensor_fault (λ x. cc))
            (flag-keeps _ s1 r float_high _ _ _ (a float_high (λ x. cc))
              (k.by_resolve s r.device_id offline r.ts _ (a offline (λ x. cc)) p) e1)
            e2)
          f2

    pub watch_level-keeps :
        (s s' : State) (r : Reading) (last : List LevelSample)
        → A r.device_id outage_risk
        → P s
        → watch_level q cfg clock s r last ≡ ok s'
        → P s'
    unfolding watch_level
    watch_level-keeps s s' r [] a p e = subst P (unchanged s s' e) p
    watch_level-keeps s s' r (x ∷ []) a p e = subst P (unchanged s s' e) p
    watch_level-keeps s s' r (x ∷ y ∷ []) a p e = subst P (unchanged s s' e) p
    watch_level-keeps s s' r (x ∷ y ∷ z ∷ w ∷ rest) a p e = subst P (unchanged s s' e) p
    watch_level-keeps s s' r (x ∷ y ∷ z ∷ []) a p e =
        elim (Bool-cases (leb z.ts (x.ts + cfg.rise_window))) [
          | inr late ↦ subst P (unchanged s s' (rw (late, watch_level) at e)) p
          | inl soon ↦
              let e1 = rw (soon, watch_level) at e in
              elim (Bool-cases (level_rising (x.dist ∷ y.dist ∷ z.dist ∷ []) cfg.rise_min_mm)) [
                | inl up ↦ elim (Result-cases (rain_term q cfg clock r.ts)) [
                  | inr (x, g) ↦ let e2 = rw (up, g) at e1 in cc
                  | inl (rain, g) ↦
                      let e2 = rw (up, g) at e1 in
                      elim (Bool-cases (holds rain)) [
                        | inl wet ↦ flag-keeps s s' r outage_risk true _ _ a p (rw wet at e2)
                        | inr dry ↦ subst P (unchanged s s' (rw dry at e2)) p
                      ]
                ]
                | inr up ↦
                    let e2 = rw up at e1 in
                    elim (Bool-cases (receding x y z)) [
                      | inl down ↦ flag-keeps s s' r outage_risk false _ _ a p (rw down at e2)
                      | inr down ↦ subst P (unchanged s s' (rw down at e2)) p
                    ]
              ]
        ]

    mains_gone-keeps :
        (h h' : Handler) (r : Reading) (s : State)
        → ((code : AlertCode) → A r.device_id code)
        → P s
        → mains_gone q cfg clock h r s ≡ ok h'
        → P h'.engine
    unfolding mains_gone
    mains_gone-keeps h h' r s a p e =
        elim (Result-cases (flag q cfg clock s r mains_lost true Message.mains_lost "")) [
          | inr (x, g1) ↦ let e1 = rw (g1, mains_gone) at e in cc
          | inl (s1, g1) ↦
              let e1 = rw (g1, mains_gone) at e in
              elim (Result-cases (samples q cfg clock h r)) [
                | inr (x, g2) ↦ let e2 = rw g2 at e1 in cc
                | inl (last, g2) ↦
                    let e2 = rw g2 at e1 in
                    elim (Result-cases (watch_level q cfg clock s1 r last)) [
                      | inr (x, g3) ↦ let e3 = rw g3 at e2 in cc
                      | inl (s2, g3) ↦ subst P (ap engine_of (rw g3 at e2)) (
                          watch_level-keeps s1 s2 r last (a outage_risk)
                            (flag-keeps s s1 r mains_lost true _ _ (a mains_lost) p g1) g3)
                    ]
              ]
        ]

    pub handle_reading-keeps :
        (h h' : Handler) (r : Reading)
        → ((code : AlertCode) → A r.device_id code)
        → P h.engine
        → handle_reading q cfg clock h r ≡ ok h'
        → P h'.engine
    unfolding handle_reading mains_back
    handle_reading-keeps h h' r a p e = elim (Result-cases (routine q cfg clock h.engine r)) [
      | inr (x, g) ↦ let e1 = rw (g, handle_reading) at e in cc
      | inl (s, g) ↦
          let p1 = routine-keeps h.engine s r (λ c n. a c) p g in
          elim (if-cases r.mains_ok (ok (mains_back q cfg clock h r s))
            (mains_gone q cfg clock h r s) (ok h') (rw (g, handle_reading) at e)) [
              | inl (up, e1) ↦ subst P (ap engine_of e1) (
                  k.by_resolve _ r.device_id outage_risk r.ts _ (a outage_risk)
                    (k.by_resolve s r.device_id mains_lost r.ts _ (a mains_lost) p1))
              | inr (down, e1) ↦ mains_gone-keeps h h' r s a p1 e1
            ]
    ]

    pub handle_readings-keeps :
        (h h' : Handler) (rows : List Reading)
        → ((dev : String) (code : AlertCode) → A dev code)
        → P h.engine
        → handle_readings q cfg clock h rows ≡ ok h'
        → P h'.engine
    unfolding handle_readings
    handle_readings-keeps h h' [] a p e = subst P (ap engine_of e) p
    handle_readings-keeps h h' (r ∷ rows) a p e =
        let (h1, e1, e2) =
          bind-ok (handle_reading q cfg clock h r) (λ x. handle_readings q cfg clock x rows) h' e in
        handle_readings-keeps h1 h' rows a (handle_reading-keeps h h1 r (a r.device_id) p e1) e2

    pub handle_alarms-keeps :
        (s s' : State) (rows : List AlarmEvent)
        → ((dev : String) (code : AlertCode) → A dev code)
        → P s
        → handle_alarms q cfg clock s rows ≡ ok s'
        → P s'
    unfolding handle_alarms
    handle_alarms-keeps s s' [] a p e = subst P (unchanged s s' e) p
    handle_alarms-keeps s s' (r ∷ rows) a p e = elim (Bool-cases (has_alarm_message r.code)) [
      | inr h ↦ handle_alarms-keeps s s' rows a p (rw (h, handle_alarms) at e)
      | inl h ↦
          let (s1, e1, e2) =
            bind-ok _ (λ x. handle_alarms q cfg clock x rows) s' (rw (h, handle_alarms) at e) in
          handle_alarms-keeps s1 s' rows a (k.by_raise s s1 _ _ _ _ _ _ (a r.device_id r.code) p e1)
            e2
    ]

    pub handle_detections-keeps :
        (s s' : State) (rows : List DetectionRow)
        → ((dev : String) (code : AlertCode) → A dev code)
        → P s
        → handle_detections q cfg clock s rows ≡ ok s'
        → P s'
    unfolding handle_detections
    handle_detections-keeps s s' [] a p e = subst P (unchanged s s' e) p
    handle_detections-keeps s s' (d ∷ rows) a p e = elim (action_cases d.action) [
      | inl h ↦
          let (s1, e1, e2) =
            bind-ok _ (λ x. handle_detections q cfg clock x rows) s'
              (rw (h, handle_detections) at e) in
          handle_detections-keeps s1 s' rows a
            (k.by_raise s s1 _ _ _ _ _ _ (a d.device_id d.code) p e1) e2
      | inr h ↦
          handle_detections-keeps _ s' rows a
            (k.by_resolve s d.device_id d.code d.observed_at _ (a d.device_id d.code) p)
            (rw (h, handle_detections) at e)
    ]

    raise_stale-keeps :
        (s s' : State) (rows : List StaleDevice)
        → ((dev : String) (code : AlertCode) → A dev code)
        → P s
        → raise_stale q cfg clock s rows ≡ ok s'
        → P s'
    unfolding raise_stale
    raise_stale-keeps s s' [] a p e = subst P (unchanged s s' e) p
    raise_stale-keeps s s' (d ∷ rows) a p e =
        let (s1, e1, e2) = bind-ok _ (λ x. raise_stale q cfg clock x rows) s' e in
        raise_stale-keeps s1 s' rows a (k.by_raise s s1 _ _ _ _ _ _ (a d.dev_eui offline) p e1) e2

    pub sweep_offline-keeps :
        (s s' : State)
        → ((dev : String) (code : AlertCode) → A dev code)
        → P s
        → sweep_offline q cfg clock s ≡ ok s'
        → P s'
    unfolding sweep_offline
    sweep_offline-keeps s s' a p e = elim (if-cases (cfg.offline_after == 0) _ _ (ok s') e) [
      | inl (off, e1) ↦ subst P (unchanged s s' e1) p
      | inr (on, e1) ↦
          let (rows, e2, e3) = bind-ok _ (λ x. raise_stale q cfg clock s x) s' e1 in
          raise_stale-keeps s s' rows a p e3
    ]
