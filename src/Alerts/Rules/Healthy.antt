-- ===== src/Alerts/Rules/Healthy.antt =====
-- A heartbeat with nothing to report ends the episodes of its device.
use sumpnet.Prelude.{
  ℕ, ◌≡◌, ◌≢◌, ◌≤◌, ◌<◌, ◌⊎◌, refl, ap, sym, subst, ◌∙◌, String, Bool, true, false, List, [], ◌∷◌,
  Option, none, some, arith, Bool-cases, inl, inr, if◌then◌else◌,
}
use sumpnet.Prelude.Maps.{update, str_eq_refl}
use sumpnet.Prelude.Result.{ok, ◌>>=◌}
use sumpnet.AlertCode.{
  AlertCode, float_high, mains_lost, dry_run, continuous_run, sensor_fault, short_cycling,
  outage_risk, low_battery, offline, code_eq, code_eq_iff, severity,
}
use sumpnet.Alerts.Table.{
  Alert, get_open_alert, find_where, is_none, is_open_for, matches, resolvable, resolved,
  resolve_open_alert,
}
use sumpnet.Alerts.Table.Invariant.{IsConsistent}
use sumpnet.Alerts.Table.Frame.{rows_of, rows_of-update}
use sumpnet.Alerts.Engine.Isolation.{resolvable-Selects}
use sumpnet.Alerts.Engine.{Config, State, Clock, resolve, notify_resolve}
use sumpnet.Alerts.Engine.Resolution.{resolve-Resolution, closed, stale, absent}
use sumpnet.Alerts.Rules.{
  Queries, Reading, Handler, resolve_alert, flag, battery, routine, mains_back, mains_gone,
  handle_reading,
}

-- The only open alert of the device and code, if there is one, was raised after `at`.
abbrev pub QuietBy : ℕ → String → AlertCode → State → Type 0
QuietBy at dev code s = (o : Alert) → get_open_alert s.table dev code ≡ some o → at < o.raised_at

-- GetOpenAlert reads the rows of its device and code only.
open_of_rows :
    (dev : String) (code : AlertCode) (rows : List Alert)
    → find_where (is_open_for dev code) rows
      ≡ find_where (is_open_for dev code) (rows_of dev code rows)
unfolding find_where
open_of_rows dev code [] = refl
open_of_rows dev code (a ∷ rows) = elim (Bool-cases (matches dev code a)) [
  | inl m ↦ elim (Bool-cases (is_none a.resolved_at)) [
    | inl o ↦ rw (m, find_where) (rw (m, o) refl)
    | inr o ↦ rw (m, find_where) (rw (m, o) (open_of_rows dev code rows))
  ]
  | inr m ↦ rw m (open_of_rows dev code rows)
]

-- The alert, if there is one, was raised after `at`.
abbrev pub OpenedAfter : ℕ → Option Alert → Type 0
OpenedAfter at none = Unit
OpenedAfter at (some o) = at < o.raised_at

opened_after :
    (at : ℕ) (x : Option Alert) → ((o : Alert) → x ≡ some o → at < o.raised_at) → OpenedAfter at x
opened_after at none h = tt
opened_after at (some o) h = h o refl

module _ {E : Type 0} (q : Queries E) (cfg : Config) (clock : Clock) where
  resolve-QuietBy :
      (s : State) (dev : String) (code : AlertCode) (at : ℕ) (reason : String)
      → IsConsistent s.table
      → QuietBy at dev code (resolve_alert q cfg clock s dev code at reason)
  unfolding resolve_alert
  resolve-QuietBy s dev code at reason c o h =
      elim (resolve-Resolution cfg clock s dev code at reason c).1 [
        | closed a x y z w ↦ let no : none ≡ some o = sym z ∙ h in cc
        | stale a x y z w ↦
            let same : a ≡ o = cc (sym x ∙ ap (λ t. get_open_alert t dev code) (sym z) ∙ h) in
            subst (λ (b : Alert). at < b.raised_at) same y
        | absent x y z ↦
            let no : none ≡ some o = sym x ∙ ap (λ t. get_open_alert t dev code) (sym y) ∙ h in cc
      ]

  resolve-keeps_quiet :
      (s : State) (dev : String) (code k : AlertCode) (at : ℕ) (reason : String)
      → k ≢ code
      → QuietBy at dev code s
      → QuietBy at dev code (resolve_alert q cfg clock s dev k at reason)
  unfolding resolve_alert resolve resolve_open_alert get_open_alert
  resolve-keeps_quiet s dev code k at reason ne quiet o h = quiet o (
      open_of_rows dev code s.table.rows
      ∙ ap (find_where (is_open_for dev code)) (
          sym (
            rows_of-update dev dev k code (ground (arith, code_eq_iff k code)) (resolvable dev k at)
              (resolved at reason (notify_resolve cfg (severity k)) clock.db_now) (λ a. refl)
              s.table.rows (resolvable-Selects dev k at s.table.rows)))
      ∙ sym (open_of_rows dev code _)
      ∙ h)

  -- The codes that heartbeats raise, and silence.
  abbrev pub is_heartbeat_code : AlertCode → Bool
  is_heartbeat_code AlertCode.unspecified = false
  is_heartbeat_code float_high = true
  is_heartbeat_code mains_lost = true
  is_heartbeat_code dry_run = false
  is_heartbeat_code continuous_run = false
  is_heartbeat_code sensor_fault = true
  is_heartbeat_code short_cycling = false
  is_heartbeat_code outage_risk = true
  is_heartbeat_code low_battery = true
  is_heartbeat_code offline = true

  which :
      (k : AlertCode)
      → is_heartbeat_code k ≡ true
      → (k ≡ offline)
        ⊎ (k ≡ float_high)
        ⊎ (k ≡ sensor_fault)
        ⊎ (k ≡ low_battery)
        ⊎ (k ≡ mains_lost)
        ⊎ (k ≡ outage_risk)
  which k e = ground arith

  -- A heartbeat with the float low, no sensor fault, the mains on and a battery that has recovered.
  pub record IsHealthy (r : Reading) : Type 0 where
    pub float_low : r.float_high ≡ false
    pub sensor_ok : r.sensor_fault ≡ false
    pub mains_on : r.mains_ok ≡ true
    pub mv : ℕ
    pub battery_known : r.batt_mv ≡ some mv
    pub battery_up : cfg.low_battery_mv ≤ mv
    pub battery_clear : cfg.low_battery_clear_mv ≤ mv

  module _ (r : Reading) where
    abbrev ended : State → AlertCode → String → State
    ended s code reason = resolve_alert q cfg clock s r.device_id code r.ts reason

    abbrev after_routine : State → State
    after_routine s =
        ended
          (ended (ended (ended s offline "device reporting") float_high "float low") sensor_fault
            "sensor ok")
          low_battery "battery recovered"

    abbrev after_healthy : State → State
    after_healthy s = ended (ended (after_routine s) mains_lost "mains_ok") outage_risk "mains_ok"

    healthy_routine : (s : State) → IsHealthy r → routine q cfg clock s r ≡ ok (after_routine s)
    unfolding routine flag battery
    healthy_routine s ok_r =
        rw (ok_r.float_low, ok_r.sensor_ok, ok_r.battery_known)
          (ground (arith, ok_r.battery_up, ok_r.battery_clear))

    healthy_handle :
        (h : Handler)
        → IsHealthy r
        → handle_reading q cfg clock h r
          ≡ ok (record {
            engine = after_healthy h.engine;
            levels = update h.levels r.device_id none;
          })
    unfolding handle_reading mains_back
    healthy_handle h ok_r =
        ap
          (λ x. x >>= λ s.
            if r.mains_ok then ok (mains_back q cfg clock h r s) else mains_gone q cfg clock h r s)
          (healthy_routine h.engine ok_r)
        ∙ ap
            (λ b.
              if b
              then ok (mains_back q cfg clock h r (after_routine h.engine))
              else mains_gone q cfg clock h r (after_routine h.engine))
            ok_r.mains_on

    ended-IsConsistent :
        (s : State) (code : AlertCode) (reason : String)
        → IsConsistent s.table
        → IsConsistent (ended s code reason).table
    unfolding resolve_alert
    ended-IsConsistent s code reason c =
        (resolve-Resolution cfg clock s r.device_id code r.ts reason c).0

    -- One more resolve: its own code becomes quiet, and the codes that were quiet stay so.
    ended-quiet :
        (s : State) (code k : AlertCode) (reason : String)
        → IsConsistent s.table
        → (k ≡ code) ⊎ QuietBy r.ts r.device_id k s
        → QuietBy r.ts r.device_id k (ended s code reason)
    ended-quiet s code k reason c (inl same) =
        subst (λ x. QuietBy r.ts r.device_id x (ended s code reason)) (sym same)
          (resolve-QuietBy s r.device_id code r.ts reason c)
    ended-quiet s code k reason c (inr quiet) = elim (Bool-cases (code_eq k code)) [
      | inl e ↦
          subst (λ x. QuietBy r.ts r.device_id x (ended s code reason))
            (sym ((code_eq_iff k code).0 e)) (resolve-QuietBy s r.device_id code r.ts reason c)
      | inr e ↦
          resolve-keeps_quiet s r.device_id k code r.ts reason
            (λ same. let t = (code_eq_iff k code).1 (sym same) in ground arith) quiet
    ]

    healthy_quiet :
        (s : State) (k : AlertCode)
        → IsConsistent s.table
        → is_heartbeat_code k ≡ true
        → QuietBy r.ts r.device_id k (after_healthy s)
    healthy_quiet s k c e =
        let s1 = ended s offline "device reporting" in
        let c1 = ended-IsConsistent s offline "device reporting" c in
        let s2 = ended s1 float_high "float low" in
        let c2 = ended-IsConsistent s1 float_high "float low" c1 in
        let s3 = ended s2 sensor_fault "sensor ok" in
        let c3 = ended-IsConsistent s2 sensor_fault "sensor ok" c2 in
        let s4 = ended s3 low_battery "battery recovered" in
        let c4 = ended-IsConsistent s3 low_battery "battery recovered" c3 in
        let s5 = ended s4 mains_lost "mains_ok" in
        let c5 = ended-IsConsistent s4 mains_lost "mains_ok" c4 in
        let q6 = ended-quiet s5 outage_risk k "mains_ok" c5 in
        let q5 = ended-quiet s4 mains_lost k "mains_ok" c4 in
        let q4 = ended-quiet s3 low_battery k "battery recovered" c3 in
        let q3 = ended-quiet s2 sensor_fault k "sensor ok" c2 in
        let q2 = ended-quiet s1 float_high k "float low" c1 in
        let q1 = ended-quiet s offline k "device reporting" c in
        elim (which k e) [
          | inl x ↦ q6 (inr (q5 (inr (q4 (inr (q3 (inr (q2 (inr (q1 (inl x)))))))))))
          | inr (inl x) ↦ q6 (inr (q5 (inr (q4 (inr (q3 (inr (q2 (inl x)))))))))
          | inr (inr (inl x)) ↦ q6 (inr (q5 (inr (q4 (inr (q3 (inl x)))))))
          | inr (inr (inr (inl x))) ↦ q6 (inr (q5 (inr (q4 (inl x)))))
          | inr (inr (inr (inr (inl x)))) ↦ q6 (inr (q5 (inl x)))
          | inr (inr (inr (inr (inr x)))) ↦ q6 (inl x)
        ]

  -- A healthy heartbeat is handled without an error: the samples of its device are dropped, and
  -- afterwards the open alert of the device under any code that heartbeats raise, or under
  -- OFFLINE, if there is one, was raised after the heartbeat's time.
  pub healthy_heartbeat_ends :
      (h : Handler) (r : Reading) (k : AlertCode)
      → IsConsistent h.engine.table
      → IsHealthy r
      → is_heartbeat_code k ≡ true
      → (h' : Handler) × (handle_reading q cfg clock h r ≡ ok h')
        × (h'.levels r.device_id ≡ none)
        × OpenedAfter r.ts (get_open_alert h'.engine.table r.device_id k)
  healthy_heartbeat_ends h r k c ok_r e = (
    record { engine = after_healthy r h.engine; levels = update h.levels r.device_id none },
    healthy_handle r h ok_r,
    rw (str_eq_refl r.device_id) refl,
    opened_after r.ts _ (healthy_quiet r h.engine k c e),
  )
