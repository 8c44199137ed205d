-- ===== src/Alerts/Engine/Notified.antt =====
-- The cooldown: an alert that is raised again soon after its notification was sent stays quiet.
use text.Mathlib.Text.{◌==◌ as str_eq}
use text.Mathlib.TextPositions.{eq_refl}
use sumpnet.Prelude.{
  ℕ, ◌+◌, ◌≡◌, ◌≤◌, ◌<◌, ◌⊎◌, refl, ap, sym, subst, ◌∙◌, String, Bool, true, List, [], ◌∷◌, ◌++◌,
  Option, none, some, arith, ◌==◌, max, Bool-cases, inl, inr,
}
use sumpnet.Prelude.Result.{Result, ok}
use sumpnet.AlertCode.{AlertCode, AlertSeverity, severity, code_eq_iff}
use sumpnet.Alerts.Table.{
  sent, suppressed, Source, TriggerKey, Message, Alert, Table, get_open_alert, InsertParams,
  insert_alert, new_alert, matches, is_open_for, find_where, update_where, later, last_notified,
  last_notified_at, raise_marked, mark_raise_notification, resolvable, resolved, resolve_open_alert,
}
use sumpnet.Alerts.Table.Frame.{find-append}
use sumpnet.Alerts.Engine.{
  Config, State, Clock, HomeRow, initial_state, raise, resolve, notify_resolve,
}
use sumpnet.Alerts.Engine.Outcome.{reobserved, opened, raise-Outcome, inserts}

-- A row of the device and code was notified at `n`.
abbrev pub SentBy : String → AlertCode → ℕ → List Alert → Type 0
SentBy dev code n [] = ⊥
SentBy dev code n (a ∷ rows) =
    ((matches dev code a ≡ true) × (a.notify_state ≡ sent) × (a.notified_at ≡ some n))
    ⊎ SentBy dev code n rows

later_left : (n : ℕ) (o : Option ℕ) → (l : ℕ) × (later (some n) o ≡ some l) × (n ≤ l)
later_left n none = (n, refl, omega arith)
later_left n (some m) = (max n m, refl, omega arith)

later_right :
    (o p : Option ℕ) (n m : ℕ) → p ≡ some m → n ≤ m → (l : ℕ) × (later o p ≡ some l) × (n ≤ l)
later_right none p n m e le = (m, e, le)
later_right (some k) p n m e le = (max k m, rw e, omega arith)

last_notified-ge :
    (dev : String) (code : AlertCode) (n : ℕ) (rows : List Alert)
    → SentBy dev code n rows
    → (l : ℕ) × (last_notified dev code rows ≡ some l) × (n ≤ l)
unfolding last_notified
last_notified-ge dev code n [] s = absurd s
last_notified-ge dev code n (a ∷ rows) (inl (m, st, at)) =
    rw (m, st, at) (later_left n (last_notified dev code rows))
last_notified-ge dev code n (a ∷ rows) (inr s) =
    let (l, e, le) = last_notified-ge dev code n rows s in later_right _ _ n l e le

mark_sent :
    (dev : String) (code : AlertCode) (id now : ℕ) (rows : List Alert) (a : Alert)
    → find_where (λ b. b.id == id) rows ≡ some a
    → matches dev code a ≡ true
    → SentBy dev code now (update_where (λ b. b.id == id) (raise_marked sent now) rows)
unfolding find_where update_where
mark_sent dev code id now [] a h m = cc
mark_sent dev code id now (b ∷ rows) a h m = elim (Bool-cases (b.id == id)) [
  | inl e ↦ let same : b ≡ a = cc (rw (e, find_where) at h) in rw e (inl (rw same m, refl, refl))
  | inr e ↦ rw e (inr (mark_sent dev code id now rows a (rw (e, find_where) at h) m))
]

resolve_sent :
    (dev d : String) (code k : AlertCode) (n at now : ℕ) (reason : String) (notify : Bool)
    (rows : List Alert)
    → SentBy dev code n rows
    → SentBy dev code n (update_where (resolvable d k at) (resolved at reason notify now) rows)
unfolding update_where
resolve_sent dev d code k n at now reason notify [] s = s
resolve_sent dev d code k n at now reason notify (a ∷ rows) (inl h) =
    elim (Bool-cases (resolvable d k at a)) [ inl e ↦ rw e (inl h) | inr e ↦ rw e (inl h) ]
resolve_sent dev d code k n at now reason notify (a ∷ rows) (inr s) =
    inr (resolve_sent dev d code k n at now reason notify rows s)

cooling :
    (cfg : Config) (now n : ℕ) (sev : AlertSeverity) (o : Option ℕ)
    → (l : ℕ) × (o ≡ some l) × (n ≤ l)
    → now < n + cfg.notify_cooldown
    → initial_state cfg now sev o ≡ suppressed
unfolding initial_state
cooling cfg now n sev o (l, e, le) h = ground arith

abbrev pub StaysQuiet : Table → String → AlertCode → Type 0
StaysQuiet t dev code =
    (a : Alert) × (get_open_alert t dev code ≡ some a) × (a.notify_state ≡ suppressed)

insert_quiet :
    (t t' : Table) (p : InsertParams) (now : ℕ) (dev : String) (code : AlertCode)
    → p.device_id ≡ dev
    → p.code ≡ code
    → get_open_alert t dev code ≡ none
    → p.notify_state ≡ suppressed
    → insert_alert t p now ≡ ok t'
    → StaysQuiet t' dev code
unfolding get_open_alert
insert_quiet t t' p now dev code x y h quiet e =
    let h' : get_open_alert t p.device_id p.code ≡ none = rw (x, y) h in
    let made : record { rows = t.rows ++ new_alert t p now ∷ []; next_id = t.next_id + 1 } ≡ t' =
      cc (sym (inserts t p now h') ∙ e) in
    subst (λ (u : Table). StaysQuiet u dev code) made
      (
        new_alert t p now,
        find-append (is_open_for dev code) t.rows (new_alert t p now) h (
            ground (
              arith,
              eq_refl p.device_id,
              code_eq_iff p.code code,
              ap (λ d. str_eq p.device_id d) x,
            )),
        quiet,
      )

module _ {E : Type 0} (device_home : String → Result E (Option HomeRow)) (cfg : Config)
    (clock : Clock) (dev : String) (code : AlertCode) (at : ℕ) (source : Source)
    (trigger_key : TriggerKey) (msg : Message) where
  raise_in_cooldown :
      (s s' : State) (n : ℕ)
      → SentBy dev code n s.table.rows
      → clock.now < n + cfg.notify_cooldown
      → raise device_home cfg clock s dev code at source trigger_key msg ≡ ok (s', true)
      → StaysQuiet s'.table dev code
  unfolding last_notified_at
  raise_in_cooldown s s' n sentby soon e =
      elim (raise-Outcome device_home cfg clock s dev code at source trigger_key msg s' true e) [
        | reobserved o h t b ↦ cc
        | opened p h x y sv r ns i b ↦
            insert_quiet s.table s'.table p clock.db_now dev code x y h
              (ns
                ∙ cooling cfg clock.now n (severity code) (last_notified_at s.table dev code)
                    (last_notified-ge dev code n s.table.rows sentby) soon)
              i
      ]

  -- After an alert's raise notification is marked sent at `n` and the alert is resolved, an alert of
  -- the same device and code that Raise creates before `n` plus the cooldown is open and
  -- suppressed.
  pub raise_after_sent :
      (s s' : State) (id n : ℕ) (a : Alert) (c : Clock) (resolved_at : ℕ) (reason : String)
      → find_where (λ b. b.id == id) s.table.rows ≡ some a
      → matches dev code a ≡ true
      → clock.now < n + cfg.notify_cooldown
      → raise device_home cfg clock
          ((resolve cfg c
            (record s { table = mark_raise_notification s.table id sent n })
            dev
            code
            resolved_at
            reason).0)
          dev
          code
          at
          source
          trigger_key
          msg
        ≡ ok (s', true)
      → StaysQuiet s'.table dev code
  unfolding resolve resolve_open_alert mark_raise_notification
  raise_after_sent s s' id n a c resolved_at reason h m soon e =
      raise_in_cooldown _ s' n
        (resolve_sent dev dev code code n resolved_at c.db_now reason
          (notify_resolve cfg (severity code))
          (update_where (λ b. b.id == id) (raise_marked sent n) s.table.rows)
          (mark_sent dev code id n s.table.rows a h m))
        soon e
