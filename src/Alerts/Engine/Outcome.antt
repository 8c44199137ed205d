-- ===== src/Alerts/Engine/Outcome.antt =====
-- The two ways in which Raise succeeds.
use sumpnet.Prelude.{
  ℕ, ◌+◌, ◌≡◌, ◌≢◌, subst, refl, ap, ◌∙◌, String, Bool, true, false, [], ◌∷◌, ◌++◌, Option, none,
  some, arith, Option-cases, inl, inr,
}
use sumpnet.Prelude.Result.{Result, ok, err, Result-cases}
use sumpnet.AlertCode.{AlertCode, severity}
use sumpnet.Alerts.Table.{
  Source, TriggerKey, Message, Alert, Table, get_open_alert, InsertParams, insert_alert, new_alert,
  touch_alert, TableError, last_notified_at,
}
use sumpnet.Alerts.Engine.{
  Config, State, Clock, HomeRow, HomeEntry, initial_state, home_of, raise, insert_failed,
}

pub data Outcome (cfg : Config) (clock : Clock) (s : State) (dev : String) (code : AlertCode)
    (at : ℕ) (s' : State) (created : Bool) : Type 0 where
  -- The open alert was touched.
  reobserved :
      (o : Alert)
      → get_open_alert s.table dev code ≡ some o
      → s'.table ≡ touch_alert s.table o.id at clock.db_now
      → created ≡ false
      → Outcome cfg clock s dev code at s' created
  -- A new alert was inserted.
  opened :
      (p : InsertParams)
      → get_open_alert s.table dev code ≡ none
      → p.device_id ≡ dev
      → p.code ≡ code
      → p.severity ≡ severity code
      → p.raised_at ≡ at
      → p.notify_state
        ≡ initial_state cfg clock.now (severity code) (last_notified_at s.table dev code)
      → insert_alert s.table p clock.db_now ≡ ok s'.table
      → created ≡ true
      → Outcome cfg clock s dev code at s' created

-- InsertAlert succeeds where no alert of the device and the code is open.
pub inserts :
    (t : Table) (p : InsertParams) (now : ℕ)
    → get_open_alert t p.device_id p.code ≡ none
    → insert_alert t p now
      ≡ ok (record { rows = t.rows ++ new_alert t p now ∷ []; next_id = t.next_id + 1 })
unfolding insert_alert get_open_alert
inserts t p now h = rw (h, insert_alert)

module _ {E : Type 0} (device_home : String → Result E (Option HomeRow)) where
  table-home_of :
      (clock : Clock) (s s1 : State) (dev : String) (home : HomeEntry)
      → home_of device_home clock s dev ≡ ok (s1, home)
      → s1.table ≡ s.table
  unfolding home_of
  table-home_of clock s s1 dev home h = ground arith

  home_of_reads :
      (clock : Clock) (s : State) (dev : String) (x : TableError)
      → home_of device_home clock s dev ≢ err (insert_failed x)
  unfolding home_of
  home_of_reads clock s dev x h = ground arith

  module _ (cfg : Config) (clock : Clock) (s : State) (dev : String) (code : AlertCode) (at : ℕ)
      (source : Source) (trigger_key : TriggerKey) (msg : Message) where
    abbrev params : State → HomeEntry → InsertParams
    params s1 home = record {
      device_id = dev;
      home_id = home.home;
      code = code;
      severity = severity code;
      raised_at = at;
      message = msg;
      source = source;
      trigger_key = trigger_key;
      notify_state =
          initial_state cfg clock.now (severity code) (last_notified_at s1.table dev code);
    }

    pub raise-Outcome :
        (s' : State) (created : Bool)
        → raise device_home cfg clock s dev code at source trigger_key msg ≡ ok (s', created)
        → Outcome cfg clock s dev code at s' created
    unfolding raise
    raise-Outcome s' created e = elim (Option-cases (get_open_alert s.table dev code)) [
      | inr (o, h) ↦
          let e' = rw (h, raise) at e in Outcome.reobserved o h (ground arith) (ground arith)
      | inl h ↦ elim (Result-cases (home_of device_home clock s dev)) [
        | inr (x, g) ↦ let e' = rw g at (rw (h, raise) at e) in cc
        | inl ((s1, home), g) ↦
            let e' = rw g at (rw (h, raise) at e) in
            let q = table-home_of clock s s1 dev home g in
            elim (Result-cases (insert_alert s1.table (params s1 home) clock.db_now)) [
              | inr (x, k) ↦ let e'' = rw k at e' in cc
              | inl (t, k) ↦
                  let e'' = rw k at e' in
                  let made : t ≡ s'.table = ground arith in
                  Outcome.opened (params s1 home) h refl refl refl refl
                    (ap
                      (λ u.
                        initial_state cfg clock.now (severity code) (last_notified_at u dev code))
                      q)
                    (subst (λ u. insert_alert u (params s1 home) clock.db_now ≡ ok s'.table) q
                      (k ∙ ap ok made))
                    (ground arith)
            ]
      ]
    ]

    -- Raise never runs into the unique index: its insert meets no open alert.
    pub raise_never_violates :
        (x : TableError)
        → raise device_home cfg clock s dev code at source trigger_key msg ≢ err (insert_failed x)
    unfolding raise
    raise_never_violates x e = elim (Option-cases (get_open_alert s.table dev code)) [
      | inr (o, h) ↦ let e' = rw (h, raise) at e in cc
      | inl h ↦ elim (Result-cases (home_of device_home clock s dev)) [
        | inr (y, g) ↦
            let e' = rw g at (rw (h, raise) at e) in
            home_of_reads clock s dev x (g ∙ ap err (ground arith))
        | inl ((s1, home), g) ↦
            let e' = rw g at (rw (h, raise) at e) in
            let q : get_open_alert s1.table dev code ≡ none =
              ap (λ u. get_open_alert u dev code) (table-home_of clock s s1 dev home g) ∙ h in
            let e'' = rw (inserts s1.table (params s1 home) clock.db_now q) at e' in cc
      ]
    ]
