-- ===== src/Alerts/Engine/Lifecycle.antt =====
-- Raise and Resolve keep the table consistent, and open and close the episode they are called for.
use text.Mathlib.TextPositions.{eq_refl}
use sumpnet.Prelude.{
  ℕ, ◌+◌, ◌≡◌, ◌≤◌, ◌↔◌, refl, ap, sym, subst, ◌∙◌, String, Bool, true, [], ◌∷◌, ◌++◌, Option, none,
  some, arith, ◌==◌,
}
use sumpnet.Prelude.Result.{Result, ok}
use sumpnet.AlertCode.{AlertCode, severity}
use sumpnet.Alerts.Table.{
  Source, TriggerKey, Message, Alert, Table, get_open_alert, InsertParams, insert_alert,
  touch_alert, find_where, is_open_for, touched, new_alert,
}
use sumpnet.Alerts.Table.Invariant.{IsConsistent, touch-IsConsistent}
use sumpnet.Alerts.Table.Insert.{insert-IsConsistent}
use sumpnet.Alerts.Table.Frame.{find-update, find-append}
use sumpnet.Alerts.Engine.{Config, State, Clock, HomeRow, raise}
use sumpnet.Alerts.Engine.Outcome.{Outcome, inserts, reobserved, opened, raise-Outcome}

module _ (cfg : Config) (clock : Clock) (s : State) (dev : String) (code : AlertCode) (at : ℕ) where
  Outcome-IsConsistent :
      (s' : State) (created : Bool)
      → IsConsistent s.table
      → Outcome cfg clock s dev code at s' created
      → IsConsistent s'.table
  Outcome-IsConsistent s' created c (reobserved o h e b) =
      rw e (touch-IsConsistent s.table o.id at clock.db_now c)
  Outcome-IsConsistent s' created c (opened p h d k g r n i b) =
      insert-IsConsistent s.table p clock.db_now s'.table (g ∙ ap severity (sym k)) i c

-- The alert that Raise leaves open for the episode: it was raised no later, and last seen no
-- earlier, than the observation.
pub record OpenAt (t : Table) (dev : String) (code : AlertCode) (at : ℕ) : Type 0 where
  pub row : Alert
  pub found : get_open_alert t dev code ≡ some row
  pub raised : row.raised_at ≤ at
  pub seen : at ≤ row.last_seen_at

touch-OpenAt :
    (t : Table) (dev : String) (code : AlertCode) (o : Alert) (at now : ℕ)
    → get_open_alert t dev code ≡ some o
    → OpenAt (touch_alert t o.id at now) dev code at
unfolding get_open_alert touch_alert
touch-OpenAt t dev code o at now h = record {
  row = touched at now o;
  found =
      find-update (is_open_for dev code) (λ a. a.id == o.id) (touched at now) (λ a. refl) t.rows o h
      ∙ ground arith;
  raised = omega arith;
  seen = omega arith;
}

insert-OpenAt :
    (t t' : Table) (p : InsertParams) (now : ℕ)
    → get_open_alert t p.device_id p.code ≡ none
    → insert_alert t p now ≡ ok t'
    → OpenAt t' p.device_id p.code p.raised_at
unfolding get_open_alert
insert-OpenAt t t' p now h e = record {
  row = new_alert t p now;
  found =
      let made : record { rows = t.rows ++ new_alert t p now ∷ []; next_id = t.next_id + 1 } ≡ t' =
        cc (sym (inserts t p now h) ∙ e) in
      subst
        (λ (u : Table).
          find_where (is_open_for p.device_id p.code) u.rows ≡ some (new_alert t p now))
        made
        (find-append (is_open_for p.device_id p.code) t.rows (new_alert t p now) h
          (ground (arith, eq_refl p.device_id)));
  raised = omega arith;
  seen = omega arith;
}

module _ (cfg : Config) (clock : Clock) (s : State) (dev : String) (code : AlertCode) (at : ℕ) where
  Outcome-OpenAt :
      (s' : State) (created : Bool)
      → Outcome cfg clock s dev code at s' created
      → OpenAt s'.table dev code at
  Outcome-OpenAt s' created (reobserved o h e b) =
      rw e (touch-OpenAt s.table dev code o at clock.db_now h)
  Outcome-OpenAt s' created (opened p h d k g r n i b) =
      rw (← d, ← k, ← r) (insert-OpenAt s.table s'.table p clock.db_now (rw (d, k) h) i)

  Outcome-created :
      (s' : State) (created : Bool)
      → Outcome cfg clock s dev code at s' created
      → (created ≡ true) ↔ (get_open_alert s.table dev code ≡ none)
  Outcome-created s' created (reobserved o h e b) = ground arith
  Outcome-created s' created (opened p h d k g r n i b) = ground arith

module _ {E : Type 0} (device_home : String → Result E (Option HomeRow)) where
  -- A Raise that succeeds keeps the table consistent: in particular at most one alert of a device
  -- and a code is open. It leaves an alert of its device and code open that was raised no later
  -- and last seen no earlier than the observation, and it reports a new alert exactly if none was
  -- open before.
  pub raise_opens :
      (cfg : Config) (clock : Clock) (s s' : State) (dev : String) (code : AlertCode) (at : ℕ)
      (source : Source) (trigger_key : TriggerKey) (msg : Message) (created : Bool)
      → IsConsistent s.table
      → raise device_home cfg clock s dev code at source trigger_key msg ≡ ok (s', created)
      → IsConsistent s'.table
        × OpenAt s'.table dev code at
        × ((created ≡ true) ↔ (get_open_alert s.table dev code ≡ none))
  raise_opens cfg clock s s' dev code at source trigger_key msg created c e =
      let o =
        raise-Outcome device_home cfg clock s dev code at source trigger_key msg s' created e in
      (
        Outcome-IsConsistent cfg clock s dev code at s' created c o,
        Outcome-OpenAt cfg clock s dev code at s' created o,
        Outcome-created cfg clock s dev code at s' created o,
      )
