-- ===== src/Alerts/Engine/Isolation.antt =====
-- Raise and Resolve leave the alerts of every other device and code alone.
use text.Mathlib.TextPositions.{eq_refl}
use sumpnet.Prelude.{
  ℕ, ◌+◌, ◌≡◌, refl, sym, subst, ◌∙◌, String, Bool, List, [], ◌∷◌, ◌++◌, Option, none, arith, ◌==◌,
}
use sumpnet.Prelude.Result.{Result, ok}
use sumpnet.AlertCode.{AlertCode}
use sumpnet.Alerts.Table.{
  Source, TriggerKey, Message, Alert, Table, get_open_alert, InsertParams, insert_alert, new_alert,
  touch_alert, touched, resolvable, resolve_open_alert, matches, is_open_for,
}
use sumpnet.Alerts.Table.Invariant.{IsConsistent}
use sumpnet.Alerts.Table.Frame.{
  rows_of, rows_of-update, rows_of-append, found-Selects, Selects, Differ,
}
use sumpnet.Alerts.Engine.{Config, State, Clock, HomeRow, raise, resolve}
use sumpnet.Alerts.Engine.Outcome.{Outcome, reobserved, opened, raise-Outcome, inserts}

open-Selects :
    (q : Alert → Bool) (dev : String) (code : AlertCode) (rows : List Alert)
    → Selects q (is_open_for dev code) rows
    → Selects q (matches dev code) rows
open-Selects q dev code [] s = tt
open-Selects q dev code (a ∷ rows) s =
    (λ e. let o = s.0 e in ground arith, open-Selects q dev code rows s.1)

pub resolvable-Selects :
    (dev : String) (code : AlertCode) (at : ℕ) (rows : List Alert)
    → Selects (resolvable dev code at) (matches dev code) rows
resolvable-Selects dev code at [] = tt
resolvable-Selects dev code at (a ∷ rows) = (λ e. ground arith, resolvable-Selects dev code at rows)

insert_rows_of :
    (t t' : Table) (p : InsertParams) (now : ℕ) (d : String) (k : AlertCode)
    → get_open_alert t p.device_id p.code ≡ none
    → insert_alert t p now ≡ ok t'
    → Differ p.device_id p.code d k
    → rows_of d k t'.rows ≡ rows_of d k t.rows
insert_rows_of t t' p now d k h e ne =
    let made : record { rows = t.rows ++ new_alert t p now ∷ []; next_id = t.next_id + 1 } ≡ t' =
      cc (sym (inserts t p now h) ∙ e) in
    subst (λ (u : Table). rows_of d k u.rows ≡ rows_of d k t.rows) made
      (rows_of-append p.device_id d p.code k ne t.rows (new_alert t p now)
        (ground (arith, eq_refl p.device_id)))

module _ (cfg : Config) (clock : Clock) (s : State) (dev : String) (code : AlertCode) (at : ℕ)
    (d : String) (k : AlertCode) (ne : Differ dev code d k) where
  Outcome-rows_of :
      (s' : State) (created : Bool)
      → IsConsistent s.table
      → Outcome cfg clock s dev code at s' created
      → rows_of d k s'.table.rows ≡ rows_of d k s.table.rows
  unfolding touch_alert get_open_alert
  Outcome-rows_of s' created c (reobserved o h e b) = rw e (
      rows_of-update dev d code k ne (λ a. a.id == o.id) (touched at clock.db_now) (λ a. refl)
        s.table.rows
        (open-Selects (λ a. a.id == o.id) dev code s.table.rows
          (found-Selects (is_open_for dev code) s.table.rows o c.distinct h)))
  Outcome-rows_of s' created c (opened p h x y g r n i b) =
      insert_rows_of s.table s'.table p clock.db_now d k (rw (x, y) h) i (rw (x, y) ne)

module _ {E : Type 0} (device_home : String → Result E (Option HomeRow)) where
  -- Raise and Resolve for one device and code leave every alert of any other device or code, open or
  -- resolved, exactly as it was.
  pub raise-resolve_isolated :
      (cfg : Config) (clock : Clock) (s s' : State) (dev : String) (code : AlertCode) (at : ℕ)
      (source : Source) (trigger_key : TriggerKey) (reason : String) (msg : Message)
      (created : Bool) (d : String) (k : AlertCode)
      → IsConsistent s.table
      → Differ dev code d k
      → raise device_home cfg clock s dev code at source trigger_key msg ≡ ok (s', created)
      → (rows_of d k s'.table.rows ≡ rows_of d k s.table.rows)
        × (rows_of d k (resolve cfg clock s dev code at reason).0.table.rows
            ≡ rows_of d k s.table.rows)
  unfolding resolve resolve_open_alert
  raise-resolve_isolated cfg clock s s' dev code at source trigger_key reason msg created d k c ne
        e =
      (
        Outcome-rows_of cfg clock s dev code at d k ne s' created c
            (raise-Outcome device_home cfg clock s dev code at source trigger_key msg s' created e),
        rows_of-update dev d code k ne (resolvable dev code at) _ (λ a. refl) s.table.rows
            (resolvable-Selects dev code at s.table.rows),
      )
