-- ===== src/Alerts/Engine/Resolution.antt =====
-- What Resolve does to the open alert of its device and code.
use sumpnet.Prelude.{
  ℕ, suc, ◌≡◌, ◌≤◌, ◌<◌, refl, ap, ◌∙◌, String, Bool, true, false, ◌&&◌, List, [], ◌∷◌, none, some,
  arith, Option-cases, Bool-cases, inl, inr, leb, if◌then◌else◌,
}
use sumpnet.AlertCode.{AlertCode, severity}
use sumpnet.Alerts.Table.{
  Alert, Table, get_open_alert, find_where, is_open_for, update_where, resolvable, resolved,
  resolve_open_alert,
}
use sumpnet.Alerts.Table.Invariant.{IsConsistent, count_where, resolve-IsConsistent}
use sumpnet.Alerts.Engine.{Config, State, Clock, resolve, notify_resolve}

update-none :
    (q : Alert → Bool) (f : Alert → Alert) (rows : List Alert)
    → find_where q rows ≡ none
    → update_where q f rows ≡ rows
unfolding find_where update_where
update-none q f [] h = refl
update-none q f (a ∷ rows) h = ground (arith, update-none q f rows)

-- A query `p`, here for the open alerts of an episode, and a further condition `r`.
module _ (p r : Alert → Bool) where
  none_of_count : (rows : List Alert) → count_where p rows ≡ 0 → find_where p rows ≡ none
  unfolding find_where count_where
  none_of_count [] h = refl
  none_of_count (a ∷ rows) h = ground (arith, none_of_count rows)

  both_of_none :
      (rows : List Alert) → find_where p rows ≡ none → find_where (λ a. p a && r a) rows ≡ none
  unfolding find_where
  both_of_none [] h = refl
  both_of_none (a ∷ rows) h = ground (arith, both_of_none rows)

  -- If `p` holds of one row only, the further condition decides about that row.
  both_of_one :
      (rows : List Alert) (o : Alert)
      → count_where p rows ≤ 1
      → find_where p rows ≡ some o
      → find_where (λ a. p a && r a) rows ≡ (if r o then some o else none)
  unfolding find_where count_where
  both_of_one [] o c h = cc
  both_of_one (a ∷ rows) o c h =
      ground (arith, both_of_one rows o, none_of_count rows, both_of_none rows)

  -- An update that takes the rows with both conditions out of `p` lowers the count.
  count_closed :
      (f : Alert → Alert)
      → ((a : Alert) → p (f a) ≡ false)
      → (rows : List Alert)
      → count_where p (update_where (λ a. p a && r a) f rows) ≤ count_where p rows
  unfolding find_where count_where update_where
  count_closed f shut [] = omega arith
  count_closed f shut (a ∷ rows) = ground (arith, shut a, count_closed f shut rows)

  count_one_closed :
      (f : Alert → Alert)
      → ((a : Alert) → p (f a) ≡ false)
      → (rows : List Alert) (o : Alert) → find_where (λ a. p a && r a) rows ≡ some o
      → suc (count_where p (update_where (λ a. p a && r a) f rows)) ≤ count_where p rows
  unfolding find_where count_where update_where
  count_one_closed f shut [] o h = cc
  count_one_closed f shut (a ∷ rows) o h =
      ground (arith, shut a, count_closed f shut rows, count_one_closed f shut rows o)

-- The three ways in which Resolve ends, for the table before, the table after and the result.
pub data Resolution (t : Table) (dev : String) (code : AlertCode) (at : ℕ) (t' : Table)
    (done : Bool) : Type 0 where
  -- The open alert was raised by `at`: no alert of the device and code is open any more.
  closed :
      (o : Alert)
      → get_open_alert t dev code ≡ some o
      → o.raised_at ≤ at
      → get_open_alert t' dev code ≡ none
      → done ≡ true
      → Resolution t dev code at t' done
  -- The open alert was raised after `at`: nothing changes.
  stale :
      (o : Alert)
      → get_open_alert t dev code ≡ some o
      → at < o.raised_at
      → t' ≡ t
      → done ≡ false
      → Resolution t dev code at t' done
  -- No alert was open: nothing changes.
  absent :
      get_open_alert t dev code ≡ none → t' ≡ t → done ≡ false → Resolution t dev code at t' done

module _ (cfg : Config) (clock : Clock) (s : State) (dev : String) (code : AlertCode) (at : ℕ)
    (reason : String) where
  abbrev after : State
  after = (resolve cfg clock s dev code at reason).0

  nothing_resolved :
      find_where (resolvable dev code at) s.table.rows ≡ none
      → (after.table ≡ s.table) × ((resolve cfg clock s dev code at reason).1 ≡ false)
  unfolding resolve resolve_open_alert
  nothing_resolved h = (
    ap (λ (rows : List Alert). record s.table { rows = rows })
        (update-none (resolvable dev code at) _ s.table.rows h),
    rw (h, resolve),
  )

  something_resolved :
      (o : Alert)
      → IsConsistent s.table
      → find_where (resolvable dev code at) s.table.rows ≡ some o
      → (get_open_alert after.table dev code ≡ none)
        × ((resolve cfg clock s dev code at reason).1 ≡ true)
  unfolding resolve resolve_open_alert get_open_alert
  something_resolved o c h =
      let fewer =
        count_one_closed (is_open_for dev code) (λ a. leb a.raised_at at)
          (resolved at reason (notify_resolve cfg (severity code)) clock.db_now) (λ a. ground arith)
          s.table.rows o h in
      (
        none_of_count (is_open_for dev code) (λ a. true) _
            (omega (arith, fewer, c.one_open dev code)),
        rw (h, resolve),
      )

-- On a consistent table Resolve keeps the table consistent, and reports that it closed an alert
-- exactly in the case that an alert of the device and code is open and was raised by the given
-- time; no such alert is open afterwards. In the other cases, no alert open or one that was raised
-- later, the table is left as it was.
pub resolve-Resolution :
    (cfg : Config) (clock : Clock) (s : State) (dev : String) (code : AlertCode) (at : ℕ)
    (reason : String)
    → IsConsistent s.table
    → let (s', done) = resolve cfg clock s dev code at reason in
      IsConsistent s'.table × Resolution s.table dev code at s'.table done
unfolding resolve
resolve-Resolution cfg clock s dev code at reason c = (
  resolve-IsConsistent s.table dev code at reason (notify_resolve cfg (severity code)) clock.db_now
      c,
  elim (Option-cases (get_open_alert s.table dev code)) [
    | inl h ↦
        let (same, quiet) = nothing_resolved cfg clock s dev code at reason (
          both_of_none (is_open_for dev code) (λ a. leb a.raised_at at) s.table.rows
            (unfold get_open_alert in h)) in
        Resolution.absent h same quiet
    | inr (o, h) ↦
        let found =
          both_of_one (is_open_for dev code) (λ a. leb a.raised_at at) s.table.rows o
            (c.one_open dev code) (unfold get_open_alert in h) in
        elim (Bool-cases (leb o.raised_at at)) [
          | inl le ↦
              let (none_left, told) =
                something_resolved cfg clock s dev code at reason o c (found ∙ rw le) in
              Resolution.closed o h (ground arith) none_left told
          | inr gt ↦
              let (same, quiet) = nothing_resolved cfg clock s dev code at reason (found ∙ rw gt) in
              Resolution.stale o h (ground arith) same quiet
        ]
  ],
)
