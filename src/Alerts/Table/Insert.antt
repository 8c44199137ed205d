-- ===== src/Alerts/Table/Insert.antt =====
-- InsertAlert keeps the alerts table consistent.
use text.Mathlib.Text.{◌==◌ as str_eq}
use text.Mathlib.TextEquality.{eq_iff}
use sumpnet.Prelude.{
  ℕ, suc, ◌+◌, ◌≡◌, ◌≢◌, ◌≤◌, refl, String, Bool, true, false, ◌&&◌, List, [], ◌∷◌, ◌++◌, none,
  if◌then◌else◌, arith, Bool-cases, Option-cases, subst, inl, inr,
}
use sumpnet.Prelude.Result.{ok}
use sumpnet.AlertCode.{AlertCode, code_eq, severity, code_eq_iff}
use sumpnet.Alerts.Table.{
  Alert, Table, is_open_for, find_where, InsertParams, new_alert, insert_alert,
}
use sumpnet.Alerts.Table.Invariant.{
  count_open, count_where, ids, AllBelow, Fresh, Distinct, IsRow, AllRows, IsConsistent,
}

suc_if : (b : Bool) (n : ℕ) → suc (if b then suc n else n) ≡ (if b then suc (suc n) else suc n)
suc_if true n = refl
suc_if false n = refl

count_append :
    (dev : String) (code : AlertCode) (rows : List Alert) (a : Alert)
    → count_open dev code (rows ++ a ∷ []) ≡ (
        if is_open_for dev code a then suc (count_open dev code rows) else count_open dev code rows)
unfolding count_where
count_append dev code [] a = refl
count_append dev code (b ∷ rows) a = elim (Bool-cases (is_open_for dev code b)) [
  | inl e ↦ rw e (rw (count_append dev code rows a) (suc_if (is_open_for dev code a) _))
  | inr e ↦ rw e (count_append dev code rows a)
]

count_of_none :
    (dev : String) (code : AlertCode) (rows : List Alert)
    → find_where (is_open_for dev code) rows ≡ none
    → count_open dev code rows ≡ 0
unfolding find_where count_where
count_of_none dev code [] h = refl
count_of_none dev code (a ∷ rows) h = ground (arith, count_of_none dev code rows)

Fresh-append :
    (n : ℕ) (rows : List Alert) (a : Alert)
    → Fresh n (ids rows)
    → a.id ≢ n
    → Fresh n (ids (rows ++ a ∷ []))
Fresh-append n [] a h ne = (ne, tt)
Fresh-append n (b ∷ rows) a h ne = (h.0, Fresh-append n rows a h.1 ne)

Distinct-append :
    (rows : List Alert) (a : Alert)
    → AllBelow a.id (ids rows)
    → Distinct (ids rows)
    → Distinct (ids (rows ++ a ∷ []))
Distinct-append [] a b d = (tt, tt)
Distinct-append (c ∷ rows) a b d = (
  Fresh-append c.id rows a d.0 (λ e. absurd (omega (arith, b.0))),
  Distinct-append rows a b.1 d.1,
)

AllBelow-append :
    (n : ℕ) (rows : List Alert) (a : Alert)
    → AllBelow n (ids rows)
    → a.id ≡ n
    → AllBelow (n + 1) (ids (rows ++ a ∷ []))
AllBelow-append n [] a h e = (omega arith, tt)
AllBelow-append n (b ∷ rows) a h e = (omega (arith, h.0), AllBelow-append n rows a h.1 e)

AllRows-append : (rows : List Alert) (a : Alert) → AllRows rows → IsRow a → AllRows (rows ++ a ∷ [])
AllRows-append [] a h r = (r, tt)
AllRows-append (b ∷ rows) a h r = (h.0, AllRows-append rows a h.1 r)

same_episode :
    (dev d : String) (code k : AlertCode)
    → (str_eq dev d && code_eq code k && true) ≡ true
    → (dev ≡ d) × (code ≡ k)
same_episode dev d code k h = ground (arith, eq_iff dev d, code_eq_iff code k)

module _ (t : Table) (p : InsertParams) (now : ℕ) where
  insert_one_open :
      find_where (is_open_for p.device_id p.code) t.rows ≡ none
      → IsConsistent t
      → (dev : String) (code : AlertCode)
      → count_open dev code (t.rows ++ new_alert t p now ∷ []) ≤ 1
  insert_one_open h c dev code =
      rw (count_append dev code t.rows (new_alert t p now))
        (elim (Bool-cases (is_open_for dev code (new_alert t p now))) [
          | inl e ↦
              let (d, k) = same_episode p.device_id dev p.code code e in
              let z : count_open dev code t.rows ≡ 0 =
                rw (← d, ← k) (count_of_none p.device_id p.code t.rows h) in
              rw (e, z) (omega arith)
          | inr e ↦ rw e (c.one_open dev code)
        ])

  insert-IsConsistent' :
      p.severity ≡ severity p.code
      → find_where (is_open_for p.device_id p.code) t.rows ≡ none
      → IsConsistent t
      → IsConsistent (record { rows = t.rows ++ new_alert t p now ∷ []; next_id = t.next_id + 1 })
  insert-IsConsistent' g h c = record {
    one_open = insert_one_open h c;
    below = AllBelow-append t.next_id t.rows (new_alert t p now) c.below refl;
    distinct = Distinct-append t.rows (new_alert t p now) c.below c.distinct;
    rows =
        AllRows-append t.rows (new_alert t p now) c.rows
          (record { seen = omega arith; ended = tt; occurred = omega arith; graded = g });
  }

  pub insert-IsConsistent :
      (t' : Table)
      → p.severity ≡ severity p.code
      → insert_alert t p now ≡ ok t'
      → IsConsistent t
      → IsConsistent t'
  unfolding insert_alert
  insert-IsConsistent t' g e c =
      elim (Option-cases (find_where (is_open_for p.device_id p.code) t.rows)) [
        | inl h ↦
            let made : record { rows = t.rows ++ new_alert t p now ∷ []; next_id = t.next_id + 1 }
                ≡ t' =
              cc (rw (h, insert_alert) at e) in
            subst IsConsistent made (insert-IsConsistent' g h c)
        | inr h ↦ cc (rw (h.1, insert_alert) at e)
      ]
