-- ===== src/Alerts/Table/Invariant.antt =====
-- What holds of the alerts table between two statements.
use sumpnet.Prelude.{
  ℕ, suc, ◌≡◌, ◌≢◌, ◌≤◌, ◌<◌, refl, String, Bool, true, false, List, [], ◌∷◌, Option, none, some,
  ◌==◌, if◌then◌else◌, arith, Bool-cases, inl, inr,
}
use sumpnet.AlertCode.{AlertCode, severity}
use sumpnet.Alerts.Table.{
  Alert, Table, is_open_for, update_where, touched, touch_alert, resolvable, resolved,
  resolve_open_alert, acknowledged, raise_marked, resolve_marked, acknowledge_alert,
  mark_raise_notification, mark_resolve_notification, NotifyState,
}

unfoldable pub count_where : (Alert → Bool) → List Alert → ℕ
count_where p [] = 0
count_where p (a ∷ rows) = let rest = count_where p rows in if p a then suc rest else rest

-- How many alerts of the device and the code are open.
abbrev pub count_open : String → AlertCode → List Alert → ℕ
count_open dev code = count_where (is_open_for dev code)

abbrev pub ids : List Alert → List ℕ
ids [] = []
ids (a ∷ rows) = a.id ∷ ids rows

abbrev pub AllBelow : ℕ → List ℕ → Type 0
AllBelow n [] = Unit
AllBelow n (i ∷ is) = (i < n) × AllBelow n is

abbrev pub Fresh : ℕ → List ℕ → Type 0
Fresh n [] = Unit
Fresh n (i ∷ is) = (i ≢ n) × Fresh n is

abbrev pub Distinct : List ℕ → Type 0
Distinct [] = Unit
Distinct (i ∷ is) = Fresh i is × Distinct is

abbrev pub ResolvedAfter : Option ℕ → ℕ → Type 0
ResolvedAfter none raised = Unit
ResolvedAfter (some at) raised = raised ≤ at

-- An alert was seen no earlier than it was raised, resolved no earlier than it was raised, seen at
-- least once, and has the severity of its code.
pub record IsRow (a : Alert) : Type 0 where
  pub seen : a.raised_at ≤ a.last_seen_at
  pub ended : ResolvedAfter a.resolved_at a.raised_at
  pub occurred : 1 ≤ a.occurrences
  pub graded : a.severity ≡ severity a.code

abbrev pub AllRows : List Alert → Type 0
AllRows [] = Unit
AllRows (a ∷ rows) = IsRow a × AllRows rows

-- At most one alert of a device and a code is open, ids are unique and below the counter, and every
-- row is sound.
pub record IsConsistent (t : Table) : Type 0 where
  pub one_open : (dev : String) (code : AlertCode) → count_open dev code t.rows ≤ 1
  pub below : AllBelow t.next_id (ids t.rows)
  pub distinct : Distinct (ids t.rows)
  pub rows : AllRows t.rows

count_step :
    (b b' : Bool) (m n : ℕ)
    → (b' ≡ true → b ≡ true)
    → m ≤ n
    → (if b' then suc m else m) ≤ (if b then suc n else n)
count_step true true m n h le = omega arith
count_step true false m n h le = omega arith
count_step false true m n h le = cc (h refl)
count_step false false m n h le = le

module _ (p : Alert → Bool) (f : Alert → Alert) where
  update_where-rows :
      ((a : Alert) → p a ≡ true → IsRow a → IsRow (f a))
      → (rows : List Alert) → AllRows rows
      → AllRows (update_where p f rows)
  unfolding update_where
  update_where-rows keep [] h = tt
  update_where-rows keep (a ∷ rows) h = elim (Bool-cases (p a)) [
    | inl e ↦ (rw e (keep a e h.0), update_where-rows keep rows h.1)
    | inr e ↦ (rw e h.0, update_where-rows keep rows h.1)
  ]

  update_where-ids :
      ((a : Alert) → (f a).id ≡ a.id) → (rows : List Alert) → ids (update_where p f rows) ≡ ids rows
  unfolding update_where
  update_where-ids keep [] = refl
  update_where-ids keep (a ∷ rows) = ground (arith, keep a, update_where-ids keep rows)

  update_where-count :
      (dev : String) (code : AlertCode)
      → ((a : Alert)
          → p a ≡ true
          → is_open_for dev code (f a) ≡ true
          → is_open_for dev code a ≡ true)
      → (rows : List Alert) → count_open dev code (update_where p f rows) ≤ count_open dev code rows
  unfolding update_where count_where
  update_where-count dev code keep [] = omega arith
  update_where-count dev code keep (a ∷ rows) =
      let ih = update_where-count dev code keep rows in
      elim (Bool-cases (p a)) [
        | inl e ↦
            rw e
              (count_step (is_open_for dev code a) (is_open_for dev code (f a)) _ _ (keep a e) ih)
        | inr e ↦
            rw e (count_step (is_open_for dev code a) (is_open_for dev code a) _ _ (λ o. o) ih)
      ]

  -- An update that keeps ids and sound rows, and opens no row.
  pub update_where-IsConsistent :
      (t : Table)
      → ((a : Alert) → (f a).id ≡ a.id)
      → ((a : Alert) → p a ≡ true → IsRow a → IsRow (f a))
      → ((dev : String) (code : AlertCode) (a : Alert)
          → p a ≡ true
          → is_open_for dev code (f a) ≡ true
          → is_open_for dev code a ≡ true)
      → IsConsistent t
      → IsConsistent (record t { rows = update_where p f t.rows })
  update_where-IsConsistent t same sound shut c = record {
    one_open = λ dev code.
        omega (arith, update_where-count dev code (shut dev code) t.rows, c.one_open dev code);
    below = rw (update_where-ids same t.rows) c.below;
    distinct = rw (update_where-ids same t.rows) c.distinct;
    rows = update_where-rows sound t.rows c.rows;
  }

pub touch-IsConsistent :
    (t : Table) (id seen_at now : ℕ) → IsConsistent t → IsConsistent (touch_alert t id seen_at now)
unfolding touch_alert
touch-IsConsistent t id seen_at now c =
    update_where-IsConsistent (λ a. a.id == id) (touched seen_at now) t (λ a. refl)
      (λ a e r. ground arith) (λ dev code a e o. o) c

pub acknowledge-IsConsistent :
    (t : Table) (id at : ℕ) (text : Option String) (now : ℕ)
    → IsConsistent t
    → IsConsistent (acknowledge_alert t id at text now)
unfolding acknowledge_alert
acknowledge-IsConsistent t id at text now c =
    update_where-IsConsistent (λ a. a.id == id) (acknowledged at text now) t (λ a. refl)
      (λ a e r. ground arith) (λ dev code a e o. o) c

pub mark_raise-IsConsistent :
    (t : Table) (id : ℕ) (state : NotifyState) (now : ℕ)
    → IsConsistent t
    → IsConsistent (mark_raise_notification t id state now)
unfolding mark_raise_notification
mark_raise-IsConsistent t id state now c =
    update_where-IsConsistent (λ a. a.id == id) (raise_marked state now) t (λ a. refl)
      (λ a e r. ground arith) (λ dev code a e o. o) c

pub mark_resolve-IsConsistent :
    (t : Table) (id : ℕ) (state : NotifyState) (now : ℕ)
    → IsConsistent t
    → IsConsistent (mark_resolve_notification t id state now)
unfolding mark_resolve_notification
mark_resolve-IsConsistent t id state now c =
    update_where-IsConsistent (λ a. a.id == id) (resolve_marked state now) t (λ a. refl)
      (λ a e r. ground arith) (λ dev code a e o. o) c

pub resolve-IsConsistent :
    (t : Table) (dev : String) (code : AlertCode) (at : ℕ) (reason : String) (notify : Bool)
    (now : ℕ)
    → IsConsistent t
    → IsConsistent (resolve_open_alert t dev code at reason notify now).0
unfolding resolve_open_alert
resolve-IsConsistent t dev code at reason notify now c =
    update_where-IsConsistent (resolvable dev code at) (resolved at reason notify now) t (λ a. refl)
      (λ a e r. ground arith) (λ d k a e o. ground arith) c
