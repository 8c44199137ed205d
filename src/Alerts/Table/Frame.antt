-- ===== src/Alerts/Table/Frame.antt =====
-- What the queries find after an update of the alerts table, and what an update leaves alone.
use text.Mathlib.Text.{◌==◌ as str_eq}
use text.Mathlib.TextEquality.{eq_iff}
use sumpnet.Prelude.{
  ℕ, ◌≡◌, ◌≢◌, refl, String, Bool, true, false, ◌&&◌, List, [], ◌∷◌, ◌++◌, none, some, ◌==◌,
  if◌then◌else◌, arith, Bool-cases, inl, inr, ◌∙◌, subst,
}
use sumpnet.AlertCode.{AlertCode, code_eq, code_eq_iff}
use sumpnet.Alerts.Table.{Alert, matches, update_where, find_where}
use sumpnet.Alerts.Table.Invariant.{ids, Fresh, Distinct}

module _ (p q : Alert → Bool) (f : Alert → Alert) where
  -- A query whose condition an update does not change finds the row that it found, updated.
  pub find-update :
      ((a : Alert) → p (f a) ≡ p a)
      → (rows : List Alert) (a : Alert) → find_where p rows ≡ some a
      → find_where p (update_where q f rows) ≡ some (if q a then f a else a)
  unfolding find_where update_where
  find-update same [] a h = cc
  find-update same (b ∷ rows) a h = ground (arith, same b, find-update same rows a)

  pub find-update_none :
      ((a : Alert) → p (f a) ≡ p a)
      → (rows : List Alert) → find_where p rows ≡ none
      → find_where p (update_where q f rows) ≡ none
  unfolding find_where update_where
  find-update_none same [] h = refl
  find-update_none same (b ∷ rows) h = ground (arith, same b, find-update_none same rows)

module _ (p : Alert → Bool) where
  pub find-append :
      (rows : List Alert) (a : Alert)
      → find_where p rows ≡ none
      → p a ≡ true
      → find_where p (rows ++ a ∷ []) ≡ some a
  unfolding find_where
  find-append [] a h e = rw e
  find-append (b ∷ rows) a h e = ground (arith, find-append rows a)

  pub find-holds : (rows : List Alert) (a : Alert) → find_where p rows ≡ some a → p a ≡ true
  unfolding find_where
  find-holds [] a h = cc
  find-holds (b ∷ rows) a h = ground (arith, find-holds rows a)

-- The rows of a device and a code, open or not.
abbrev pub rows_of : String → AlertCode → List Alert → List Alert
rows_of dev code [] = []
rows_of dev code (a ∷ rows) =
    let rest = rows_of dev code rows in if matches dev code a then a ∷ rest else rest

-- Every row that `q` selects satisfies `p`.
abbrev pub Selects : (Alert → Bool) → (Alert → Bool) → List Alert → Type 0
Selects q p [] = Unit
Selects q p (a ∷ rows) = (q a ≡ true → p a ≡ true) × Selects q p rows

-- Two episodes of different devices or codes.
abbrev pub Differ : String → AlertCode → String → AlertCode → Type 0
Differ dev code d k = (str_eq dev d && code_eq code k) ≡ false

not_both :
    (dev d : String) (code k : AlertCode) (a : Alert)
    → Differ dev code d k
    → matches dev code a ≡ true
    → matches d k a ≡ false
not_both dev d code k a ne m = ground (
  arith,
  eq_iff dev d,
  eq_iff a.device_id dev,
  eq_iff a.device_id d,
  code_eq_iff code k,
  code_eq_iff a.code code,
  code_eq_iff a.code k,
)

module _ (dev d : String) (code k : AlertCode) (ne : Differ dev code d k) where
  -- An update of rows of one episode that keeps device and code leaves the other episodes' rows.
  pub rows_of-update :
      (q : Alert → Bool) (f : Alert → Alert)
      → ((a : Alert) → matches d k (f a) ≡ matches d k a)
      → (rows : List Alert) → Selects q (matches dev code) rows
      → rows_of d k (update_where q f rows) ≡ rows_of d k rows
  unfolding update_where
  rows_of-update q f same [] s = refl
  rows_of-update q f same (a ∷ rows) s = elim (Bool-cases (q a)) [
    | inl e ↦
        let o = not_both dev d code k a ne (s.0 e) in
        rw e (rw (o, same a ∙ o) (rows_of-update q f same rows s.1))
    | inr e ↦ rw e (rw (rows_of-update q f same rows s.1))
  ]

  pub rows_of-append :
      (rows : List Alert) (a : Alert)
      → matches dev code a ≡ true
      → rows_of d k (rows ++ a ∷ []) ≡ rows_of d k rows
  rows_of-append [] a m = rw (not_both dev d code k a ne m)
  rows_of-append (b ∷ rows) a m = rw (rows_of-append rows a m)

Fresh-found :
    (p : Alert → Bool) (n : ℕ) (rows : List Alert) (a : Alert)
    → Fresh n (ids rows)
    → find_where p rows ≡ some a
    → a.id ≢ n
unfolding find_where
Fresh-found p n [] a fr h = cc
Fresh-found p n (b ∷ rows) a fr h = ground (arith, Fresh-found p n rows a fr.1)

Fresh-Selects :
    (p : Alert → Bool) (n : ℕ) (rows : List Alert)
    → Fresh n (ids rows)
    → Selects (λ b. b.id == n) p rows
Fresh-Selects p n [] fr = tt
Fresh-Selects p n (b ∷ rows) fr = (λ e. absurd (fr.0 (ground arith)), Fresh-Selects p n rows fr.1)

-- The id of a row that a query found selects no row that the query's condition rejects.
pub found-Selects :
    (p : Alert → Bool) (rows : List Alert) (a : Alert)
    → Distinct (ids rows)
    → find_where p rows ≡ some a
    → Selects (λ b. b.id == a.id) p rows
unfolding find_where
found-Selects p [] a dist h = tt
found-Selects p (b ∷ rows) a dist h = elim (Bool-cases (p b)) [
  | inl e ↦
      let same : b ≡ a = cc (rw (e, find_where) at h) in
      (
        λ x. e,
        subst (λ (c : Alert). Selects (λ x. x.id == c.id) p rows) same
            (Fresh-Selects p b.id rows dist.0),
      )
  | inr e ↦
      let h' : find_where p rows ≡ some a = rw (e, find_where) at h in
      (
        λ x. absurd (Fresh-found p b.id rows a dist.0 h' (ground arith)),
        found-Selects p rows a dist.1 h',
      )
]
