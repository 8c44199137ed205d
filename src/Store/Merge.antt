-- ===== src/Store/Merge.antt =====
-- The merge of staged rows into a table, read as a function from keys to rows.
use sumpnet.Prelude.{
  ◌+◌, ◌≤◌, ◌≡◌, refl, Bool, true, false, ◌||◌, List, [], ◌∷◌, ◌++◌, Option, none, some,
  if◌then◌else◌, Bool-cases, inl, inr, length, length-append, arith, append_nil, Option-cases,
}
use sumpnet.Prelude.Words.{word_eq_refl, eq_of_word_eq}
use sumpnet.Store.{Key, key_eq, Telemetry, has_key, merge_row, merge_stage}

pub key_eq_refl : (k : Key) → key_eq k k ≡ true
unfolding key_eq
key_eq_refl k = ground (arith, word_eq_refl k.device)

pub eq_of_key_eq : (a b : Key) → key_eq a b ≡ true → a ≡ b
unfolding key_eq
eq_of_key_eq a b h = ground (arith, eq_of_word_eq a.device b.device)

abbrev pub or_else : {A : Type 0} → Option A → Option A → Option A
or_else none b = b
or_else (some a) b = some a

abbrev pub is_some : {A : Type 0} → Option A → Bool
is_some none = false
is_some (some a) = true

or_true : (b : Bool) → (b || true) ≡ true
or_true true = refl
or_true false = refl

or_false : (a b : Bool) → (a || b) ≡ false → (a ≡ false) × (b ≡ false)
or_false true b h = cc
or_false false b h = (refl, h)

key_eq-false : (a b : Key) → key_eq a b ≡ false → key_eq b a ≡ false
key_eq-false a b h = elim (Bool-cases (key_eq b a)) [
  | inr e ↦ e
  | inl e ↦
      let same : b ≡ a = eq_of_key_eq b a e in
      let yes : key_eq a b ≡ true = rw same (key_eq_refl a) in cc
]

module _ {R : Type 0} ⦃t : Telemetry R⦄ where
  -- The first row of a list that has the key.
  unfoldable pub first_with : Key → List R → Option R
  first_with k [] = none
  first_with k (r ∷ rows) =
      let rest = first_with k rows in if key_eq (t.key r) k then some r else rest

  -- No two rows have the same key.
  unfoldable pub AreDistinct : List R → Type 0
  AreDistinct [] = Unit
  AreDistinct (r ∷ rows) = (has_key (t.key r) rows ≡ false) × AreDistinct rows

  pub has_key-first : (k : Key) (rows : List R) → has_key k rows ≡ is_some (first_with k rows)
  unfolding has_key first_with
  has_key-first k [] = refl
  has_key-first k (r ∷ rows) = ground (arith, has_key-first k rows)

  has_key-append :
      (k : Key) (rows more : List R) → has_key k (rows ++ more) ≡ (has_key k rows || has_key k more)
  unfolding has_key
  has_key-append k [] more = refl
  has_key-append k (r ∷ rows) more = ground (arith, has_key-append k rows more)

  pub first_with-append :
      (k : Key) (rows more : List R)
      → first_with k (rows ++ more) ≡ or_else (first_with k rows) (first_with k more)
  unfolding first_with
  first_with-append k [] more = refl
  first_with-append k (r ∷ rows) more = ground (arith, first_with-append k rows more)

  conflict_first :
      (k : Key) (rows : List R) (r : R)
      → has_key (t.key r) rows ≡ true
      → or_else (first_with k rows) (first_with k (r ∷ [])) ≡ first_with k rows
  unfolding first_with
  conflict_first k rows r h = elim (Option-cases (first_with k rows)) [
    | inr e ↦ rw (e.1) refl
    | inl e ↦ elim (Bool-cases (key_eq (t.key r) k)) [
      | inr d ↦ rw (e, d) refl
      | inl d ↦
          let same : t.key r ≡ k = eq_of_key_eq (t.key r) k d in
          let there : is_some (first_with k rows) ≡ true = rw (← has_key-first k rows, ← same) h in
          cc
    ]
  ]

  -- A row that conflicts is as good as appended: the first one with its key is found.
  pub merge_row-first :
      (k : Key) (rows : List R) (r : R)
      → first_with k (merge_row rows r).0 ≡ first_with k (rows ++ r ∷ [])
  unfolding merge_row
  merge_row-first k rows r = elim (Bool-cases (has_key (t.key r) rows)) [
    | inl e ↦ rw (e, first_with-append k rows (r ∷ []), conflict_first k rows r e) refl
    | inr e ↦ rw e refl
  ]

  assoc_else : (a b c : Option R) → or_else (or_else a b) c ≡ or_else a (or_else b c)
  assoc_else none b c = refl
  assoc_else (some x) b c = refl

  -- The table after a merge reads as the table with the stage behind it.
  pub merge_stage-first :
      (k : Key) (rows stage : List R)
      → first_with k (merge_stage rows stage).0 ≡ first_with k (rows ++ stage)
  unfolding merge_stage
  merge_stage-first k rows [] = rw (append_nil rows) refl
  merge_stage-first k rows (r ∷ stage) =
      let one = first_with-append k (r ∷ []) stage in
      rw
        (
          merge_stage-first k (merge_row rows r).0 stage,
          first_with-append k (merge_row rows r).0 stage,
          merge_row-first k rows r,
          first_with-append k rows (r ∷ []),
          first_with-append k rows (r ∷ stage),
          assoc_else (first_with k rows) (first_with k (r ∷ [])) (first_with k stage),
          one,
        )
        refl

  merge_row-length :
      (rows : List R) (r : R)
      → (length (merge_row rows r).0 ≡ length rows + (merge_row rows r).1)
        × ((merge_row rows r).1 ≤ 1)
  unfolding merge_row
  merge_row-length rows r = elim (Bool-cases (has_key (t.key r) rows)) [
    | inl e ↦ rw e (omega arith, omega arith)
    | inr e ↦ rw e (length-append rows (r ∷ []), omega arith)
  ]

  -- The number reported is the number of rows by which the table grew, at most the stage's.
  pub merge_stage-length :
      (rows stage : List R)
      → (length (merge_stage rows stage).0 ≡ length rows + (merge_stage rows stage).1)
        × ((merge_stage rows stage).1 ≤ length stage)
  unfolding merge_stage
  merge_stage-length rows [] = (omega arith, omega arith)
  merge_stage-length rows (r ∷ stage) =
      let rest = merge_stage-length (merge_row rows r).0 stage in
      let row = merge_row-length rows r in
      (omega (arith, rest.0, row.0), omega (arith, rest.1, row.1))

  has_key-AreDistinct :
      (rows : List R) (r : R)
      → has_key (t.key r) rows ≡ false
      → AreDistinct rows
      → AreDistinct (rows ++ r ∷ [])
  unfolding AreDistinct has_key
  has_key-AreDistinct [] r h d = (refl, tt)
  has_key-AreDistinct (s ∷ rows) r h d =
      let (apart, new) = or_false (key_eq (t.key s) (t.key r)) (has_key (t.key r) rows) h in
      (
        rw (has_key-append (t.key s) rows (r ∷ []), d.0, key_eq-false (t.key s) (t.key r) apart)
            refl,
        has_key-AreDistinct rows r new d.1,
      )

  pub merge_stage-AreDistinct :
      (rows stage : List R) → AreDistinct rows → AreDistinct (merge_stage rows stage).0
  unfolding merge_stage merge_row
  merge_stage-AreDistinct rows [] d = d
  merge_stage-AreDistinct rows (r ∷ stage) d = elim (Bool-cases (has_key (t.key r) rows)) [
    | inl e ↦ rw e (merge_stage-AreDistinct rows stage d)
    | inr e ↦ rw e (merge_stage-AreDistinct (rows ++ r ∷ []) stage (has_key-AreDistinct rows r e d))
  ]

  -- Every key of the stage is in the table.
  abbrev pub AllThere : List R → List R → Type 0
  AllThere rows [] = Unit
  AllThere rows (r ∷ stage) = (has_key (t.key r) rows ≡ true) × AllThere rows stage

  pub merge_stage_again :
      (rows stage : List R) → AllThere rows stage → merge_stage rows stage ≡ (rows, 0)
  unfolding merge_stage merge_row
  merge_stage_again rows [] h = refl
  merge_stage_again rows (r ∷ stage) h = rw h.0 (rw (merge_stage_again rows stage h.1) refl)

  pub merge_stage-has_key :
      (rows stage : List R) (k : Key)
      → has_key k (merge_stage rows stage).0 ≡ (has_key k rows || has_key k stage)
  merge_stage-has_key rows stage k =
      rw
        (
          has_key-first k (merge_stage rows stage).0,
          merge_stage-first k rows stage,
          ← has_key-first k (rows ++ stage),
        )
        (has_key-append k rows stage)

  all_there :
      (rows stage : List R)
      → ((k : Key) → has_key k stage ≡ true → has_key k rows ≡ true)
      → AllThere rows stage
  unfolding has_key
  all_there rows [] h = tt
  all_there rows (r ∷ stage) h = (
    h (t.key r) (rw (key_eq_refl (t.key r)) refl),
    all_there rows stage (λ k e. h k (rw e (or_true (key_eq (t.key r) k)))),
  )

  pub merge_stage-there : (rows stage : List R) → AllThere (merge_stage rows stage).0 stage
  merge_stage-there rows stage =
      all_there (merge_stage rows stage).0 stage
        λ k e. rw (merge_stage-has_key rows stage k, e) (or_true (has_key k rows))
