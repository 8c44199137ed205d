-- ===== src/Store/Counts.antt =====
-- What an insert reports: its counts, its wake-up hint, and a batch that is sent again.
use sumpnet.Prelude.{
  ℕ, ◌+◌, ◌≡◌, ◌≤◌, ◌<◌, refl, Bool, true, false, List, [], ◌∷◌, ◌++◌, if◌then◌else◌, Bool-cases,
  inl, inr, arith, length, ltb, map, min, max, subst, ◌⊎◌, ltb→lt,
}
use sumpnet.Prelude.Result.{Result, ok, ok_inj}
use sumpnet.Store.{
  Telemetry, Database, Store, BatchResult, Answer, Faults, Device, Notification, staged, of_known,
  merge_stage, written, insert, is_known, hint, least, most, time_of,
}
use sumpnet.Store.Merge.{merge_stage-length}
use sumpnet.Store.Outcome.{Outcome, insert-Outcome}

-- Every time of the list lies between the two.
abbrev pub AllWithin : ℕ → ℕ → List ℕ → Type 0
AllWithin lo hi [] = Unit
AllWithin lo hi (u ∷ times) = (lo ≤ u) × (u ≤ hi) × AllWithin lo hi times

least-le : (t : ℕ) (times : List ℕ) → least t times ≤ t
unfolding least
least-le t [] = omega arith
least-le t (u ∷ times) = omega (arith, least-le (min t u) times)

most-ge : (t : ℕ) (times : List ℕ) → t ≤ most t times
unfolding most
most-ge t [] = omega arith
most-ge t (u ∷ times) = omega (arith, most-ge (max t u) times)

least-most : (a b : ℕ) (times : List ℕ) → AllWithin (least a times) (most b times) times
unfolding least most
least-most a b [] = tt
least-most a b (u ∷ times) = (
  omega (arith, least-le (min a u) times),
  omega (arith, most-ge (max b u) times),
  least-most (min a u) (max b u) times,
)

module _ {R : Type 0} ⦃t : Telemetry R⦄ where
  pub length-staged :
      (auto : Bool) (devices : List Device) (rows : List R)
      → length (staged auto devices rows) ≤ length rows
  unfolding staged of_known
  length-staged true devices rows = omega arith
  length-staged false devices [] = omega arith
  length-staged false devices (r ∷ rows) = elim (Bool-cases (is_known devices (t.key r).device)) [
    | inl h ↦ rw h (omega (arith, length-staged false devices rows))
    | inr h ↦ rw h (omega (arith, length-staged false devices rows))
  ]

  -- The wake-up hint of an insert of n new rows.
  pub record IsHint (rows : List R) (n : ℕ) (x : Notification) : Type 0 where
    pub counted : x.n ≡ n
    pub named : x.table ≡ t.name
    pub spans : AllWithin x.min_ts x.max_ts (map (λ r. time_of r) rows)

  -- The counts of an insert of `rows` from db to db1.
  pub record Accounts (rows : List R) (db db1 : Database R) (res : BatchResult) : Type 0 where
    pub adds_up : res.accepted + res.duplicates + res.rejected ≡ length rows
    pub grown : length db1.rows ≡ length db.rows + res.accepted
    pub announced :
        ((res.accepted ≡ 0) × (db1.notified ≡ db.notified))
        ⊎ ((0 < res.accepted)
            × (x : Notification) × (db1.notified ≡ db.notified ++ x ∷ [])
            × IsHint rows res.accepted x)

  hint-IsHint : (n : ℕ) (r : R) (rows : List R) → IsHint (r ∷ rows) n (hint n r rows)
  unfolding hint
  hint-IsHint n r rows =
      let times = map (λ x. time_of x) rows in
      record {
        counted = refl;
        named = refl;
        spans = (
          least-le (time_of r) times,
          most-ge (time_of r) times,
          least-most (time_of r) (time_of r) times,
        );
      }

  told :
      (n : ℕ) (before : List Notification) (r : R) (rows : List R)
      → let after = if ltb 0 n then before ++ hint n r rows ∷ [] else before in
        ((n ≡ 0) × (after ≡ before))
        ⊎ ((0 < n) × (x : Notification) × (after ≡ before ++ x ∷ []) × IsHint (r ∷ rows) n x)
  told n before r rows = elim (Bool-cases (ltb 0 n)) [
    | inl e ↦ rw e (inr (ltb→lt 0 n e, hint n r rows, refl, hint-IsHint n r rows))
    | inr e ↦ rw e (inl (ground arith, refl))
  ]

  written-Accounts :
      (auto : Bool) (db : Database R) (r : R) (rows : List R)
      → let out = written auto db r rows in Accounts (r ∷ rows) db out.0 out.1
  unfolding written
  written-Accounts auto db r rows =
      let stage = staged auto db.devices (r ∷ rows) in
      let (grown, few) = merge_stage-length db.rows stage in
      let n = (merge_stage db.rows stage).1 in
      record {
        adds_up = omega (arith, few, length-staged auto db.devices (r ∷ rows));
        grown = grown;
        announced = told n db.notified r rows;
      }

  Outcome-Accounts :
      {E : Type 0} (auto : Bool) (db : Database R) (r : R) (rows : List R) (db1 : Database R)
      (out : Result E BatchResult) (res : BatchResult)
      → Outcome E auto db r rows db1 out
      → out ≡ ok res
      → Accounts (r ∷ rows) db db1 res
  Outcome-Accounts auto db r rows db1 out res (Outcome.committed w e) h =
      let same : w.1 ≡ res = ok_inj w.1 res h in
      subst (λ x. Accounts (r ∷ rows) db w.0 x) same
        (subst (λ x. Accounts (r ∷ rows) db x.0 x.1) e (written-Accounts auto db r rows))
  Outcome-Accounts auto db r rows db1 out res (Outcome.rolled_back e) h = cc

  empty-Accounts :
      (db : Database R) (res : BatchResult)
      → record { accepted = 0; duplicates = 0; rejected = 0 } ≡ res
      → Accounts [] db db res
  empty-Accounts db res h =
      subst (Accounts [] db db) h
        (record { adds_up = refl; grown = omega arith; announced = inl (refl, refl) })

  module _ {E : Type 0} (duplicate : E) where
    -- An insert that reports success accounts for the batch: every row is accepted, a duplicate or
    -- rejected, the table grew by the accepted rows, and a wake-up hint goes out exactly if there are
    -- any, which carries their number and a span of time that holds every row of the batch.
    pub insert-Accounts :
        (faults : Faults E) (answers : ℕ → ℕ → Answer E) (s : Store) (db : Database R)
        (rows : List R) (res : BatchResult)
        → (insert duplicate faults answers s db rows).1 ≡ ok res
        → Accounts rows db (insert duplicate faults answers s db rows).0.1 res
    unfolding insert
    insert-Accounts faults answers s db [] res h = empty-Accounts db res (ok_inj _ res h)
    insert-Accounts faults answers s db (r ∷ rows) res h =
        Outcome-Accounts s.auto_register db r rows _ _ res
          (insert-Outcome duplicate faults answers s db r rows) h
