-- ===== src/Store/Admitted.antt =====
-- The accepted and the duplicate rows of an insert are the rows of the batch that it admits.
use sumpnet.Prelude.{ℕ, ◌+◌, ◌≡◌, sym, ap, Bool, List, [], ◌∷◌, arith, length, subst}
use sumpnet.Prelude.Result.{Result, ok, ok_inj}
use sumpnet.Store.{
  Telemetry, Database, Store, BatchResult, Answer, Faults, Device, staged, written, insert,
}
use sumpnet.Store.Merge.{merge_stage-length}
use sumpnet.Store.Outcome.{Outcome, insert-Outcome}
use sumpnet.Store.Counts.{length-staged}
use sumpnet.Store.Refine.{staged_nil}

module _ {R : Type 0} ⦃t : Telemetry R⦄ where
  abbrev pub Admits : Bool → List Device → List R → BatchResult → Type 0
  Admits auto devices rows res = res.accepted + res.duplicates ≡ length (staged auto devices rows)

  written-Admits :
      (auto : Bool) (db : Database R) (r : R) (rows : List R)
      → Admits auto db.devices (r ∷ rows) (written auto db r rows).1
  unfolding written
  written-Admits auto db r rows =
      let stage = staged auto db.devices (r ∷ rows) in
      let (grown, few) = merge_stage-length db.rows stage in
      omega (arith, few, length-staged auto db.devices (r ∷ rows))

  Outcome-Admits :
      {E : Type 0} (auto : Bool) (db : Database R) (r : R) (rows : List R) (db1 : Database R)
      (out : Result E BatchResult) (res : BatchResult)
      → Outcome E auto db r rows db1 out
      → out ≡ ok res
      → Admits auto db.devices (r ∷ rows) res
  Outcome-Admits auto db r rows db1 out res (Outcome.committed w e) h =
      subst (Admits auto db.devices (r ∷ rows)) (ok_inj w.1 res h)
        (subst (λ x. Admits auto db.devices (r ∷ rows) x.1) e (written-Admits auto db r rows))
  Outcome-Admits auto db r rows db1 out res (Outcome.rolled_back e) h = cc

  module _ {E : Type 0} (duplicate : E) where
    pub insert-Admits :
        (faults : Faults E) (answers : ℕ → ℕ → Answer E) (s : Store) (db : Database R)
        (rows : List R) (res : BatchResult)
        → (insert duplicate faults answers s db rows).1 ≡ ok res
        → Admits s.auto_register db.devices rows res
    unfolding insert
    insert-Admits faults answers s db [] res h =
        subst (Admits s.auto_register db.devices []) (ok_inj _ res h)
          (ap length (sym (staged_nil s.auto_register db.devices)))
    insert-Admits faults answers s db (r ∷ rows) res h =
        Outcome-Admits s.auto_register db r rows _ _ res
          (insert-Outcome duplicate faults answers s db r rows) h
