-- ===== src/Store/Again.antt =====
-- A batch that is sent again, as after a lost acknowledgement.
use sumpnet.Prelude.{ℕ, ◌≡◌, refl, Bool, List, [], ◌∷◌, subst}
use sumpnet.Prelude.Result.{Result, ok, ok_inj}
use sumpnet.Store.{
  Telemetry, Database, Store, BatchResult, Answer, Faults, staged, merge_stage, written, insert,
}
use sumpnet.Store.Merge.{merge_stage_again, merge_stage-there}
use sumpnet.Store.Outcome.{Outcome, insert-Outcome}
use sumpnet.Store.Refine.{insert-Refines}

module _ {R : Type 0} ⦃t : Telemetry R⦄ where
  -- The table and the hints are the same, and no row was accepted.
  pub record IsIdle (before after : Database R) (res : BatchResult) : Type 0 where
    pub same_rows : after.rows ≡ before.rows
    pub same_hints : after.notified ≡ before.notified
    pub none_new : res.accepted ≡ 0

  written-IsIdle :
      (auto : Bool) (db : Database R) (r : R) (rows : List R)
      → let once = (written auto db r rows).0 in
        staged auto once.devices (r ∷ rows) ≡ staged auto db.devices (r ∷ rows)
        → IsIdle once (written auto once r rows).0 (written auto once r rows).1
  unfolding written
  written-IsIdle auto db r rows h =
      let stage = staged auto db.devices (r ∷ rows) in
      let merged = (merge_stage db.rows stage).0 in
      let idle : merge_stage merged stage ≡ (merged, 0) =
        merge_stage_again merged stage (merge_stage-there db.rows stage) in
      record {
        same_rows = rw (h, idle) refl;
        same_hints = rw (h, idle) refl;
        none_new = rw (h, idle) refl;
      }

  Outcome-IsIdle :
      {E : Type 0} (auto : Bool) (db : Database R) (r : R) (rows : List R) (db1 db2 : Database R)
      (out1 out2 : Result E BatchResult) (res1 res2 : BatchResult)
      → staged auto db1.devices (r ∷ rows) ≡ staged auto db.devices (r ∷ rows)
      → Outcome E auto db r rows db1 out1
      → Outcome E auto db1 r rows db2 out2
      → out1 ≡ ok res1
      → out2 ≡ ok res2
      → IsIdle db1 db2 res2
  Outcome-IsIdle auto db r rows db1 db2 out1 out2 res1 res2 st (Outcome.committed w e)
        (Outcome.committed v f) h k =
      let idle : IsIdle db1 (written auto db1 r rows).0 (written auto db1 r rows).1 =
        subst
          (λ x.
            staged auto x.0.devices (r ∷ rows) ≡ staged auto db.devices (r ∷ rows)
            → IsIdle x.0 (written auto x.0 r rows).0 (written auto x.0 r rows).1)
          e (written-IsIdle auto db r rows) st in
      subst (IsIdle db1 db2) (ok_inj v.1 res2 k) (subst (λ x. IsIdle db1 x.0 x.1) f idle)
  Outcome-IsIdle auto db r rows db1 db2 out1 out2 res1 res2 st (Outcome.rolled_back x) o h k = cc
  Outcome-IsIdle auto db r rows db1 db2 out1 out2 res1 res2 st (Outcome.committed w e)
        (Outcome.rolled_back x) h k =
      cc

  module _ {E : Type 0} (duplicate : E) where
    -- Where a batch was inserted with success and any replica with the same registration mode
    -- inserts it again with success, the second insert accepts no row, sends no hint, and leaves
    -- the table as the first left it.
    pub insert_again :
        (faults faults' : Faults E) (answers answers' : ℕ → ℕ → Answer E) (s s' : Store)
        (db : Database R) (rows : List R) (res res' : BatchResult)
        → s'.auto_register ≡ s.auto_register
        → (insert duplicate faults answers s db rows).1 ≡ ok res
        → let db1 = (insert duplicate faults answers s db rows).0.1 in
          (insert duplicate faults' answers' s' db1 rows).1 ≡ ok res'
          → IsIdle db1 (insert duplicate faults' answers' s' db1 rows).0.1 res'
    unfolding insert
    insert_again faults faults' answers answers' s s' db [] res res' m h k =
        subst (IsIdle db db) (ok_inj _ res' k)
          (record { same_rows = refl; same_hints = refl; none_new = refl })
    insert_again faults faults' answers answers' s s' db (r ∷ rows) res res' m h k =
        let (s1, db1) = (insert duplicate faults answers s db (r ∷ rows)).0 in
        let (s2, db2) = (insert duplicate faults' answers' s' db1 (r ∷ rows)).0 in
        let admits = (insert-Refines duplicate faults answers s db (r ∷ rows)).admits in
        let second =
          subst
            (λ mode.
              Outcome E mode db1 r rows db2 (insert duplicate faults' answers' s' db1 (r ∷ rows)).1)
            m (insert-Outcome duplicate faults' answers' s' db1 r rows) in
        Outcome-IsIdle s.auto_register db r rows db1 db2 _ _ res res' (admits (r ∷ rows))
          (insert-Outcome duplicate faults answers s db r rows) second h k
