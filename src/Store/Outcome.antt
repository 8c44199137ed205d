-- ===== src/Store/Outcome.antt =====
-- What one insert does: nothing to the database where it fails, and the merge of the admitted rows
-- where it commits.
use sumpnet.Prelude.{ℕ, ◌≡◌, refl, ap, Bool, List, ◌∷◌, ltb}
use sumpnet.Prelude.Result.{Result, ok, err, ◌>>◌, ok_inj, bind-ok}
use sumpnet.Store.{
  Telemetry, Database, Store, BatchResult, Answer, Faults, transaction, written, insert, prepare,
  settled, statements,
}

-- An insert either commits what its statements write, or fails and leaves the database as it was.
pub data Outcome {R : Type 0} ⦃t : Telemetry R⦄ (E : Type 0) (auto : Bool) (db : Database R) (r : R)
    (rows : List R) : Database R → Result E BatchResult → Type 0 where
  committed :
      (out : Database R × BatchResult)
      → written auto db r rows ≡ out
      → Outcome E auto db r rows out.0 (ok out.1)
  rolled_back : (e : E) → Outcome E auto db r rows db (err e)

module _ {R : Type 0} ⦃t : Telemetry R⦄ {E : Type 0} where
  settled-Outcome :
      (auto : Bool) (s : Store) (db : Database R) (r : R) (rows : List R)
      (tried : Result E (Database R × BatchResult))
      → ((out : Database R × BatchResult) → tried ≡ ok out → written auto db r rows ≡ out)
      → Outcome E auto db r rows (settled s db tried).0.1 (settled s db tried).1
  settled-Outcome auto s db r rows (ok out) h = committed out (h out refl)
  settled-Outcome auto s db r rows (err e) h = rolled_back e

  settled_keeps_mode :
      (s : Store) (db : Database R) (tried : Result E (Database R × BatchResult))
      → (settled s db tried).0.0 ≡ s
  settled_keeps_mode s db (ok out) = refl
  settled_keeps_mode s db (err e) = refl

module _ {R : Type 0} ⦃t : Telemetry R⦄ {E : Type 0} (duplicate : E) (faults : Faults E)
    (answers : ℕ → ℕ → Answer E) (s : Store) (db : Database R) (r : R) (rows : List R) where
  transaction-written :
      (ready : Result E Unit) (out : Database R × BatchResult)
      → (ready >> transaction duplicate faults s.auto_register db r rows) ≡ ok out
      → written s.auto_register db r rows ≡ out
  unfolding transaction
  transaction-written ready out h =
      let done = written s.auto_register db r rows in
      let (u, a, g) =
        bind-ok ready (λ u. transaction duplicate faults s.auto_register db r rows) out h in
      let (v, b, k) = bind-ok (statements faults (ltb 0 done.1.accepted)) (λ u. ok done) out g in
      ok_inj done out k

  abbrev result : (Store × Database R) × Result E BatchResult
  result = insert duplicate faults answers s db (r ∷ rows)

  -- Every insert of rows has one of the two outcomes.
  pub insert-Outcome : Outcome E s.auto_register db r rows result.0.1 result.1
  unfolding insert
  insert-Outcome =
      let (seen, ready) = prepare duplicate answers s.seen_months (r ∷ rows) in
      settled-Outcome s.auto_register (record s { seen_months = seen }) db r rows
        (ready >> transaction duplicate faults s.auto_register db r rows)
        (transaction-written ready)

  pub insert_keeps_mode : result.0.0.auto_register ≡ s.auto_register
  unfolding insert
  insert_keeps_mode =
      let (seen, ready) = prepare duplicate answers s.seen_months (r ∷ rows) in
      ap (λ s. s.auto_register)
        (settled_keeps_mode (record s { seen_months = seen }) db
          (ready >> transaction duplicate faults s.auto_register db r rows))
