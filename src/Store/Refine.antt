-- ===== src/Store/Refine.antt =====
-- Any sequence of inserts against a log: the table holds, for every key, the first row of the log
-- that has it.
use sumpnet.Prelude.{
  ℕ, ◌≡◌, refl, Bool, true, false, List, [], ◌∷◌, ◌++◌, Bool-cases, inl, inr, append_assoc,
  append_nil, subst,
}
use sumpnet.Prelude.Result.{Result, ok, err}
use sumpnet.Prelude.Words.{word_eq}
use sumpnet.Store.{
  Key, Telemetry, Database, Store, BatchResult, Answer, Faults, Device, staged, of_known,
  register_devices, written, insert, is_known, touch, touch_all, groups_of,
}
use sumpnet.Store.Merge.{
  first_with, AreDistinct, first_with-append, merge_stage-first, merge_stage-AreDistinct,
}
use sumpnet.Store.Outcome.{Outcome, insert-Outcome, insert_keeps_mode}

touch_known :
    (dev : List ℕ) (at : ℕ) (devices : List Device) (d : List ℕ)
    → is_known (touch dev at devices) d ≡ is_known devices d
unfolding touch is_known
touch_known dev at [] d = refl
touch_known dev at (e ∷ devices) d = elim (Bool-cases (word_eq e.dev_eui dev)) [
  | inl h ↦ rw (h, touch_known dev at devices d) refl
  | inr h ↦ rw (h, touch_known dev at devices d) refl
]

touch_all_known :
    (groups : List (List ℕ × ℕ)) (devices : List Device) (d : List ℕ)
    → is_known (touch_all groups devices) d ≡ is_known devices d
unfolding touch_all
touch_all_known [] devices d = refl
touch_all_known (g ∷ groups) devices d =
    rw (touch_all_known groups (touch g.0 g.1 devices) d, touch_known g.0 g.1 devices d) refl

-- A call of insert, with what the database does on it.
pub record Call (R E : Type 0) : Type 0 where
  pub faults : Faults E
  pub answers : ℕ → ℕ → Answer E
  pub rows : List R

-- The rows that a call reports as stored or known, if it does not fail.
abbrev pub acknowledged : {R E : Type 0} → Result E BatchResult → List R → List R
acknowledged (ok res) rows = rows
acknowledged (err e) rows = []

module _ {R : Type 0} ⦃t : Telemetry R⦄ where
  pub staged-append :
      (auto : Bool) (devices : List Device) (xs ys : List R)
      → staged auto devices (xs ++ ys) ≡ staged auto devices xs ++ staged auto devices ys
  unfolding staged of_known
  staged-append true devices xs ys = refl
  staged-append false devices [] ys = refl
  staged-append false devices (x ∷ xs) ys = elim (Bool-cases (is_known devices (t.key x).device)) [
    | inl h ↦ rw (h, staged-append false devices xs ys) refl
    | inr h ↦ rw (h, staged-append false devices xs ys) refl
  ]

  -- Registering admits no other rows than before.
  register-staged :
      (auto : Bool) (stage : List R) (devices : List Device) (xs : List R)
      → staged auto (register_devices auto stage devices) xs ≡ staged auto devices xs
  unfolding staged of_known register_devices
  register-staged true stage devices xs = refl
  register-staged false stage devices [] = refl
  register-staged false stage devices (x ∷ xs) =
      rw
        (
          touch_all_known (groups_of stage) devices (t.key x).device,
          register-staged false stage devices xs,
        )
        refl

  -- What one insert means: the table reads as before with the acknowledged rows behind it.
  pub record Refines (auto : Bool) (db db1 : Database R) (acked : List R) : Type 0 where
    pub reads :
        (k : Key) → first_with k db1.rows ≡ first_with k (db.rows ++ staged auto db.devices acked)
    pub admits : (xs : List R) → staged auto db1.devices xs ≡ staged auto db.devices xs
    pub distinct : AreDistinct db.rows → AreDistinct db1.rows

  pub staged_nil : (auto : Bool) (devices : List Device) → staged {R = R} auto devices [] ≡ []
  unfolding staged of_known
  staged_nil true devices = refl
  staged_nil false devices = refl

  written-Refines :
      (auto : Bool) (db : Database R) (r : R) (rows : List R)
      → Refines auto db (written auto db r rows).0 (r ∷ rows)
  unfolding written
  written-Refines auto db r rows =
      let stage = staged auto db.devices (r ∷ rows) in
      record {
        reads = λ k. merge_stage-first k db.rows stage;
        admits = register-staged auto stage db.devices;
        distinct = merge_stage-AreDistinct db.rows stage;
      }

  pub unchanged-Refines : (auto : Bool) (db : Database R) → Refines auto db db []
  unchanged-Refines auto db = record {
    reads = λ k. rw (staged_nil auto db.devices, append_nil db.rows) refl;
    admits = λ xs. refl;
    distinct = λ d. d;
  }

  Outcome-Refines :
      {E : Type 0} (auto : Bool) (db : Database R) (r : R) (rows : List R) (db1 : Database R)
      (res : Result E BatchResult)
      → Outcome E auto db r rows db1 res
      → Refines auto db db1 (acknowledged res (r ∷ rows))
  Outcome-Refines auto db r rows db1 res (Outcome.committed out e) =
      subst (λ w. Refines auto db w.0 (r ∷ rows)) e (written-Refines auto db r rows)
  Outcome-Refines auto db r rows db1 res (Outcome.rolled_back e) = unchanged-Refines auto db

  pub Refines-trans :
      (auto : Bool) (db db1 db2 : Database R) (xs ys : List R)
      → Refines auto db db1 xs
      → Refines auto db1 db2 ys
      → Refines auto db db2 (xs ++ ys)
  Refines-trans auto db db1 db2 xs ys f g = record {
    reads = λ k.
        rw
          (
            g.reads k,
            first_with-append k db1.rows (staged auto db1.devices ys),
            f.reads k,
            f.admits ys,
            ← first_with-append k (db.rows ++ staged auto db.devices xs)
                (staged auto db.devices ys),
            append_assoc db.rows (staged auto db.devices xs) (staged auto db.devices ys),
            staged-append auto db.devices xs ys,
          )
          refl;
    admits = λ zs. rw (g.admits zs) (f.admits zs);
    distinct = λ d. g.distinct (f.distinct d);
  }

  module _ {E : Type 0} (duplicate : E) where
    pub insert-Refines :
        (faults : Faults E) (answers : ℕ → ℕ → Answer E) (s : Store) (db : Database R)
        (rows : List R)
        → let out = insert duplicate faults answers s db rows in
          Refines s.auto_register db out.0.1 (acknowledged out.1 rows)
    unfolding insert
    insert-Refines faults answers s db [] = unchanged-Refines s.auto_register db
    insert-Refines faults answers s db (r ∷ rows) =
        Outcome-Refines s.auto_register db r rows _ _
          (insert-Outcome duplicate faults answers s db r rows)

    pub insert-mode :
        (faults : Faults E) (answers : ℕ → ℕ → Answer E) (s : Store) (db : Database R)
        (rows : List R)
        → (insert duplicate faults answers s db rows).0.0.auto_register ≡ s.auto_register
    unfolding insert
    insert-mode faults answers s db [] = refl
    insert-mode faults answers s db (r ∷ rows) =
        insert_keeps_mode duplicate faults answers s db r rows

    -- Inserts in sequence: the store and database after them, and the rows acknowledged, in order.
    unfoldable pub run : List (Call R E) → Store → Database R → (Store × Database R) × List R
    run [] s db = ((s, db), [])
    run (c ∷ calls) s db =
        let out = insert duplicate c.faults c.answers s db c.rows in
        let (end, rest) = run calls out.0.0 out.0.1 in (end, acknowledged out.1 c.rows ++ rest)

    run-Refines :
        (calls : List (Call R E)) (s : Store) (db : Database R)
        → Refines s.auto_register db (run calls s db).0.1 (run calls s db).1
    unfolding run
    run-Refines [] s db = unchanged-Refines s.auto_register db
    run-Refines (c ∷ calls) s db =
        let out = insert duplicate c.faults c.answers s db c.rows in
        let (s1, db1) = out.0 in
        let first = insert-Refines c.faults c.answers s db c.rows in
        let rest =
          subst (λ mode. Refines mode db1 (run calls s1 db1).0.1 (run calls s1 db1).1)
            (insert-mode c.faults c.answers s db c.rows) (run-Refines calls s1 db1) in
        Refines-trans s.auto_register db db1 (run calls s1 db1).0.1 (acknowledged out.1 c.rows)
          (run calls s1 db1).1 first rest

    -- After any sequence of inserts on which any statement may fail, from a table without two rows of
    -- the same key, the table has no two rows of the same key and holds for every key the first row
    -- with that key of a log: the rows at the start, then the rows of the batches that were
    -- acknowledged, in order, without those of devices unknown at the start where devices are not
    -- registered automatically.
    pub run_refines :
        (calls : List (Call R E)) (s : Store) (db : Database R)
        → AreDistinct db.rows
        → let out = run calls s db in
          ((k : Key)
            → first_with k out.0.1.rows
              ≡ first_with k (db.rows ++ staged s.auto_register db.devices out.1))
          × AreDistinct out.0.1.rows
    run_refines calls s db d = let all = run-Refines calls s db in (all.reads, all.distinct d)
