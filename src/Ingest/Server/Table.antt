-- ===== src/Ingest/Server/Table.antt =====
-- Streams of one table against a log of the rows received: batching and interleaving leave no trace.
use sumpnet.Prelude.{
  ℕ, ◌+◌, ◌<◌, ◌≡◌, refl, sym, List, [], ◌∷◌, ◌++◌, length, arith, length-append, append_nil, subst,
  ap, ◌∙◌,
}
use sumpnet.Prelude.Result.{Result, ok}
use sumpnet.Store.{Key, Telemetry, BatchResult, Answer, Faults, staged, insert}
use sumpnet.Store.Merge.{first_with, AreDistinct}
use sumpnet.Store.Refine.{
  Refines, Refines-trans, unchanged-Refines, insert-Refines, insert-mode, acknowledged,
  staged-append, staged_nil,
}
use sumpnet.Store.Counts.{insert-Accounts, length-staged}
use sumpnet.Store.Admitted.{insert-Admits}
use sumpnet.Ingest.Stream.{Config, Counts, State, Run, IsDone, start, add_counts}
use sumpnet.Ingest.Stream.Order.{
  concat, Flushed, extract_all, run-InOrder, in_flight, concat-append,
}
use sumpnet.Ingest.Server.{World, Response, response_of, flush}

-- The totals of a stream add up to the admitted rows, and the table grew by the accepted ones.
pub record Totals (told : Response) (admitted before after : ℕ) : Type 0 where
  pub adds_up : told.accepted + told.duplicates ≡ admitted
  pub grown : after ≡ before + told.accepted

add_counts-Totals :
    (c : Counts) (res : BatchResult) (admitted more before mid after : ℕ)
    → Totals (response_of c) admitted before mid
    → res.accepted + res.duplicates ≡ more
    → after ≡ mid + res.accepted
    → admitted + more < 4294967296
    → Totals (response_of (add_counts c res)) (admitted + more) before after
unfolding add_counts response_of
add_counts-Totals c res admitted more before mid after h e g l = record {
  adds_up = omega (arith, h.adds_up, e);
  grown = omega (arith, h.grown, h.adds_up, e);
}

emptied : {A : Type 0} (xs rest ys : List A) → rest ≡ [] → xs ++ rest ≡ ys → xs ≡ ys
emptied xs rest ys e h = sym (append_nil xs) ∙ rw (← e) h

module _ {R : Type 0} ⦃t : Telemetry R⦄ where
  record Stores (w : World R) (rows : List R) (w1 : World R) (c : Counts) : Type 0 where
    mode : w1.store.auto_register ≡ w.store.auto_register
    refines : Refines w.store.auto_register w.db w1.db rows
    totals :
        length rows < 4294967296
        → Totals
            (response_of c)
            (length (staged w.store.auto_register w.db.devices rows))
            (length w.db.rows)
            (length w1.db.rows)

  -- What a stream leaves of its rows: `reads` says that the table holds for every key the first row
  -- with that key of the rows before and then the rows received, in order and without those of
  -- unknown devices where devices are not registered.
  pub record IsStored (w : World R) (rows : List R) (w1 : World R) (c : Counts) : Type 0 where
    pub reads :
        (k : Key)
        → first_with k w1.db.rows
          ≡ first_with k (w.db.rows ++ staged w.store.auto_register w.db.devices rows)
    pub distinct : AreDistinct w1.db.rows
    pub totals :
        Totals
          (response_of c)
          (length (staged w.store.auto_register w.db.devices rows))
          (length w.db.rows)
          (length w1.db.rows)

module _ {R E : Type 0} ⦃t : Telemetry R⦄ (duplicate : E) (faults : ℕ → Faults E)
    (answers : ℕ → ℕ → ℕ → Answer E) where
  abbrev flush_one : World R → List R → World R × Result E BatchResult
  flush_one = flush duplicate faults answers

  flush-Stores :
      (w w1 : World R) (rows b : List R) (c : Counts) (res : BatchResult)
      → Stores w rows w1 c
      → (flush_one w1 b).1 ≡ ok res
      → Stores w (rows ++ b) (flush_one w1 b).0 (add_counts c res)
  unfolding flush
  flush-Stores w w1 rows b c res h e =
      let f = faults w1.calls in
      let a = answers w1.calls in
      let ((s2, db2), out) = insert duplicate f a w1.store w1.db b in
      let second : Refines w.store.auto_register w1.db db2 b =
        subst (λ x. Refines w.store.auto_register w1.db db2 (acknowledged x b)) e
          (subst (λ mode. Refines mode w1.db db2 (acknowledged out b)) h.mode
            (insert-Refines duplicate f a w1.store w1.db b)) in
      let counted = insert-Accounts duplicate f a w1.store w1.db b res e in
      record {
        mode = insert-mode duplicate f a w1.store w1.db b ∙ h.mode;
        refines = Refines-trans w.store.auto_register w.db w1.db db2 rows b h.refines second;
        totals = λ small.
            let before = staged w.store.auto_register w.db.devices rows in
            let more = staged w.store.auto_register w.db.devices b in
            let told : res.accepted + res.duplicates ≡ length more =
              insert-Admits duplicate f a w1.store w1.db b res e
              ∙ ap length (ap (λ mode. staged mode w1.db.devices b) h.mode ∙ h.refines.admits b) in
            rw (staged-append w.store.auto_register w.db.devices rows b, length-append before more)
              (add_counts-Totals c res (length before) (length more) (length w.db.rows)
                (length w1.db.rows) (length db2.rows)
                (h.totals (omega (arith, length-append rows b))) told counted.grown
                (omega (
                  arith,
                  length-append rows b,
                  length-staged w.store.auto_register w.db.devices rows,
                  length-staged w.store.auto_register w.db.devices b,
                )));
      }

  Flushed-Stores :
      (w w1 : World R) (batches : List (List R)) (c : Counts)
      → Flushed flush_one w batches w1 c
      → Stores w (concat batches) w1 c
  unfolding concat response_of
  Flushed-Stores w _ _ _ Flushed.none_yet = record {
    mode = refl;
    refines = unchanged-Refines w.store.auto_register w.db;
    totals = λ small. record {
      adds_up = ap length (sym (staged_nil w.store.auto_register w.db.devices));
      grown = omega arith;
    };
  }
  Flushed-Stores w w2 _ _ (Flushed.next batches w1 c b res f e) =
      let rest = Flushed-Stores w w1 batches c f in
      rw (concat-append batches (b ∷ []), append_nil b)
        (subst (λ x. Stores w (concat batches ++ b) x (add_counts c res)) (ap (λ p. p.0) e)
          (flush-Stores w w1 (concat batches) b c res rest (ap (λ p. p.1) e)))

  done_in_flight : (s : State R (World R) E) → IsDone s → in_flight s ≡ []
  unfolding in_flight concat
  done_in_flight s d = rw (d.none_storing, d.none_queued, d.none_pushing, d.no_rows) refl

  -- However the rows of a stream are batched and its goroutines interleave, when the stream is done
  -- after fewer than 2^32 rows, from a table without two rows of the same key, the table holds for
  -- every key the first row with that key of the rows before and the admitted rows received, in
  -- order, and has no two rows of the same key; the accepted and the duplicate rows that the
  -- client is told of add up to the admitted rows received, and the table grew by the accepted ones.
  pub stream_stores :
      {Req : Type 0} (extract : Req → List R) (cfg : Config) (w : World R) (reqs : List Req)
      (s : State R (World R) E)
      → AreDistinct w.db.rows
      → Run extract cfg flush_one (start w) reqs s
      → IsDone s
      → length (extract_all extract reqs) < 4294967296
      → IsStored w (extract_all extract reqs) s.world s.total
  stream_stores extract cfg w reqs s distinct run d small =
      let o = run-InOrder extract cfg flush_one w reqs s run d.healthy in
      let all : concat o.batches ≡ extract_all extract reqs =
        emptied (concat o.batches) (in_flight s) _ (done_in_flight s d) o.kept in
      let h =
        subst (λ rows. Stores w rows s.world s.total) all
          (Flushed-Stores w s.world o.batches s.total o.flushed) in
      record {
        reads = h.refines.reads;
        distinct = h.refines.distinct distinct;
        totals = h.totals small;
      }
