-- ===== src/Watermark/Once.antt =====
-- Over any sequence of ingests and rounds, failed ones included, a row is handled once.
use sumpnet.Prelude.{
  ℕ, ◌+◌, ◌-◌, ◌≡◌, ◌≤◌, ◌<◌, refl, sym, ap, ◌∙◌, subst, Bool, List, [], ◌∷◌, ◌++◌, none, max,
  arith, inl, inr,
}
use sumpnet.Prelude.Result.{Result, ok, err, Result-cases}
use sumpnet.Watermark.{Config, bound, poll, newest, Faults, Stage, mark_or_epoch, attempt, run}
use sumpnet.Watermark.Poll.{tally, upto, bound-ge, bound-le, between-tally, newest-poll, poll-none}
use sumpnet.Watermark.Round.{recording, target, Committed, run-Committed}

tally-nil : {T : Type 0} (p : T → Bool) → tally p [] ≡ 0
unfolding tally
tally-nil p = refl

tally-append :
    {T : Type 0} (p : T → Bool) (xs ys : List T) → tally p (xs ++ ys) ≡ tally p xs + tally p ys
unfolding tally
tally-append p [] ys = omega arith
tally-append p (x ∷ xs) ys = ground (arith, tally-append p xs ys)

module _ {T H D E : Type 0} (inserted_at : T → ℕ) where
  module _ (handle : H → D → List T → Result E (H × D)) (fresh : H) (cfg : Config) where
    -- Every row of a batch is younger than `t`.
    abbrev pub AllAfter : ℕ → List T → Type 0
    AllAfter t [] = Unit
    AllAfter t (r ∷ rows) = (t < inserted_at r) × AllAfter t rows

    -- Ingests and rounds, up to a stage. The horizon is the largest boundary that a round has read up
    -- to: an ingest that commits later has younger rows, which is what the lag is for.
    pub data History : Stage T H (D × List T) → ℕ → Type 0 where
      start :
          (h : H) (d : D)
          → History (record { rows = []; mark = none; written = (d, []); handler = h }) 0
      ingest :
          (s : Stage T H (D × List T)) (horizon : ℕ) (batch rows : List T)
          → History s horizon
          → AllAfter horizon batch
          → ((p : T → Bool) → tally p rows ≡ tally p s.rows + tally p batch)
          → History (record s { rows = rows }) horizon
      round :
          (s s' : Stage T H (D × List T)) (horizon now : ℕ) (faults : Faults E) (r : Result E ℕ)
          → History s horizon
          → run inserted_at (recording inserted_at handle) fresh cfg faults now s ≡ (s', r)
          → History s' (max horizon (now - cfg.lag))

    -- What the record of the handled rows says of the table.
    record Handled (s : Stage T H (D × List T)) (horizon : ℕ) (p : T → Bool) : Type 0 where
      within : mark_or_epoch s.mark ≤ horizon
      agree : tally p s.written.1 ≡ tally (upto inserted_at p (mark_or_epoch s.mark)) s.rows

    young_tally :
        (p : T → Bool) (t u : ℕ) (batch : List T)
        → t ≤ u
        → AllAfter u batch
        → tally (upto inserted_at p t) batch ≡ 0
    unfolding tally
    young_tally p t u [] le a = refl
    young_tally p t u (r ∷ batch) le (lt, a) = let ih = young_tally p t u batch le a in ground arith

    pub target-tally :
        (p : T → Bool) (lo b : ℕ) (all rows : List T)
        → 0 < cfg.max_groups
        → rows ≡ poll inserted_at lo b cfg.max_groups all
        → (tally p rows + tally (upto inserted_at p lo) all
            ≡ tally (upto inserted_at p (target inserted_at handle fresh cfg lo b rows)) all)
          × (target inserted_at handle fresh cfg lo b rows ≤ max lo b)
    unfolding poll
    target-tally p lo b all [] some_groups e =
        let same = poll-none inserted_at p cfg.max_groups lo b all some_groups (sym e) in
        (omega (arith, same, tally-nil p), omega arith)
    target-tally p lo b all (r ∷ rows) some_groups e =
        let top : newest inserted_at lo (r ∷ rows) ≡ bound inserted_at cfg.max_groups lo b all =
          ap (newest inserted_at lo) e ∙ newest-poll inserted_at cfg.max_groups lo b all in
        (
          rw (top, e)
              (between-tally inserted_at p lo (bound inserted_at cfg.max_groups lo b all) all
                (bound-ge inserted_at cfg.max_groups lo b all)),
          rw top (bound-le inserted_at cfg.max_groups lo b all),
        )

    Committed-Handled :
        (p : T → Bool) (s s' : Stage T H (D × List T)) (horizon now n : ℕ) (rows : List T)
        → 0 < cfg.max_groups
        → Handled s horizon p
        → Committed inserted_at handle fresh cfg s s' now n rows
        → Handled s' (max horizon (now - cfg.lag)) p
    Committed-Handled p s s' horizon now n rows some_groups h c =
        let (count, below) =
          target-tally p (mark_or_epoch s.mark) (now - cfg.lag) s.rows rows some_groups c.polled in
        record {
          within = rw (c.marked) (omega (arith, below, h.within));
          agree =
              rw (c.recorded, c.marked, c.same_rows)
                (omega (arith, tally-append p s.written.1 rows, h.agree, count));
        }

    run-failed :
        (faults : Faults E) (now : ℕ) (x : E) (s s' : Stage T H (D × List T))
        → run inserted_at (recording inserted_at handle) fresh cfg faults now s ≡ (s', err x)
        → record s { handler = fresh } ≡ s'
    unfolding run
    run-failed faults now x s s' e =
        elim (Result-cases
          (attempt inserted_at (recording inserted_at handle) fresh cfg faults now s)) [
            | inr (y, g) ↦
                let e1 = rw (g, run) at e in
                ap (λ (w : Stage T H (D × List T) × Result E ℕ). w.0) e1
            | inl ((s2, k), g) ↦ let e1 = rw (g, run) at e in cc
          ]

    History-Handled :
        (s : Stage T H (D × List T)) (horizon : ℕ) (p : T → Bool)
        → 0 < cfg.max_groups
        → History s horizon
        → Handled s horizon p
    unfolding tally
    History-Handled s horizon p some_groups (start h d) = record {
      within = omega arith;
      agree = refl;
    }
    History-Handled s' horizon p some_groups (ingest s horizon' batch rows past young merged) =
        let h = History-Handled s horizon p some_groups past in
        record {
          within = h.within;
          agree =
              h.agree
              ∙ omega (
                arith,
                merged (upto inserted_at p (mark_or_epoch s.mark)),
                young_tally p (mark_or_epoch s.mark) horizon batch h.within young,
              );
        }
    History-Handled s2 horizon2 p some_groups (round s s' horizon now faults (ok n) past e) =
        let (rows, c) = run-Committed inserted_at handle fresh cfg faults now n s s' e in
        Committed-Handled p s s' horizon now n rows some_groups
          (History-Handled s horizon p some_groups past) c
    History-Handled s2 horizon2 p some_groups (round s s' horizon now faults (err x) past e) =
        let h = History-Handled s horizon p some_groups past in
        subst (λ w. Handled w (max horizon (now - cfg.lag)) p) (run-failed faults now x s s' e)
          (record { within = omega (arith, h.within); agree = h.agree })

    -- Where every poll asks for at least one group and no ingest commits rows at or below a boundary
    -- that a round has already read to: after any sequence of ingests and rounds, failed rounds
    -- included, as many rows of any description were handed to the handler in committed
    -- transactions as the table holds at or below the watermark.
    pub handled_once :
        (s : Stage T H (D × List T)) (horizon : ℕ) (p : T → Bool)
        → 0 < cfg.max_groups
        → History s horizon
        → tally p s.written.1 ≡ tally (upto inserted_at p (mark_or_epoch s.mark)) s.rows
    handled_once s horizon p some_groups past = (History-Handled s horizon p some_groups past).agree
