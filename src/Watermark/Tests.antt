-- ===== src/Watermark/Tests.antt =====
-- The theorems on the watermark consumer, applied to an ingest of two rows and two rounds, and to a
-- drain of the rows.
use sumpnet.Watermark.Drain.{one_stage, unread, drain_reaches_boundary}
use sumpnet.Prelude.{◌-◌, ◌≤◌, ◌<◌, ℕ, ◌+◌, ◌≡◌, refl, Bool, true, List, [], ◌∷◌, none, some, arith}
use sumpnet.Prelude.Result.{Result, ok, err}
use sumpnet.Watermark.{
  drain, Config, Faults, Stage, mark_or_epoch, run, attempt, process, poll, bound, next_group,
  between, newest,
}
use sumpnet.Watermark.Poll.{tally, upto}
use sumpnet.Watermark.Round.{recording}
use sumpnet.Watermark.Once.{History, start, ingest, round, handled_once}

abbrev stamp : ℕ → ℕ
stamp t = t

-- The handler counts what it gets, and keeps no memory.
abbrev count_rows : Unit {0} → ℕ → List ℕ → Result ℕ (Unit {0} × ℕ)
count_rows h n rows = ok (tt, n + 1)

abbrev config : Config
config = record { lag = 5; max_groups = 1 }

abbrev healthy : Faults ℕ
healthy = record {
  begin_tx = none;
  get_watermark = none;
  poll_rows = none;
  lag_boundary = none;
  set_watermark = none;
  commit = none;
}

abbrev broken : Faults ℕ
broken = record healthy { commit = some 7 }

abbrev first : Stage ℕ (Unit {0}) (ℕ × List ℕ)
first = record { rows = []; mark = none; written = (0, []); handler = tt }

abbrev loaded : Stage ℕ (Unit {0}) (ℕ × List ℕ)
loaded = record first { rows = 10 ∷ 20 ∷ [] }

abbrev polled : Stage ℕ (Unit {0}) (ℕ × List ℕ)
polled = record loaded { mark = some 10; written = (1, 10 ∷ []) }

failed_round : run stamp (recording stamp count_rows) tt config broken 40 loaded ≡ (loaded, err 7)
unfolding run attempt process poll bound next_group between newest
failed_round = refl

good_round : run stamp (recording stamp count_rows) tt config healthy 40 loaded ≡ (polled, ok 1)
unfolding run attempt process poll bound next_group between newest
good_round = refl

merged : (p : ℕ → Bool) → tally p loaded.rows ≡ tally p first.rows + tally p loaded.rows
unfolding tally
merged p = omega arith

history : History stamp count_rows tt config polled 35
history =
    round loaded polled 35 40 healthy (ok 1)
      (round loaded loaded 0 40 broken (err 7)
        (ingest first 0 loaded.rows loaded.rows (start tt 0) (omega arith, (omega arith, tt))
          merged)
        failed_round)
      good_round

abbrev any_row : ℕ → Bool
any_row t = true

handled_once_example :
    tally any_row polled.written.1
    ≡ tally (upto stamp any_row (mark_or_epoch polled.mark)) polled.rows
handled_once_example =
    handled_once stamp count_rows tt config polled 35 any_row (omega arith) history

counts_all :
    (h : Unit {0}) (n : ℕ) (rows : List ℕ) → (x : Unit {0} × ℕ) × (count_rows h n rows ≡ ok x)
counts_all h n rows = ((tt, n + 1), refl)

few_left : unread stamp count_rows tt config 40 counts_all loaded < 3
unfolding tally
few_left = omega arith

drain_reaches_boundary_example :
    (s' : Stage ℕ (Unit {0}) (ℕ × List ℕ)) × (drain
        (one_stage stamp count_rows tt config 40 counts_all)
        3
        loaded
      ≡ some s')
    × (40 - config.lag ≤ mark_or_epoch s'.mark)
drain_reaches_boundary_example =
    drain_reaches_boundary stamp count_rows tt config 40 counts_all loaded 3 (omega arith) few_left
