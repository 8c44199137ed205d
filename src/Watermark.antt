-- ===== src/Watermark.antt =====
-- internal/watermark/consumer.go and the queries of internal/store/queries/watermarks.sql: a stage that
-- polls a table by a persisted watermark. The table's rows are listed in the order that the poll
-- queries ask for. An instant is a number, 0 the Unix epoch. Metrics, logs and the notification
-- listener are left out; a handler's Reset makes a fresh handler.
pub mod Poll
pub mod Round
pub mod Once
pub mod Drain
mod Tests
use sumpnet.Prelude.{
  ◌==◌, ℕ, zero, suc, ◌+◌, ◌-◌, Bool, true, false, ◌&&◌, List, [], ◌∷◌, ◌++◌, Option, none, some,
  ltb, leb, if◌then◌else◌, min, max, length,
}
use sumpnet.Prelude.Result.{Result, ok, err, ◌>>=◌}

pub record Config : Type 0 where
  pub lag : ℕ
  pub max_groups : ℕ

-- The smaller of two instants, where there are two.
abbrev pub earlier : ℕ → Option ℕ → Option ℕ
earlier t none = some t
earlier t (some u) = some (min t u)

module _ {T : Type 0} (inserted_at : T → ℕ) where
  -- The first inserted_at above `lo` and not above `hi`.
  unfoldable pub next_group : ℕ → ℕ → List T → Option ℕ
  next_group lo hi [] = none
  next_group lo hi (r ∷ rows) =
      let rest = next_group lo hi rows in
      if ltb lo (inserted_at r) && leb (inserted_at r) hi
      then earlier (inserted_at r) rest
      else rest

  -- The query's `bound`: the last of the first `n` distinct values of inserted_at in (lo, hi], or
  -- `lo` if there is none.
  unfoldable pub bound : ℕ → ℕ → ℕ → List T → ℕ
  bound zero lo hi rows = lo
  bound (suc n) lo hi rows = elim (next_group lo hi rows) [ none ↦ lo | some t ↦ bound n t hi rows ]

  -- The rows with inserted_at in (lo, hi].
  unfoldable pub between : ℕ → ℕ → List T → List T
  between lo hi [] = []
  between lo hi (r ∷ rows) =
      let rest = between lo hi rows in
      if ltb lo (inserted_at r) && leb (inserted_at r) hi then r ∷ rest else rest

  -- The Poll queries, for the boundary now() minus the lag.
  unfoldable pub poll : ℕ → ℕ → ℕ → List T → List T
  poll after boundary max_groups rows = between after (bound max_groups after boundary rows) rows

  -- The largest of the mark and the rows' inserted_at.
  unfoldable pub newest : ℕ → List T → ℕ
  newest mark [] = mark
  newest mark (r ∷ rows) = newest (max mark (inserted_at r)) rows

-- What fails in a run, if anything.
pub record Faults (E : Type 0) : Type 0 where
  pub begin_tx : Option E
  pub get_watermark : Option E
  pub poll_rows : Option E
  pub lag_boundary : Option E
  pub set_watermark : Option E
  pub commit : Option E

abbrev pub check : {E : Type 0} → Option E → Result E Unit
check none = ok tt
check (some e) = err e

-- A source's rows with the consumer's mark on them, the data that the handler writes, and the
-- handler's memory.
pub record Stage (T H D : Type 0) : Type 0 where
  pub rows : List T
  pub mark : Option ℕ
  pub written : D
  pub handler : H

abbrev pub mark_or_epoch : Option ℕ → ℕ
mark_or_epoch none = 0
mark_or_epoch (some t) = t

module _ {T H D E : Type 0} (inserted_at : T → ℕ) (handle : H → D → List T → Result E (H × D))
    (fresh : H) (cfg : Config) where
  -- The part of the transaction from the handler on.
  unfoldable pub process : Faults E → ℕ → Stage T H D → ℕ → List T → Result E (Stage T H D × ℕ)
  process faults now s after [] =
      check faults.lag_boundary >>= λ u. ok (s, max after (now - cfg.lag))
  process faults now s after (r ∷ rows) = handle s.handler s.written (r ∷ rows) >>= λ (h, d).
      ok (record s { handler = h; written = d }, newest inserted_at after (r ∷ rows))

  unfoldable pub attempt : Faults E → ℕ → Stage T H D → Result E (Stage T H D × ℕ)
  attempt faults now s =
      let after = mark_or_epoch s.mark in
      let rows = poll inserted_at after (now - cfg.lag) cfg.max_groups s.rows in
      check faults.begin_tx >>= λ u. check faults.get_watermark >>= λ u.
      check faults.poll_rows >>= λ u. process faults now s after rows >>= λ (s1, new_mark).
      (if ltb after new_mark
        then (check faults.set_watermark >>= λ u. ok (record s1 { mark = some new_mark }))
        else ok s1)
      >>= λ s2. check faults.commit >>= λ u. ok (s2, length rows)

  -- typedStage.run: a failure rolls the transaction back and resets the handler.
  unfoldable pub run : Faults E → ℕ → Stage T H D → Stage T H D × Result E ℕ
  run faults now s = elim (attempt faults now s) [
    | ok (s1, n) ↦ (s1, ok n)
    | err e ↦ (record s { handler = fresh }, err e)
  ]

-- RunOnce: the stages in order, up to the first that fails; the rows handled and the error.
unfoldable pub run_once : {W E : Type 0} → List (W → W × Result E ℕ) → W → ℕ → W × (ℕ × Option E)
run_once [] w total = (w, (total, none))
run_once (stage ∷ stages) w total =
    let (w1, r) = stage w in
    elim r [ ok n ↦ run_once stages w1 (total + n) | err e ↦ (w1, (total, some e)) ]

-- The inner loop of Run: rounds, until one handles no row; a failed round is tried again after a pause.
-- None where the fuel runs out.
unfoldable pub drain : {W E : Type 0} → (W → W × (ℕ × Option E)) → ℕ → W → Option W
drain round zero w = none
drain round (suc fuel) w =
    let (w1, (n, e)) = round w in
    elim e [
      | some x ↦ drain round fuel w1
      | none ↦ let rest = drain round fuel w1 in if n == 0 then some w1 else rest
    ]
