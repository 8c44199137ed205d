-- ===== src/Watermark/Drain.antt =====
-- Run's inner loop ends: while nothing fails and the clock stands, every round takes rows from a window.
use sumpnet.Prelude.{
  ℕ, zero, suc, ◌+◌, ◌-◌, ◌≡◌, ◌≤◌, ◌<◌, refl, sym, ap, ◌∙◌, subst, Bool, true, List, [], ◌∷◌,
  Option, none, some, ltb, ◌++◌, ==_iff, ◌==◌, max, arith, Bool-cases, inl, inr, length,
}
use sumpnet.Prelude.Result.{Result, ok}
use sumpnet.Watermark.{
  Config, Faults, process, attempt, poll, newest, Stage, mark_or_epoch, run, run_once, drain,
}
use sumpnet.Watermark.Poll.{tally, upto}
use sumpnet.Watermark.Round.{recording, target, target-ge, Committed, run-Committed}
use sumpnet.Watermark.Once.{target-tally}

-- A loop whose rounds succeed, and lower a measure whenever they handle a row, ends.
module _ {W E : Type 0} (round : W → W × (ℕ × Option E)) (left : W → ℕ) where
  pub drain_ends :
      (calm : (w : W) → (round w).1.1 ≡ none)
      (lowers : (w : W) → left (round w).0 + (round w).1.0 ≤ left w) (fuel : ℕ) (w : W)
      → left w < fuel
      → (w0 : W) × ((round w0).1.0 ≡ 0) × (drain round fuel w ≡ some (round w0).0)
  unfolding drain
  drain_ends calm lowers zero w lt = absurd (omega arith)
  drain_ends calm lowers (suc fuel) w lt = elim (Bool-cases ((round w).1.0 == 0)) [
    | inl e ↦ (w, (==_iff _ 0).0 e, rw (calm w, e, drain) refl)
    | inr e ↦
        let less = lowers w in
        let (w0, z, h) = drain_ends calm lowers fuel (round w).0 (ground arith) in
        (w0, z, rw (calm w, e, drain) h)
  ]

abbrev pub no_faults : {E : Type 0} → Faults E
no_faults = record {
  begin_tx = none;
  get_watermark = none;
  poll_rows = none;
  lag_boundary = none;
  set_watermark = none;
  commit = none;
}

abbrev every : {T : Type 0} → T → Bool
every r = true

tally-every : {T : Type 0} (rows : List T) → tally every rows ≡ length rows
unfolding tally
tally-every [] = refl
tally-every (r ∷ rows) = ap suc (tally-every rows)

upto_le :
    {T : Type 0} (inserted_at : T → ℕ) (a b : ℕ) (rows : List T)
    → a ≤ b
    → tally (upto inserted_at every a) rows ≤ tally (upto inserted_at every b) rows
unfolding tally
upto_le inserted_at a b [] le = omega arith
upto_le inserted_at a b (r ∷ rows) le = ground (arith, upto_le inserted_at a b rows le)

module _ {T H D E : Type 0} (inserted_at : T → ℕ) where
  module _ (handle : H → D → List T → Result E (H × D)) (fresh : H) (cfg : Config) (now : ℕ)
      (total : (h : H) (d : D) (rows : List T) → (x : H × D) × (handle h d rows ≡ ok x)) where
    -- A round of one stage.
    abbrev pub one_stage : Stage T H (D × List T) → Stage T H (D × List T) × (ℕ × Option E)
    one_stage w =
        run_once (run inserted_at (recording inserted_at handle) fresh cfg no_faults now ∷ []) w 0

    -- How many rows a drain has left to read.
    abbrev pub unread : Stage T H (D × List T) → ℕ
    unread w =
        tally (upto inserted_at every (max (mark_or_epoch w.mark) (now - cfg.lag))) w.rows
        - tally (upto inserted_at every (mark_or_epoch w.mark)) w.rows

    Committed-unread :
        (s s' : Stage T H (D × List T)) (n : ℕ) (rows : List T)
        → 0 < cfg.max_groups
        → Committed inserted_at handle fresh cfg s s' now n rows
        → unread s' + n ≤ unread s
    Committed-unread s s' n rows some_groups c =
        let lo = mark_or_epoch s.mark in
        let b = now - cfg.lag in
        let (count, below) =
          target-tally inserted_at handle fresh cfg every lo b s.rows rows some_groups c.polled in
        let above = target-ge inserted_at handle fresh cfg lo b rows in
        let t = target inserted_at handle fresh cfg lo b rows in
        let top : max t b ≡ max lo b = omega (arith, below, above) in
        rw (c.same_rows, c.marked)
          (rw top (
            omega (
              arith,
              count,
              tally-every rows,
              c.counted,
              upto_le inserted_at t (max lo b) s.rows below,
            )))

    process_ends :
        (s : Stage T H (D × List T)) (after : ℕ) (rows : List T)
        → (x : Stage T H (D × List T) × ℕ) × (process inserted_at
              (recording inserted_at handle)
              fresh
              cfg
              no_faults
              now
              s
              after
              rows
            ≡ ok x)
    unfolding process
    process_ends s after [] = (_, refl)
    process_ends s after (r ∷ rows) =
        let ((h, d), e) = total s.handler s.written.0 (r ∷ rows) in
        (
          (
            record s { handler = h; written = (d, s.written.1 ++ r ∷ rows) },
            newest inserted_at after (r ∷ rows),
          ),
          rw (e, process) refl,
        )

    run_ends :
        (s : Stage T H (D × List T))
        → (s' : Stage T H (D × List T)) × (n : ℕ) × (run inserted_at
              (recording inserted_at handle)
              fresh
              cfg
              no_faults
              now
              s
            ≡ (s', ok n))
    unfolding run attempt
    run_ends s =
        let after = mark_or_epoch s.mark in
        let rows = poll inserted_at after (now - cfg.lag) cfg.max_groups s.rows in
        let ((s1, m), e) = process_ends s after rows in
        elim (Bool-cases (ltb after m)) [
          | inl moved ↦ (record s1 { mark = some m }, length rows, rw (e, moved, run, attempt) refl)
          | inr still ↦ (s1, length rows, rw (e, still, run, attempt) refl)
        ]

    empty_target :
        (after : ℕ) (rows : List T)
        → length rows ≡ 0
        → now - cfg.lag ≤ target inserted_at handle fresh cfg after (now - cfg.lag) rows
    empty_target after [] z = omega arith
    empty_target after (r ∷ rows) z = absurd (omega (arith, z))

    plus_zero :
        (s' : Stage T H (D × List T)) (n : ℕ)
        → run_once {E = E} ((λ w. (s', ok n)) ∷ []) s' 0 ≡ (s', (n, none))
    unfolding run_once
    plus_zero s' n = ap (λ k. (s', (k, none))) (omega arith)

    one_stage-run :
        (s s' : Stage T H (D × List T)) (n : ℕ)
        → run inserted_at (recording inserted_at handle) fresh cfg no_faults now s ≡ (s', ok n)
        → one_stage s ≡ (s', (n, none))
    unfolding run_once
    one_stage-run s s' n e = ap (λ x. run_once ((λ w. x) ∷ []) s 0) e ∙ plus_zero s' n

    calm : (w : Stage T H (D × List T)) → (one_stage w).1.1 ≡ none
    calm w =
        let (s', n, e) = run_ends w in
        ap (λ (x : Stage T H (D × List T) × (ℕ × Option E)). x.1.1) (one_stage-run w s' n e)

    lowers :
        0 < cfg.max_groups
        → (w : Stage T H (D × List T)) → unread (one_stage w).0 + (one_stage w).1.0 ≤ unread w
    lowers some_groups w =
        let (s', n, e) = run_ends w in
        let (rows, c) = run-Committed inserted_at handle fresh cfg no_faults now n w s' e in
        subst (λ (x : Stage T H (D × List T) × (ℕ × Option E)). unread x.0 + x.1.0 ≤ unread w)
          (sym (one_stage-run w s' n e)) (Committed-unread w s' n rows some_groups c)

    last_round :
        0 < cfg.max_groups
        → (w : Stage T H (D × List T)) → (one_stage w).1.0 ≡ 0
        → now - cfg.lag ≤ mark_or_epoch (one_stage w).0.mark
    last_round some_groups w z =
        let (s', n, e) = run_ends w in
        let (rows, c) = run-Committed inserted_at handle fresh cfg no_faults now n w s' e in
        let step = one_stage-run w s' n e in
        let n0 : n ≡ 0 =
          ap (λ (x : Stage T H (D × List T) × (ℕ × Option E)). x.1.0) (sym step) ∙ z in
        subst
          (λ (x : Stage T H (D × List T) × (ℕ × Option E)). now - cfg.lag ≤ mark_or_epoch x.0.mark)
          (sym step)
          (subst (λ k. now - cfg.lag ≤ k) (sym c.marked)
            (empty_target (mark_or_epoch w.mark) rows (sym c.counted ∙ n0)))

    -- Where every poll asks for at least one group, the handler takes every batch, no statement fails
    -- and the clock stands: the inner loop of Run over one stage ends after at most one round more
    -- than there are rows to read between the watermark and the boundary, and then the watermark is
    -- at the boundary or above it.
    pub drain_reaches_boundary :
        (s : Stage T H (D × List T)) (fuel : ℕ)
        → 0 < cfg.max_groups
        → unread s < fuel
        → (s' : Stage T H (D × List T)) × (drain one_stage fuel s ≡ some s')
          × (now - cfg.lag ≤ mark_or_epoch s'.mark)
    drain_reaches_boundary s fuel some_groups enough =
        let (w0, zero_rows, h) =
          drain_ends one_stage unread calm (lowers some_groups) fuel s enough in
        ((one_stage w0).0, h, last_round some_groups w0 zero_rows)
