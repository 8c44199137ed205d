-- ===== src/Watermark/Round.antt =====
-- What a run that commits does: the rows it hands over and the mark that it sets.
use sumpnet.Prelude.{
  append_nil, ℕ, ◌-◌, ◌≡◌, ◌≤◌, refl, sym, subst, List, [], ◌∷◌, ◌++◌, some, ltb, if◌then◌else◌,
  if-cases, max, arith, inl, inr, length,
}
use sumpnet.Prelude.Result.{Result, ok, ◌>>=◌, bind-ok, Result-cases}
use sumpnet.Watermark.{
  Config, poll, newest, Faults, check, Stage, mark_or_epoch, process, attempt, run,
}
use sumpnet.Watermark.Poll.{newest-ge}

module _ {T H D E : Type 0} (inserted_at : T → ℕ) where
  -- A handler whose transaction also records the rows that it got.
  abbrev pub recording :
      (H → D → List T → Result E (H × D)) → H → D × List T → List T → Result E (H × (D × List T))
  recording handle h d rows = handle h d.0 rows >>= λ done. ok (done.0, (done.1, d.1 ++ rows))

  module _ (handle : H → D → List T → Result E (H × D)) (fresh : H) (cfg : Config) where
    abbrev pub target : ℕ → ℕ → List T → ℕ
    target after boundary [] = max after boundary
    target after boundary (r ∷ rows) = newest inserted_at after (r ∷ rows)

    -- A run that commits records the rows of its poll and moves the mark to the end of the last
    -- group, or to the boundary if there was no row.
    pub record Committed (s s' : Stage T H (D × List T)) (now n : ℕ) (rows : List T) : Type 0 where
      pub polled :
          rows ≡ poll inserted_at (mark_or_epoch s.mark) (now - cfg.lag) cfg.max_groups s.rows
      pub same_rows : s'.rows ≡ s.rows
      pub recorded : s'.written.1 ≡ s.written.1 ++ rows
      pub counted : n ≡ length rows
      pub marked : mark_or_epoch s'.mark ≡ target (mark_or_epoch s.mark) (now - cfg.lag) rows

    record Processed (s s1 : Stage T H (D × List T)) (after now m : ℕ) (rows : List T)
        : Type 0 where
      kept : s1.rows ≡ s.rows
      unmoved : s1.mark ≡ s.mark
      logged : s1.written.1 ≡ s.written.1 ++ rows
      aimed : m ≡ target after (now - cfg.lag) rows

    process-Processed :
        (faults : Faults E) (now : ℕ) (s s1 : Stage T H (D × List T)) (after m : ℕ) (rows : List T)
        → process inserted_at (recording handle) fresh cfg faults now s after rows ≡ ok (s1, m)
        → Processed s s1 after now m rows
    unfolding process
    process-Processed faults now s s1 after m [] e =
        let (u, e1, e2) = bind-ok (check faults.lag_boundary) _ (s1, m) e in
        let same : s ≡ s1 = cc in
        let aim : max after (now - cfg.lag) ≡ m = cc in
        subst (λ x. Processed s x after now m []) same
          (record {
            kept = refl;
            unmoved = refl;
            logged = sym (append_nil s.written.1);
            aimed = sym aim;
          })
    process-Processed faults now s s1 after m (r ∷ rows) e =
        let ((h, d), e1, e2) =
          bind-ok (recording handle s.handler s.written (r ∷ rows)) _ (s1, m) e in
        let ((h', d'), f1, f2) = bind-ok (handle s.handler s.written.0 (r ∷ rows)) _ (h, d) e1 in
        let same : record s { handler = h; written = d } ≡ s1 = cc in
        let log : s.written.1 ++ r ∷ rows ≡ d.1 = cc in
        let aim : newest inserted_at after (r ∷ rows) ≡ m = cc in
        subst (λ x. Processed s x after now m (r ∷ rows)) same
          (record { kept = refl; unmoved = refl; logged = sym log; aimed = sym aim })

    counts :
        {s2 s' s3 : Stage T H (D × List T)} {k n m : ℕ}
        → ◌≡◌ {A = Stage T H (D × List T) × Result E ℕ} (s2, ok k) (s', ok n)
        → ◌≡◌ {A = Result E (Stage T H (D × List T) × ℕ)} (ok (s3, m)) (ok (s2, k))
        → n ≡ m
    counts a b = cc

    same_stage :
        {s2 s' s3 : Stage T H (D × List T)} {k n m : ℕ}
        → ◌≡◌ {A = Stage T H (D × List T) × Result E ℕ} (s2, ok k) (s', ok n)
        → ◌≡◌ {A = Result E (Stage T H (D × List T) × ℕ)} (ok (s3, m)) (ok (s2, k))
        → s3 ≡ s'
    same_stage a b = cc

    pub target-ge : (after boundary : ℕ) (rows : List T) → after ≤ target after boundary rows
    target-ge after boundary [] = omega arith
    target-ge after boundary (r ∷ rows) = newest-ge inserted_at after (r ∷ rows)

    settled :
        (faults : Faults E) (now n : ℕ) (s s1 s3 : Stage T H (D × List T)) (m : ℕ) (rows : List T)
        → rows ≡ poll inserted_at (mark_or_epoch s.mark) (now - cfg.lag) cfg.max_groups s.rows
        → Processed s s1 (mark_or_epoch s.mark) now m rows
        → (if ltb (mark_or_epoch s.mark) m
            then (check faults.set_watermark >>= λ u. ok (record s1 { mark = some m }))
            else ok s1)
          ≡ ok s3
        → n ≡ length rows
        → Committed s s3 now n rows
    settled faults now n s s1 s3 m rows same p e count =
        elim (if-cases (ltb (mark_or_epoch s.mark) m) _ _ (ok s3) e) [
          | inl (moved, e1) ↦
              let (u, g, f) = bind-ok (check faults.set_watermark) _ s3 e1 in
              let last : record s1 { mark = some m } ≡ s3 = cc in
              subst (λ x. Committed s x now n rows) last
                (record {
                  polled = same;
                  same_rows = p.kept;
                  recorded = p.logged;
                  counted = count;
                  marked = p.aimed;
                })
          | inr (still, e1) ↦
              let last : s1 ≡ s3 = cc in
              let ge = target-ge (mark_or_epoch s.mark) (now - cfg.lag) rows in
              let aim = p.aimed in
              subst (λ x. Committed s x now n rows) last
                (record {
                  polled = same;
                  same_rows = p.kept;
                  recorded = p.logged;
                  counted = count;
                  marked = rw (p.unmoved) (ground arith);
                })
        ]

    pub run-Committed :
        (faults : Faults E) (now n : ℕ) (s s' : Stage T H (D × List T))
        → run inserted_at (recording handle) fresh cfg faults now s ≡ (s', ok n)
        → (rows : List T) × Committed s s' now n rows
    unfolding run attempt
    run-Committed faults now n s s' e =
        elim (Result-cases (attempt inserted_at (recording handle) fresh cfg faults now s)) [
          | inr (x, g) ↦ let e1 = rw (g, run) at e in cc
          | inl ((s2, k), g) ↦
              let e1 = rw (g, run) at e in
              let after = mark_or_epoch s.mark in
              let rows = poll inserted_at after (now - cfg.lag) cfg.max_groups s.rows in
              let (u1, g1, f1) = bind-ok (check faults.begin_tx) _ (s2, k) g in
              let (u2, g2, f2) = bind-ok (check faults.get_watermark) _ (s2, k) f1 in
              let (u3, g3, f3) = bind-ok (check faults.poll_rows) _ (s2, k) f2 in
              let ((s1, m), g4, f4) =
                bind-ok (process inserted_at (recording handle) fresh cfg faults now s after rows) _
                  (s2, k) f3 in
              let p = process-Processed faults now s s1 after m rows g4 in
              let (s3, g5, f5) =
                bind-ok
                  (if ltb after m
                    then (check faults.set_watermark >>= λ u. ok (record s1 { mark = some m }))
                    else ok s1)
                  _ (s2, k) f4 in
              let (u6, g6, f6) = bind-ok (check faults.commit) _ (s2, k) f5 in
              let same : s3 ≡ s' = same_stage e1 f6 in
              (
                rows,
                subst (λ x. Committed s x now n rows) same
                    (settled faults now n s s1 s3 m rows refl p g5 (counts e1 f6)),
              )
        ]
