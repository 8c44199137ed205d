-- ===== src/Watermark/Poll.antt =====
-- What a poll returns, counted by any condition on the rows.
use sumpnet.Prelude.{
  ℕ, zero, suc, ◌+◌, ◌≡◌, ◌≤◌, ◌<◌, refl, Bool, true, ◌&&◌, List, [], ◌∷◌, none, some, ltb, leb,
  if◌then◌else◌, max, arith, subst, ◌==◌, ==_iff, Bool-cases, Option-cases, inl, inr, ◌⊎◌,
}
use sumpnet.Watermark.{next_group, bound, between, poll, newest}

-- How many rows satisfy `p`.
unfoldable pub tally : {T : Type 0} → (T → Bool) → List T → ℕ
tally p [] = 0
tally p (r ∷ rows) = let rest = tally p rows in if p r then suc rest else rest

module _ {T : Type 0} (inserted_at : T → ℕ) where
  -- ... among the rows with inserted_at up to `t`.
  abbrev pub upto : (T → Bool) → ℕ → T → Bool
  upto p t r = p r && leb (inserted_at r) t

  pub next_group-range :
      (lo hi t : ℕ) (rows : List T)
      → next_group inserted_at lo hi rows ≡ some t
      → (lo < t) × (t ≤ hi)
  unfolding next_group
  next_group-range lo hi t [] h = cc
  next_group-range lo hi t (r ∷ rows) h = elim (Option-cases (next_group inserted_at lo hi rows)) [
    | inl e ↦ let h' = rw (e, next_group) at h in ground arith
    | inr (u, e) ↦
        let h' = rw (e, next_group) at h in let ih = next_group-range lo hi u rows e in ground arith
  ]

  pub bound-ge : (n lo hi : ℕ) (rows : List T) → lo ≤ bound inserted_at n lo hi rows
  unfolding bound
  bound-ge zero lo hi rows = omega arith
  bound-ge (suc n) lo hi rows = elim (Option-cases (next_group inserted_at lo hi rows)) [
    | inl e ↦ rw (e, bound) (omega arith)
    | inr (t, e) ↦
        let (above, below) = next_group-range lo hi t rows e in
        let ih = bound-ge n t hi rows in rw (e, bound) (omega arith)
  ]

  -- Polling splits the counts at its ends.
  pub between-tally :
      (p : T → Bool) (lo b : ℕ) (rows : List T)
      → lo ≤ b
      → tally p (between inserted_at lo b rows) + tally (upto p lo) rows ≡ tally (upto p b) rows
  unfolding tally between
  between-tally p lo b [] le = refl
  between-tally p lo b (r ∷ rows) le = ground (arith, between-tally p lo b rows le)

  abbrev Has : ℕ → List T → Type 0
  Has t [] = ⊥
  Has t (r ∷ rows) = (inserted_at r ≡ t) ⊎ Has t rows

  next_group-Has :
      (lo hi t : ℕ) (rows : List T) → next_group inserted_at lo hi rows ≡ some t → Has t rows
  unfolding next_group
  next_group-Has lo hi t [] h = cc
  next_group-Has lo hi t (r ∷ rows) h = elim (Option-cases (next_group inserted_at lo hi rows)) [
    | inl e ↦ let h' = rw (e, next_group) at h in ground arith
    | inr (u, e) ↦
        let h' = rw (e, next_group) at h in
        let ih = next_group-Has lo hi u rows e in
        elim (Bool-cases (u == t)) [
          | inl same ↦ inr (subst (λ x. Has x rows) ((==_iff u t).0 same) ih)
          | inr differ ↦ inl (ground arith)
        ]
  ]

  between-Has :
      (t lo b : ℕ) (rows : List T)
      → lo < t
      → t ≤ b
      → Has t rows
      → Has t (between inserted_at lo b rows)
  unfolding between
  between-Has t lo b [] lt le h = h
  between-Has t lo b (r ∷ rows) lt le (inl e) =
      let inside : (ltb lo (inserted_at r) && leb (inserted_at r) b) ≡ true = ground arith in
      rw inside (inl e)
  between-Has t lo b (r ∷ rows) lt le (inr h) =
      let ih = between-Has t lo b rows lt le h in
      elim (Bool-cases (ltb lo (inserted_at r) && leb (inserted_at r) b)) [
        | inl e ↦ rw e (inr ih)
        | inr e ↦ rw e ih
      ]

  bound-Has :
      (n lo hi : ℕ) (rows : List T)
      → (bound inserted_at n lo hi rows ≡ lo)
        ⊎ ((lo < bound inserted_at n lo hi rows) × Has (bound inserted_at n lo hi rows) rows)
  unfolding bound
  bound-Has zero lo hi rows = inl refl
  bound-Has (suc n) lo hi rows = elim (Option-cases (next_group inserted_at lo hi rows)) [
    | inl e ↦ inl (rw (e, bound) refl)
    | inr (t, e) ↦
        let (above, below) = next_group-range lo hi t rows e in
        elim (bound-Has n t hi rows) [
          | inl same ↦ inr (
            rw (e, bound) (omega (arith, same, above)),
            rw (e, bound) (rw same (next_group-Has lo hi t rows e)),
          )
          | inr (lt, has) ↦ inr (rw (e, bound) (omega (arith, lt, above)), rw (e, bound) has)
        ]
  ]

  pub newest-ge : (m : ℕ) (rows : List T) → m ≤ newest inserted_at m rows
  unfolding newest
  newest-ge m [] = omega arith
  newest-ge m (r ∷ rows) = omega (arith, newest-ge (max m (inserted_at r)) rows)

  newest-Has : (t m : ℕ) (rows : List T) → Has t rows → t ≤ newest inserted_at m rows
  unfolding newest
  newest-Has t m [] h = absurd h
  newest-Has t m (r ∷ rows) (inl e) = omega (arith, newest-ge (max m (inserted_at r)) rows)
  newest-Has t m (r ∷ rows) (inr h) = newest-Has t (max m (inserted_at r)) rows h

  newest-le :
      (lo b m : ℕ) (rows : List T)
      → m ≤ b
      → newest inserted_at m (between inserted_at lo b rows) ≤ b
  unfolding newest between
  newest-le lo b m [] le = le
  newest-le lo b m (r ∷ rows) le =
      elim (Bool-cases (ltb lo (inserted_at r) && leb (inserted_at r) b)) [
        | inl e ↦ rw e (newest-le lo b (max m (inserted_at r)) rows (ground arith))
        | inr e ↦ rw e (newest-le lo b m rows le)
      ]

  -- The mark moves to the end of the last group that was read.
  pub newest-poll :
      (n lo hi : ℕ) (rows : List T)
      → newest inserted_at lo (poll inserted_at lo hi n rows) ≡ bound inserted_at n lo hi rows
  unfolding poll
  newest-poll n lo hi rows =
      let b = bound inserted_at n lo hi rows in
      let above = bound-ge n lo hi rows in
      let le = newest-le lo b lo rows above in
      elim (bound-Has n lo hi rows) [
        | inl same ↦ omega (arith, same, le, newest-ge lo (between inserted_at lo b rows))
        | inr (lt, has) ↦ omega (
          arith,
          le,
          newest-Has b lo (between inserted_at lo b rows)
              (between-Has b lo b rows lt (omega arith) has),
        )
      ]

  none_left :
      (p : T → Bool) (lo hi : ℕ) (rows : List T)
      → next_group inserted_at lo hi rows ≡ none
      → tally (upto p (max lo hi)) rows ≡ tally (upto p lo) rows
  unfolding next_group tally
  none_left p lo hi [] h = refl
  none_left p lo hi (r ∷ rows) h = elim (Option-cases (next_group inserted_at lo hi rows)) [
    | inr (t, e) ↦ let h' = rw (e, next_group) at h in ground arith
    | inl e ↦ let h' = rw (e, next_group) at h in let ih = none_left p lo hi rows e in ground arith
  ]

  -- A poll for at least one group that returns no rows leaves none below the boundary.
  pub poll-none :
      (p : T → Bool) (n lo hi : ℕ) (rows : List T)
      → 0 < n
      → poll inserted_at lo hi n rows ≡ []
      → tally (upto p (max lo hi)) rows ≡ tally (upto p lo) rows
  unfolding poll bound
  poll-none p zero lo hi rows pos h = absurd (omega arith)
  poll-none p (suc n) lo hi rows pos h = elim (Option-cases (next_group inserted_at lo hi rows)) [
    | inl e ↦ none_left p lo hi rows e
    | inr (t, e) ↦
        let (above, below) = next_group-range lo hi t rows e in
        absurd (
          subst (Has t) (rw (e, bound) at h) (
            between-Has t lo (bound inserted_at n t hi rows) rows above (bound-ge n t hi rows)
              (next_group-Has lo hi t rows e)))
  ]

  pub bound-le : (n lo hi : ℕ) (rows : List T) → bound inserted_at n lo hi rows ≤ max lo hi
  unfolding bound
  bound-le zero lo hi rows = omega arith
  bound-le (suc n) lo hi rows = elim (Option-cases (next_group inserted_at lo hi rows)) [
    | inl e ↦ rw (e, bound) (omega arith)
    | inr (t, e) ↦
        let (above, below) = next_group-range lo hi t rows e in
        rw (e, bound) (omega (arith, bound-le n t hi rows))
  ]
