-- ===== src/Storms/Select/Search.antt =====
-- A binary search among spans whose ends do not fall finds what a search from the first span finds.
use sumpnet.Prelude.{
  ℕ, zero, suc, ◌+◌, ◌/◌, ◌≤◌, ◌<◌, ◌≡◌, refl, false, List, [], ◌∷◌, Option, none, some, ltb,
  if◌then◌else◌, length, get_elem?, Bool-cases, Option-cases, inl, inr, arith, ltb→lt, lt→ltb,
}
use sumpnet.Storms.Select.{Span, halve, bisect, search}

-- The first span that ends after t.
unfoldable pub first_after : ℕ → List Span → Option Span
first_after t [] = none
first_after t (s ∷ spans) = let rest = first_after t spans in if ltb t s.to then some s else rest

-- Ends that do not fall, from `lo` on.
abbrev pub EndsAscend : ℕ → List Span → Type 0
EndsAscend lo [] = Unit
EndsAscend lo (s ∷ spans) = (lo ≤ s.to) × EndsAscend s.to spans

end_ge :
    (lo : ℕ) (spans : List Span) (k : ℕ) (s : Span)
    → EndsAscend lo spans
    → get_elem? spans k ≡ some s
    → lo ≤ s.to
end_ge lo [] k s h e = cc
end_ge lo (x ∷ spans) zero s h e = ground (arith, h.0)
end_ge lo (x ∷ spans) (suc k) s h e = omega (arith, h.0, end_ge x.to spans k s h.1 e)

end_mono :
    (lo : ℕ) (spans : List Span) (m k : ℕ) (s u : Span)
    → EndsAscend lo spans
    → m ≤ k
    → get_elem? spans m ≡ some s
    → get_elem? spans k ≡ some u
    → s.to ≤ u.to
end_mono lo [] m k s u h le e d = cc
end_mono lo (x ∷ spans) zero zero s u h le e d = ground arith
end_mono lo (x ∷ spans) zero (suc k) s u h le e d = ground (arith, end_ge x.to spans k u h.1 d)
end_mono lo (x ∷ spans) (suc m) zero s u h le e d = absurd (omega arith)
end_mono lo (x ∷ spans) (suc m) (suc k) s u h le e d =
    end_mono x.to spans m k s u h.1 (omega arith) e d

none_beyond : (spans : List Span) (k : ℕ) → get_elem? spans k ≡ none → length spans ≤ k
none_beyond [] k e = omega arith
none_beyond (x ∷ spans) zero e = cc
none_beyond (x ∷ spans) (suc k) e = omega (arith, none_beyond spans k e)

-- No span before i ends after t, and every span from j on does.
record Split (t : ℕ) (spans : List Span) (i j : ℕ) : Type 0 where
  below : (m : ℕ) (s : Span) → m < i → get_elem? spans m ≡ some s → s.to ≤ t
  above : (m : ℕ) (s : Span) → j ≤ m → get_elem? spans m ≡ some s → t < s.to

-- What a turn keeps, and that it makes the interval shorter.
record Narrows (t : ℕ) (spans : List Span) (i j i1 j1 : ℕ) : Type 0 where
  ordered : i1 ≤ j1
  within : j1 ≤ length spans
  shorter : (fuel : ℕ) → j ≤ i + suc fuel → j1 ≤ i1 + fuel
  split : Split t spans i1 j1

halve-Narrows :
    (t lo : ℕ) (spans : List Span) (i j : ℕ)
    → EndsAscend lo spans
    → i ≤ j
    → j ≤ length spans
    → Split t spans i j
    → let (i1, j1) = halve t spans i j in Narrows t spans i j i1 j1
unfolding halve
halve-Narrows t lo spans i j asc le short p = elim (Bool-cases (ltb i j)) [
  | inr stop ↦
      rw stop
        (record { ordered = le; within = short; shorter = λ fuel few. ground arith; split = p })
  | inl go ↦
      let h = (i + j) / 2 in
      let under : h < j = omega (arith, ltb→lt i j go) in
      let over : i ≤ h = omega (arith, ltb→lt i j go) in
      elim (Option-cases (get_elem? spans h)) [
        | inl out ↦ absurd (omega (arith, none_beyond spans h out))
        | inr (s, at) ↦ elim (Bool-cases (ltb t s.to)) [
          | inl late ↦
              rw (go, at, late)
                (record {
                  ordered = over;
                  within = omega arith;
                  shorter = λ fuel few. omega arith;
                  split = record {
                    below = p.below;
                    above = λ m u l e.
                        omega (arith, ltb→lt t s.to late, end_mono lo spans h m s u asc l at e);
                  };
                })
          | inr early ↦
              rw (go, at, early)
                (record {
                  ordered = omega arith;
                  within = short;
                  shorter = λ fuel few. omega arith;
                  split = record {
                    below = λ m u l e.
                        let le : u.to ≤ s.to = end_mono lo spans m h u s asc (omega arith) e at in
                        ground arith;
                    above = p.above;
                  };
                })
        ]
      ]
]

bisect-Split :
    (fuel t lo : ℕ) (spans : List Span) (i j : ℕ)
    → EndsAscend lo spans
    → i ≤ j
    → j ≤ i + fuel
    → j ≤ length spans
    → Split t spans i j
    → let k = bisect fuel t spans i j in Split t spans k k
unfolding bisect
bisect-Split zero t lo spans i j asc le few short p = record {
  below = p.below;
  above = λ m s l e. p.above m s (omega arith) e;
}
bisect-Split (suc fuel) t lo spans i j asc le few short p =
    let (i1, j1) = halve t spans i j in
    let n = halve-Narrows t lo spans i j asc le short p in
    bisect-Split fuel t lo spans i1 j1 asc n.ordered (n.shorter fuel few) n.within n.split

first-Split :
    (t : ℕ) (spans : List Span) (k : ℕ)
    → Split t spans k k
    → get_elem? spans k ≡ first_after t spans
unfolding first_after
first-Split t [] k p = refl
first-Split t (s ∷ spans) zero p = rw (lt→ltb t s.to (p.above 0 s (omega arith) refl)) refl
first-Split t (s ∷ spans) (suc k) p =
    let early : ltb t s.to ≡ false = let le = p.below 0 s (omega arith) refl in ground arith in
    rw early (
      first-Split t spans k (record {
        below = λ m u l e. p.below (suc m) u (omega arith) e;
        above = λ m u l e. p.above (suc m) u (omega arith) e;
      }))

pub search-first_after :
    (t lo : ℕ) (spans : List Span) → EndsAscend lo spans → search t spans ≡ first_after t spans
unfolding search
search-first_after t lo spans asc =
    first-Split t spans (bisect (length spans) t spans 0 (length spans)) (
      bisect-Split (length spans) t lo spans 0 (length spans) asc (omega arith) (omega arith)
        (omega arith)
        (record {
          below = λ m s l e. absurd (omega arith);
          above = λ m s l e. absurd (beyond spans m s l e);
        }))
  where
    beyond :
        (spans : List Span) (m : ℕ) (s : Span) → length spans ≤ m → get_elem? spans m ≡ some s → ⊥
    beyond [] m s l e = cc
    beyond (x ∷ spans) zero s l e = omega arith
    beyond (x ∷ spans) (suc m) s l e = beyond spans m s (omega arith) e
