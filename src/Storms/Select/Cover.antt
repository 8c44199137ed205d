-- ===== src/Storms/Select/Cover.antt =====
-- The union of the gauges' intervals against the plain question whether any of them overlaps.
use sumpnet.Prelude.{
  ℕ, ◌≤◌, ◌<◌, ◌≡◌, refl, ap, Bool, true, false, not, ◌&&◌, ◌||◌, List, [], ◌∷◌, ltb, leb, ◌==◌,
  if◌then◌else◌, max, Bool-cases, inl, inr, arith, ◌∙◌, ltb→lt,
}
use sumpnet.Hydrology.Storm.{RainInterval, end_of}
use sumpnet.Storms.Select.Search.{first_after, EndsAscend, search-first_after}
use sumpnet.Storms.Select.{
  Span, place, sort, extend, spans_of, union_spans, search, starts_before, uncovered,
}

-- Do two intervals, the second of some length, have a time in common?
unfoldable pub overlaps : RainInterval → RainInterval → Bool
overlaps r c = not (c.dur == 0) && (ltb r.start (end_of c) && ltb c.start (end_of r))

unfoldable pub any_overlaps : RainInterval → List RainInterval → Bool
any_overlaps r [] = false
any_overlaps r (c ∷ cover) = let rest = any_overlaps r cover in overlaps r c || rest

-- The intervals that none of the cover overlaps.
unfoldable pub clear_of : List RainInterval → List RainInterval → List RainInterval
clear_of cover [] = []
clear_of cover (r ∷ iv) =
    let rest = clear_of cover iv in if any_overlaps r cover then rest else r ∷ rest

abbrev pub AreLong : List RainInterval → Type 0
AreLong [] = Unit
AreLong (r ∷ iv) = (0 < r.dur) × AreLong iv

abbrev hits : RainInterval → Span → Bool
hits r s = ltb r.start s.to && ltb s.from (end_of r)

abbrev any_hits : RainInterval → List Span → Bool
any_hits r [] = false
any_hits r (s ∷ spans) = hits r s || any_hits r spans

-- Starts that do not fall, from `lo` on.
abbrev Ascends : ℕ → List RainInterval → Type 0
Ascends lo [] = Unit
Ascends lo (c ∷ iv) = (lo ≤ c.start) × Ascends c.start iv

abbrev SpansAscend : ℕ → List Span → Type 0
SpansAscend lo [] = Unit
SpansAscend lo (s ∷ spans) = (lo ≤ s.from) × SpansAscend s.from spans

or_swap : (a b c : Bool) → (a || (b || c)) ≡ (b || (a || c))
or_swap true true c = refl
or_swap true false c = refl
or_swap false b c = refl

or_assoc : (a b c : Bool) → ((a || b) || c) ≡ (a || (b || c))
or_assoc true b c = refl
or_assoc false b c = refl

and_false : (a : Bool) → (a && false) ≡ false
and_false true = refl
and_false false = refl

not_lt : (m n : ℕ) → n ≤ m → ltb m n ≡ false
not_lt m n h = ground arith

ge_of : (m n : ℕ) → ltb m n ≡ false → n ≤ m
ge_of m n h = ground arith

place-overlaps :
    (r c : RainInterval) (iv : List RainInterval)
    → any_overlaps r (place c iv) ≡ (overlaps r c || any_overlaps r iv)
unfolding place any_overlaps
place-overlaps r c [] = refl
place-overlaps r c (x ∷ iv) = elim (Bool-cases (ltb x.start c.start)) [
  | inr e ↦ rw e refl
  | inl e ↦
      rw (e, place-overlaps r c iv) (or_swap (overlaps r x) (overlaps r c) (any_overlaps r iv))
]

sort-overlaps :
    (r : RainInterval) (iv : List RainInterval) → any_overlaps r (sort iv) ≡ any_overlaps r iv
unfolding sort any_overlaps
sort-overlaps r [] = refl
sort-overlaps r (c ∷ iv) =
    place-overlaps r c (sort iv) ∙ ap (λ b. overlaps r c || b) (sort-overlaps r iv)

place-Ascends :
    (lo : ℕ) (c : RainInterval) (iv : List RainInterval)
    → lo ≤ c.start
    → Ascends lo iv
    → Ascends lo (place c iv)
unfolding place
place-Ascends lo c [] l h = (l, tt)
place-Ascends lo c (x ∷ iv) l h = elim (Bool-cases (ltb x.start c.start)) [
  | inr e ↦ rw e (l, (ground arith, h.1))
  | inl e ↦ rw e (h.0, place-Ascends x.start c iv (omega (arith, ltb→lt x.start c.start e)) h.1)
]

sort-Ascends : (iv : List RainInterval) → Ascends 0 (sort iv)
unfolding sort
sort-Ascends [] = tt
sort-Ascends (c ∷ iv) = place-Ascends 0 c (sort iv) (omega arith) (sort-Ascends iv)

weaken : (lo m : ℕ) (iv : List RainInterval) → lo ≤ m → Ascends m iv → Ascends lo iv
weaken lo m [] l h = tt
weaken lo m (c ∷ iv) l h = (omega (arith, h.0), h.1)

-- A span that an interval touches or overlaps, extended by it.
merged :
    (r c : RainInterval) (s : Span)
    → 0 < r.dur
    → (c.dur == 0) ≡ false
    → s.from ≤ c.start
    → leb c.start s.to ≡ true
    → hits r (record s { to = max s.to (end_of c) }) ≡ (hits r s || overlaps r c)
unfolding overlaps
merged r c s long some_dur after touching = ground arith

extend-overlaps :
    (r : RainInterval) (s : Span) (iv : List RainInterval)
    → 0 < r.dur
    → Ascends s.from iv
    → any_hits r (extend s iv) ≡ (hits r s || any_overlaps r iv)
unfolding extend any_overlaps
extend-overlaps r s [] long h = refl
extend-overlaps r s (c ∷ iv) long h = elim (Bool-cases (c.dur == 0)) [
  | inl e ↦
      let skip : overlaps r c ≡ false = unfold overlaps in rw e refl in
      rw (e, skip) (extend-overlaps r s iv long (weaken s.from c.start iv h.0 h.1))
  | inr e ↦ elim (Bool-cases (leb c.start s.to)) [
    | inl t ↦
        let s1 : Span = record s { to = max s.to (end_of c) } in
        let join = merged r c s long e h.0 t in
        rw (e, t)
          (extend-overlaps r s1 iv long (weaken s.from c.start iv h.0 h.1)
            ∙ ap (λ b. b || any_overlaps r iv) join
            ∙ or_assoc (hits r s) (overlaps r c) (any_overlaps r iv))
    | inr t ↦
        let s1 : Span = record { from = c.start; to = end_of c } in
        let own : hits r s1 ≡ overlaps r c = unfold overlaps in rw e refl in
        rw (e, t)
          (ap (λ b. hits r s || b)
            (extend-overlaps r s1 iv long h.1 ∙ ap (λ b. b || any_overlaps r iv) own))
  ]
]

spans-overlap :
    (r : RainInterval) (iv : List RainInterval)
    → 0 < r.dur
    → Ascends 0 iv
    → any_hits r (spans_of iv) ≡ any_overlaps r iv
unfolding spans_of any_overlaps
spans-overlap r [] long h = refl
spans-overlap r (c ∷ iv) long h = elim (Bool-cases (c.dur == 0)) [
  | inl e ↦
      let skip : overlaps r c ≡ false = unfold overlaps in rw e refl in
      rw (e, skip) (spans-overlap r iv long (weaken 0 c.start iv h.0 h.1))
  | inr e ↦
      let s : Span = record { from = c.start; to = end_of c } in
      let own : hits r s ≡ overlaps r c = unfold overlaps in rw e refl in
      rw e (extend-overlaps r s iv long h.1 ∙ ap (λ b. b || any_overlaps r iv) own)
]

extend-SpansAscend :
    (lo : ℕ) (s : Span) (iv : List RainInterval)
    → lo ≤ s.from
    → Ascends s.from iv
    → SpansAscend lo (extend s iv)
unfolding extend
extend-SpansAscend lo s [] l h = (l, tt)
extend-SpansAscend lo s (c ∷ iv) l h = elim (Bool-cases (c.dur == 0)) [
  | inl e ↦ rw e (extend-SpansAscend lo s iv l (weaken s.from c.start iv h.0 h.1))
  | inr e ↦ elim (Bool-cases (leb c.start s.to)) [
    | inl t ↦
        rw (e, t)
          (extend-SpansAscend lo (record s { to = max s.to (end_of c) }) iv l
            (weaken s.from c.start iv h.0 h.1))
    | inr t ↦
        rw (e, t)
          (l, extend-SpansAscend s.from (record { from = c.start; to = end_of c }) iv h.0 h.1)
  ]
]

spans-SpansAscend : (iv : List RainInterval) → Ascends 0 iv → SpansAscend 0 (spans_of iv)
unfolding spans_of
spans-SpansAscend [] h = tt
spans-SpansAscend (c ∷ iv) h = elim (Bool-cases (c.dur == 0)) [
  | inl e ↦ rw e (spans-SpansAscend iv (weaken 0 c.start iv h.0 h.1))
  | inr e ↦ rw e (extend-SpansAscend 0 (record { from = c.start; to = end_of c }) iv h.0 h.1)
]

extend-EndsAscend :
    (lo : ℕ) (s : Span) (iv : List RainInterval) → lo ≤ s.to → EndsAscend lo (extend s iv)
unfolding extend
extend-EndsAscend lo s [] l = (l, tt)
extend-EndsAscend lo s (c ∷ iv) l = elim (Bool-cases (c.dur == 0)) [
  | inl e ↦ rw e (extend-EndsAscend lo s iv l)
  | inr e ↦ elim (Bool-cases (leb c.start s.to)) [
    | inl t ↦
        rw (e, t) (extend-EndsAscend lo (record s { to = max s.to (end_of c) }) iv (omega arith))
    | inr t ↦
        let after : s.to ≤ end_of c = ground arith in
        rw (e, t) (l, extend-EndsAscend s.to (record { from = c.start; to = end_of c }) iv after)
  ]
]

-- The spans are disjoint enough that their ends come in order.
spans-EndsAscend : (iv : List RainInterval) → EndsAscend 0 (spans_of iv)
unfolding spans_of
spans-EndsAscend [] = tt
spans-EndsAscend (c ∷ iv) = elim (Bool-cases (c.dur == 0)) [
  | inl e ↦ rw e (spans-EndsAscend iv)
  | inr e ↦ rw e (extend-EndsAscend 0 (record { from = c.start; to = end_of c }) iv (omega arith))
]

-- Spans that start no earlier than the interval ends do not overlap it.
late :
    (r : RainInterval) (lo : ℕ) (spans : List Span)
    → end_of r ≤ lo
    → SpansAscend lo spans
    → any_hits r spans ≡ false
late r lo [] l h = refl
late r lo (s ∷ spans) l h =
    let out : ltb s.from (end_of r) ≡ false = not_lt s.from (end_of r) (omega (arith, h.0)) in
    rw (out, late r s.from spans (omega (arith, h.0)) h.1, and_false (ltb r.start s.to)) refl

-- The first span that ends after the interval's start decides.
first_after-hits :
    (r : RainInterval) (lo : ℕ) (spans : List Span)
    → SpansAscend lo spans
    → starts_before (first_after r.start spans) (end_of r) ≡ any_hits r spans
unfolding first_after
first_after-hits r lo [] h = refl
first_after-hits r lo (s ∷ spans) h = elim (Bool-cases (ltb r.start s.to)) [
  | inr e ↦ rw e (first_after-hits r s.from spans h.1)
  | inl e ↦ elim (Bool-cases (ltb s.from (end_of r))) [
    | inl d ↦ rw (e, d) refl
    | inr d ↦ rw (e, d, late r s.from spans (ge_of s.from (end_of r) d) h.1) refl
  ]
]

-- For intervals of some length, what selectRain keeps of a fallback station by the sorted, merged
-- spans of the gauges and a binary search is exactly the intervals that no gauge interval of some
-- length overlaps, in their order.
pub uncovered-clear_of :
    (cover iv : List RainInterval)
    → AreLong iv
    → uncovered (union_spans cover) iv ≡ clear_of cover iv
unfolding uncovered union_spans clear_of
uncovered-clear_of cover [] h = refl
uncovered-clear_of cover (r ∷ iv) h =
    let sorted = sort-Ascends cover in
    let same : starts_before (search r.start (spans_of (sort cover))) (end_of r)
        ≡ any_overlaps r cover =
      ap (λ o. starts_before o (end_of r))
        (search-first_after r.start 0 (spans_of (sort cover)) (spans-EndsAscend (sort cover)))
      ∙ first_after-hits r 0 (spans_of (sort cover)) (spans-SpansAscend (sort cover) sorted)
      ∙ spans-overlap r (sort cover) h.0 sorted
      ∙ sort-overlaps r cover in
    rw (same, uncovered-clear_of cover iv h.1) refl
