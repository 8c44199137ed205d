-- ===== src/Hydrology/Storm/Apart.antt =====
-- The storms of a sorted series follow one another at the gap that divides storms.
use sumpnet.Prelude.{
  ℕ, ◌+◌, ◌≤◌, Bool, true, not, ◌&&◌, List, [], ◌∷◌, leb, leb→le, Bool-cases, inl, inr, arith,
}
use sumpnet.Hydrology.Storm.{
  RainInterval, Storm, Current, is_wet, is_onset, intensity, begun, rained, flush, segment_from,
  segment_storms, storm_min_total, storm_max_gap,
}

-- Starts that do not fall, from `lo` on.
abbrev pub StartsAscend : ℕ → List RainInterval → Type 0
StartsAscend lo [] = Unit
StartsAscend lo (r ∷ rain) = (lo ≤ r.start) × StartsAscend r.start rain

-- Storms from `lo` on, each with its times in order and the least total at least, the next one a
-- gap after the last.
abbrev pub AreApart : ℕ → List Storm → Type 0
AreApart lo [] = Unit
AreApart lo (s ∷ storms) =
    (lo ≤ s.first_rain)
    × (s.first_rain ≤ s.onset)
    × (s.onset ≤ s.rain_end)
    × (storm_min_total ≤ s.total_mm)
    × AreApart (s.rain_end + storm_max_gap) storms

-- The storm so far, up to intervals that start at `now`.
record IsRunning (lo now : ℕ) (c : Current) : Type 0 where
  begins : lo ≤ c.first_rain
  started : c.first_rain ≤ now
  onset_after : c.first_rain ≤ c.onset
  onset_before : c.onset ≤ c.rain_end

rained-IsRunning :
    (lo now : ℕ) (r : RainInterval) (c : Current)
    → now ≤ r.start
    → IsRunning lo now c
    → IsRunning lo r.start (rained r c)
unfolding rained
rained-IsRunning lo now r c l i = elim (Bool-cases (not c.onset_found && is_onset (intensity r))) [
  | inl e ↦ record {
    begins = i.begins;
    started = omega (arith, i.started);
    onset_after = rw e (omega (arith, i.started));
    onset_before = rw e (omega arith);
  }
  | inr e ↦ record {
    begins = i.begins;
    started = omega (arith, i.started);
    onset_after = rw e i.onset_after;
    onset_before = rw e (omega (arith, i.onset_before));
  }
]

begun-IsRunning :
    (lo : ℕ) (r : RainInterval) → lo ≤ r.start → IsRunning lo r.start (rained r (begun r))
unfolding rained
begun-IsRunning lo r l = elim (Bool-cases (is_onset (intensity r))) [
  | inl e ↦ record {
    begins = l;
    started = omega arith;
    onset_after = rw e (omega arith);
    onset_before = rw e (omega arith);
  }
  | inr e ↦ record {
    begins = l;
    started = omega arith;
    onset_after = rw e (omega arith);
    onset_before = rw e (omega arith);
  }
]

weaken_start :
    (lo m : ℕ) (rain : List RainInterval) → lo ≤ m → StartsAscend m rain → StartsAscend lo rain
weaken_start lo m [] l h = tt
weaken_start lo m (r ∷ rain) l h = (omega (arith, h.0), h.1)

weaken_apart : (lo m : ℕ) (storms : List Storm) → lo ≤ m → AreApart m storms → AreApart lo storms
weaken_apart lo m [] l h = tt
weaken_apart lo m (s ∷ storms) l (h0, h1, h2, h3, h4) = (omega (arith, h0), h1, h2, h3, h4)

flush-AreApart :
    (lo now : ℕ) (closed : Bool) (c : Current) (storms : List Storm)
    → IsRunning lo now c
    → AreApart (c.rain_end + storm_max_gap) storms
    → AreApart lo (flush closed c storms)
unfolding flush
flush-AreApart lo now closed c storms i h = elim (Bool-cases (leb storm_min_total c.total_mm)) [
  | inl e ↦ rw e (i.begins, i.onset_after, i.onset_before, leb→le storm_min_total c.total_mm e, h)
  | inr e ↦ rw e (
      weaken_apart lo (c.rain_end + storm_max_gap) storms
        (omega (arith, i.begins, i.onset_after, i.onset_before)) h)
]

segment_from-AreApart :
    (horizon lo now : ℕ) (c : Current) (rain : List RainInterval)
    → IsRunning lo now c
    → StartsAscend now rain
    → AreApart lo (segment_from horizon c rain)
unfolding segment_from
segment_from-AreApart horizon lo now c [] i h = flush-AreApart lo now _ c [] i tt
segment_from-AreApart horizon lo now c (r ∷ rain) i h = elim (Bool-cases (is_wet r)) [
  | inr e ↦
      rw e (segment_from-AreApart horizon lo now c rain i (weaken_start now r.start rain h.0 h.1))
  | inl e ↦ elim (Bool-cases (leb (c.rain_end + storm_max_gap) r.start)) [
    | inl g ↦
        let after = leb→le (c.rain_end + storm_max_gap) r.start g in
        rw (e, g)
          (flush-AreApart lo now true c (segment_from horizon (rained r (begun r)) rain) i (
            segment_from-AreApart horizon (c.rain_end + storm_max_gap) r.start (rained r (begun r))
              rain (begun-IsRunning (c.rain_end + storm_max_gap) r after) h.1))
    | inr g ↦
        rw (e, g)
          (segment_from-AreApart horizon lo r.start (rained r c) rain
            (rained-IsRunning lo now r c h.0 i) h.1)
  ]
]

-- The storms that SegmentStorms finds in a series sorted by start come in order: each has its
-- onset no earlier than its first rain and no later than the end of its last rain, has the least
-- total at least, and the next begins the dividing gap or more after it.
pub segment_storms-AreApart :
    (horizon lo : ℕ) (rain : List RainInterval)
    → StartsAscend lo rain
    → AreApart lo (segment_storms horizon rain)
unfolding segment_storms
segment_storms-AreApart horizon lo [] h = tt
segment_storms-AreApart horizon lo (r ∷ rain) h = elim (Bool-cases (is_wet r)) [
  | inr e ↦ rw e (segment_storms-AreApart horizon lo rain (weaken_start lo r.start rain h.0 h.1))
  | inl e ↦ rw e (
      segment_from-AreApart horizon lo r.start (rained r (begun r)) rain (begun-IsRunning lo r h.0)
        h.1)
]
