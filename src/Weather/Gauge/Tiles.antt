-- ===== src/Weather/Gauge/Tiles.antt =====
-- Where the rows derived from the uplinks of a gauge lie.
use sumpnet.Prelude.{
  ℕ, ◌+◌, ◌-◌, ◌*◌, ◌≡◌, ◌≤◌, ◌<◌, not, ◌&&◌, ◌||◌, List, [], ◌∷◌, ◌++◌, some, ltb, arith,
  Bool-cases, inl, inr,
}
use sumpnet.Weather.Gauge.{
  second, tip_window, GaugeUplink, RainRow, Span, seconds, too_short, span_of, rows_of, derive_one,
  derive_gauge_rainfall,
}

-- The rows follow one another without an overlap, from `lo` to `hi`.
abbrev pub Laid : ℕ → List RainRow → ℕ → Type 0
Laid lo [] hi = lo ≤ hi
Laid lo (r ∷ rows) hi = (lo ≤ r.start) × Laid (r.start + r.interval_s * second) rows hi

-- The uplinks are sorted by time, from `lo` to `hi`.
abbrev pub Sorted : ℕ → List GaugeUplink → ℕ → Type 0
Sorted lo [] hi = lo ≡ hi
Sorted lo (u ∷ ups) hi = (lo ≤ u.at) × Sorted u.at ups hi

seconds_le : (d : ℕ) → seconds d * second ≤ d
seconds_le d = omega arith

Laid-append :
    (lo mid hi : ℕ) (xs ys : List RainRow) → Laid lo xs mid → Laid mid ys hi → Laid lo (xs ++ ys) hi
Laid-append lo mid hi [] [] h k = omega arith
Laid-append lo mid hi [] (y ∷ ys) h (k, l) = (omega arith, l)
Laid-append lo mid hi (x ∷ xs) ys (h, t) k =
    (h, Laid-append (x.start + x.interval_s * second) mid hi xs ys t k)

rows_of-Laid :
    (lo : ℕ) (u : GaugeUplink) (s : Span) → lo ≤ s.start → lo ≤ u.at → Laid lo (rows_of u s) u.at
unfolding rows_of
rows_of-Laid lo u s le at = elim (Bool-cases (too_short u s || u.sensor_fault)) [
  | inl e ↦ rw e at
  | inr e ↦
      let room : s.start + second ≤ u.at = ground arith in
      elim (Bool-cases (ltb 0 s.tips && (not s.lost && ltb tip_window (u.at - s.start)))) [
        | inl w ↦
            let long : tip_window < u.at - s.start = ground arith in
            rw (e, w)
              (
                le,
                (
                  omega (arith, seconds_le ((u.at - tip_window) - s.start), long),
                  omega (arith, long),
                ),
              )
        | inr w ↦ rw (e, w) (le, omega (arith, seconds_le (u.at - s.start), room))
      ]
]

derive_one-Laid : (p u : GaugeUplink) → p.at ≤ u.at → Laid p.at (derive_one (some p) u) u.at
unfolding derive_one span_of
derive_one-Laid p u le = elim (Bool-cases (u.counter_reset || ltb u.tip_count p.tip_count)) [
  | inl e ↦ rw (e, derive_one, span_of) (rows_of-Laid p.at u _ (ground arith) le)
  | inr e ↦ rw (e, derive_one, span_of) (rows_of-Laid p.at u _ (omega arith) le)
]

-- For uplinks sorted by time from a stored one to `hi`, the derived rows follow one another from the
-- stored uplink's time to `hi` without an overlap.
pub derive_gauge_rainfall-Laid :
    (p : GaugeUplink) (ups : List GaugeUplink) (hi : ℕ)
    → Sorted p.at ups hi
    → Laid p.at (derive_gauge_rainfall (some p) ups) hi
unfolding derive_gauge_rainfall
derive_gauge_rainfall-Laid p [] hi h = omega (arith, h)
derive_gauge_rainfall-Laid p (u ∷ ups) hi (le, h) =
    Laid-append p.at u.at hi (derive_one (some p) u) (derive_gauge_rainfall (some u) ups)
      (derive_one-Laid p u le) (derive_gauge_rainfall-Laid u ups hi h)
