-- ===== src/Weather/Gauge/Depth.antt =====
-- How much rain the rows derived from the uplinks of a gauge add up to.
use sumpnet.Prelude.{
  ℕ, ◌+◌, ◌-◌, ◌*◌, ◌≡◌, ◌≤◌, ap, ◌∙◌, false, not, ◌&&◌, ◌||◌, List, [], ◌∷◌, ◌++◌, some, ltb,
  arith, Bool-cases, inl, inr,
}
use sumpnet.Weather.Gauge.{
  second, tip_window, GaugeUplink, RainRow, Span, too_short, span_of, rows_of, derive_one,
  derive_gauge_rainfall,
}

-- The depth of the rows.
pub depth : List RainRow → ℕ
depth [] = 0
depth (r ∷ rows) = r.mm + depth rows

-- Each uplink follows the one before it by a second or more, with a counter that has not gone back,
-- no reset, no fault and `m` to a tip, up to an uplink that counts `n` tips.
abbrev pub Steady : ℕ → GaugeUplink → List GaugeUplink → ℕ → Type 0
Steady m p [] n = p.tip_count ≡ n
Steady m p (u ∷ ups) n =
    (p.at + second ≤ u.at)
    × (p.tip_count ≤ u.tip_count)
    × (u.counter_reset ≡ false)
    × (u.sensor_fault ≡ false)
    × (u.mm_per_tip ≡ m)
    × Steady m u ups n

depth-append : (xs ys : List RainRow) → depth (xs ++ ys) ≡ depth xs + depth ys
unfolding depth
depth-append [] ys = omega arith
depth-append (x ∷ xs) ys = omega (arith, depth-append xs ys)

minus_times : (a b m : ℕ) → b ≤ a → (a - b) * m + b * m ≡ a * m
minus_times a b m le = grind arith

rows_of-depth :
    (u : GaugeUplink) (s : Span)
    → s.start + second ≤ u.at
    → u.sensor_fault ≡ false
    → depth (rows_of u s) ≡ s.tips * u.mm_per_tip
unfolding depth rows_of
rows_of-depth u s room sound =
    let open_ : (too_short u s || u.sensor_fault) ≡ false = ground arith in
    elim (Bool-cases (ltb 0 s.tips && (not s.lost && ltb tip_window (u.at - s.start)))) [
      | inl w ↦ rw (open_, w) (omega arith)
      | inr w ↦ rw (open_, w) (omega arith)
    ]

derive_one-depth :
    (m : ℕ) (p u : GaugeUplink)
    → p.at + second ≤ u.at
    → p.tip_count ≤ u.tip_count
    → u.counter_reset ≡ false
    → u.sensor_fault ≡ false
    → u.mm_per_tip ≡ m
    → depth (derive_one (some p) u) ≡ (u.tip_count - p.tip_count) * m
unfolding derive_one span_of
derive_one-depth m p u room up steady sound per_tip =
    let forward : (u.counter_reset || ltb u.tip_count p.tip_count) ≡ false = ground arith in
    rw (forward, derive_one, span_of)
      (rows_of-depth u _ room sound ∙ ap (λ k. (u.tip_count - p.tip_count) * k) per_tip)

-- For steady uplinks after a stored one, at least a second apart, with no reset, no fault, a counter
-- that does not go back and the same depth to a tip, the depths of the derived rows add up to
-- the tips counted since the stored uplink: the tips of a lost uplink are not lost.
pub derive_gauge_rainfall-depth :
    (m : ℕ) (p : GaugeUplink) (ups : List GaugeUplink) (n : ℕ)
    → Steady m p ups n
    → depth (derive_gauge_rainfall (some p) ups) + p.tip_count * m ≡ n * m
unfolding derive_gauge_rainfall depth
derive_gauge_rainfall-depth m p [] n h = omega (arith, ap (λ k. k * m) h)
derive_gauge_rainfall-depth m p (u ∷ ups) n (room, up, steady, sound, per_tip, h) = omega (
  arith,
  depth-append (derive_one (some p) u) (derive_gauge_rainfall (some u) ups),
  derive_one-depth m p u room up steady sound per_tip,
  minus_times u.tip_count p.tip_count m up,
  derive_gauge_rainfall-depth m u ups n h,
)
