-- ===== src/Privacy/Anonymity.antt =====
-- What a public aggregate tells of the homes behind it.
use text.Mathlib.Text.{◌==◌ as str_eq}
use text.Mathlib.TextEquality.{eq_iff}
use sumpnet.Prelude.{
  ℕ, ◌≡◌, ◌<◌, refl, sym, ap, subst, ◌∙◌, String, Bool, true, false, ◌||◌, List, [], ◌∷◌, ◌++◌,
  arith, length, Bool-cases, inl, inr,
}
use sumpnet.Privacy.{
  min_homes, visible, HomeStorm, SegmentStorm, Totals, no_totals, nothing, is_seen, add_home,
  totals, aggregate_storm, published, aggregate_status,
}

-- What is published of a segment that fewer homes than the threshold report.
abbrev pub hidden : String → ℕ → SegmentStorm
hidden segment n = record {
  segment_id = segment;
  homes_reporting = n;
  is_suppressed = true;
  load_l_per_home = nothing;
  median_lag_min = nothing;
  median_recession_min = nothing;
}

reporting :
    (segment : String) (homes : List HomeStorm)
    → (aggregate_storm segment homes).homes_reporting ≡ length (totals no_totals homes).seen
unfolding aggregate_storm published
reporting segment homes = elim (Bool-cases (visible (length (totals no_totals homes).seen))) [
  | inl e ↦ rw (e, published) refl
  | inr e ↦ rw (e, published) refl
]

hidden_storm :
    (segment : String) (homes : List HomeStorm)
    → (aggregate_storm segment homes).homes_reporting < min_homes
    → aggregate_storm segment homes ≡ hidden segment (aggregate_storm segment homes).homes_reporting
unfolding aggregate_storm published
hidden_storm segment homes few =
    let n = reporting segment homes in
    let shut : visible (length (totals no_totals homes).seen) ≡ false = ground (arith, n, few) in
    rw (shut, published) refl

-- Of a segment that fewer homes than the threshold report, the storm aggregate tells their number and
-- nothing else: two sets of rows with the same number of reporting homes give the same one.
pub aggregate_storm_hides :
    (segment : String) (homes others : List HomeStorm)
    → (aggregate_storm segment homes).homes_reporting < min_homes
    → (aggregate_storm segment others).homes_reporting
      ≡ (aggregate_storm segment homes).homes_reporting
    → aggregate_storm segment others ≡ aggregate_storm segment homes
aggregate_storm_hides segment homes others few same =
    hidden_storm segment others (rw same few)
    ∙ ap (hidden segment) same
    ∙ sym (hidden_storm segment homes few)

totals-append :
    (t : Totals) (homes more : List HomeStorm)
    → totals t (homes ++ more) ≡ totals (totals t homes) more
unfolding totals
totals-append t [] more = refl
totals-append t (h ∷ homes) more = totals-append (add_home t h) homes more

-- The rows have one of the home.
unfoldable pub has_home : List HomeStorm → String → Bool
has_home [] home = false
has_home (h ∷ homes) home = str_eq h.home_id home || has_home homes home

add_home-seen :
    (t : Totals) (h : HomeStorm) (home : String)
    → is_seen (add_home t h).seen home ≡ (is_seen t.seen home || str_eq h.home_id home)
unfolding add_home is_seen
add_home-seen t h home = elim (Bool-cases (is_seen t.seen h.home_id)) [
  | inr e ↦ rw (e, add_home) (ground arith)
  | inl e ↦ elim (Bool-cases (str_eq h.home_id home)) [
    | inr q ↦ rw (e, add_home) (ground arith)
    | inl q ↦
        let there : is_seen t.seen home ≡ true =
          subst (λ x. is_seen t.seen x ≡ true) ((eq_iff h.home_id home).0 q) e in
        rw (e, add_home) (ground (arith, there))
  ]
]

totals-seen :
    (t : Totals) (homes : List HomeStorm) (home : String)
    → (is_seen t.seen home || has_home homes home) ≡ true
    → is_seen (totals t homes).seen home ≡ true
unfolding totals has_home
totals-seen t [] home h = ground arith
totals-seen t (x ∷ homes) home h =
    totals-seen (add_home t x) homes home (rw (add_home-seen t x home) (ground arith))

skip_home : (t : Totals) (h : HomeStorm) → is_seen t.seen h.home_id ≡ true → add_home t h ≡ t
unfolding add_home
skip_home t h e = rw (e, add_home) refl

-- A further row of a home that has a row already does not change the storm aggregate.
pub aggregate_storm_once :
    (segment : String) (homes : List HomeStorm) (h : HomeStorm)
    → has_home homes h.home_id ≡ true
    → aggregate_storm segment (homes ++ h ∷ []) ≡ aggregate_storm segment homes
unfolding aggregate_storm totals add_home
aggregate_storm_once segment homes h there =
    let seen = totals-seen no_totals homes h.home_id (ground (arith, there)) in
    let same : totals no_totals (homes ++ h ∷ []) ≡ totals no_totals homes =
      totals-append no_totals homes (h ∷ []) ∙ skip_home (totals no_totals homes) h seen in
    ap (published segment) same

-- A segment's live status tells of a segment that fewer homes than the threshold report their number
-- and nothing else.
pub aggregate_status_hides :
    (segment : String) (n rate alerts other_rate other_alerts : ℕ)
    → n < min_homes
    → aggregate_status segment n rate alerts ≡ aggregate_status segment n other_rate other_alerts
unfolding aggregate_status
aggregate_status_hides segment n rate alerts other_rate other_alerts few =
    let shut : visible n ≡ false = ground (arith, few) in rw shut refl
