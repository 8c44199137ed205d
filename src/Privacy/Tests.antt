-- ===== src/Privacy/Tests.antt =====
-- The theorems on the aggregates, applied to two homes of one street segment.
use sumpnet.Prelude.{ℕ, ◌≡◌, refl, String, true, List, [], ◌∷◌, ◌++◌, none, some, arith}
use sumpnet.Privacy.{
  HomeStorm, aggregate_storm, aggregate_status, published, totals, add_home, is_seen,
}
use sumpnet.Privacy.Anonymity.{
  aggregate_storm_hides, aggregate_storm_once, aggregate_status_hides, has_home,
}

abbrev home : String → ℕ → HomeStorm
home id volume = record { home_id = id; volume_l = volume; lag_min = some 12; recession_min = none }

abbrev two_homes : List HomeStorm
two_homes = home "a" 900 ∷ home "b" 1200 ∷ []

abbrev two_others : List HomeStorm
two_others = home "c" 5 ∷ home "d" 7 ∷ home "c" 8 ∷ []

two_report : (aggregate_storm "seg-1" two_homes).homes_reporting ≡ 2
unfolding aggregate_storm published totals add_home is_seen
two_report = refl

same_number :
    (aggregate_storm "seg-1" two_others).homes_reporting
    ≡ (aggregate_storm "seg-1" two_homes).homes_reporting
unfolding aggregate_storm published totals add_home is_seen
same_number = refl

aggregate_storm_hides_example :
    aggregate_storm "seg-1" two_others ≡ aggregate_storm "seg-1" two_homes
aggregate_storm_hides_example =
    aggregate_storm_hides "seg-1" two_homes two_others (omega (arith, two_report)) same_number

has_a : has_home two_homes "a" ≡ true
unfolding has_home
has_a = refl

aggregate_storm_once_example :
    aggregate_storm "seg-1" (two_homes ++ home "a" 7 ∷ []) ≡ aggregate_storm "seg-1" two_homes
aggregate_storm_once_example = aggregate_storm_once "seg-1" two_homes (home "a" 7) has_a

aggregate_status_hides_example : aggregate_status "seg-1" 2 30 1 ≡ aggregate_status "seg-1" 2 0 0
aggregate_status_hides_example = aggregate_status_hides "seg-1" 2 30 1 0 0 (omega arith)
