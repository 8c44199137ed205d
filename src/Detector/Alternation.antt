-- ===== src/Detector/Alternation.antt =====
-- The detections of one device and one condition alternate between raise and clear.
use text.Mathlib.Text.{◌==◌ as str_eq}
use text.Mathlib.TextEquality.{eq_iff}
use sumpnet.Prelude.{
  ℕ, ◌≡◌, ◌∙◌, String, Bool, true, false, ◌&&◌, List, [], ◌∷◌, ◌++◌, Option, none, some, arith,
  Option-cases, inl, inr, if◌then◌else◌,
}
use sumpnet.AlertCode.{AlertCode, dry_run, continuous_run, short_cycling, code_eq, code_eq_iff}
use sumpnet.Hydrology.{Cycle, short_cycling_run}
use sumpnet.Detector.{
  raise, clear, Config, CycleRow, SummaryRow, Detection, Handler, set_window, last_n, or_empty,
  classify_dry, classify_continuous, classify_short, classify_window, classify_seeded,
  classify_summary,
}

-- An observer that follows the condition (dev, code): a raise is legal while the condition is
-- inactive, a clear while it is active, and `none` marks an illegal detection.
abbrev pub observe : String → AlertCode → Bool → Detection → Option Bool
observe dev code st d =
    if str_eq d.device dev && code_eq d.code code
    then elim d.action [
      | raise ↦ if st then none else some true
      | clear ↦ if st then some false else none
    ]
    else some st

abbrev pub follow : String → AlertCode → Bool → List Detection → Option Bool
follow dev code st [] = some st
follow dev code st (d ∷ ds) = elim (observe dev code st d) [
  | none ↦ none
  | some st' ↦ follow dev code st' ds
]

pub follow-append :
    (dev : String) (code : AlertCode) (st st' : Bool) (ds es : List Detection)
    → follow dev code st ds ≡ some st'
    → follow dev code st (ds ++ es) ≡ follow dev code st' es
follow-append dev code st st' [] es h = ground arith
follow-append dev code st st' (d ∷ ds) es h = elim (Option-cases (observe dev code st d)) [
  | inl e ↦ cc (rw (e, follow) at h)
  | inr p ↦ rw (p.1, follow) (follow-append dev code p.0 st' ds es (rw (p.1, follow) at h))
]

module _ (cfg : Config) (dev : String) (code : AlertCode) where
  dry_follow :
      (h : Handler) (r : CycleRow) (c : Cycle)
      → follow dev code (h.active dev code) (classify_dry cfg h r c).1
        ≡ some ((classify_dry cfg h r c).0.active dev code)
  unfolding classify_dry
  dry_follow h r c = ground (arith, eq_iff r.device_id dev, code_eq_iff dry_run code)

  short_follow :
      (h : Handler) (r : CycleRow) (c : Cycle) (n : ℕ)
      → follow dev code (h.active dev code) (classify_short cfg h r c n).1
        ≡ some ((classify_short cfg h r c n).0.active dev code)
  unfolding classify_short
  short_follow h r c n = ground (arith, eq_iff r.device_id dev, code_eq_iff short_cycling code)

  continuous_follow :
      (st : Bool) (r : CycleRow) (c : Cycle)
      → (code ≡ continuous_run → st ≡ false)
      → follow dev code st (classify_continuous r c) ≡ some st
  unfolding classify_continuous
  continuous_follow st r c h = ground (arith, code_eq_iff continuous_run code)

  -- Dry runs leave the flag of continuous runs alone.
  dry_keeps :
      (h : Handler) (r : CycleRow) (c : Cycle)
      → (code ≡ continuous_run → h.active dev code ≡ false)
      → code ≡ continuous_run
      → (classify_dry cfg h r c).0.active dev code ≡ false
  unfolding classify_dry
  dry_keeps h r c k e = ground (arith, k e, code_eq_iff dry_run code)

  window_follow :
      (h : Handler) (r : CycleRow) (c : Cycle)
      → follow dev code (h.active dev code) (classify_window cfg h r c).1
        ≡ some ((classify_window cfg h r c).0.active dev code)
  unfolding classify_window
  window_follow h r c =
      let w = last_n cfg.window (or_empty (h.windows r.device_id c.pump) ++ c ∷ []) in
      short_follow (record h { windows = set_window h.windows r.device_id c.pump (some w) }) r c
        (short_cycling_run w)

  pub seeded_follow :
      (h : Handler) (r : CycleRow) (c : Cycle)
      → (code ≡ continuous_run → h.active dev code ≡ false)
      → follow dev code (h.active dev code) (classify_seeded cfg h r c).1
        ≡ some ((classify_seeded cfg h r c).0.active dev code)
  unfolding classify_seeded
  seeded_follow h r c k =
      let h1 = (classify_dry cfg h r c).0 in
      follow-append dev code (h.active dev code) (h1.active dev code) _ _ (dry_follow h r c)
      ∙ (follow-append dev code (h1.active dev code) (h1.active dev code) (classify_continuous r c)
            _ (continuous_follow (h1.active dev code) r c (dry_keeps h r c k))
          ∙ window_follow h1 r c)

  pub summary_follow :
      (h : Handler) (r : SummaryRow)
      → follow dev code (h.active dev code) (classify_summary cfg h r).1
        ≡ some ((classify_summary cfg h r).0.active dev code)
  unfolding classify_summary
  summary_follow h r = ground (arith, eq_iff r.device_id dev, code_eq_iff short_cycling code)
