-- ===== src/Detector/Batches.antt =====
-- The detections of a whole batch, for devices whose windows are loaded.
use text.Mathlib.Text.{◌==◌ as str_eq}
use sumpnet.Prelude.{
  ℕ, ◌≡◌, ◌∙◌, ◌≢◌, refl, String, ◌&&◌, List, [], ◌∷◌, ◌++◌, some, arith, Bool-cases, inl, inr,
}
use sumpnet.Prelude.Result.{Result, ok}
use sumpnet.AlertCode.{AlertCode, continuous_run}
use sumpnet.Hydrology.{Cycle}
use sumpnet.Detector.{
  Config, CycleRow, SummaryRow, Detection, Handler, to_cycle, classify_seeded, classify,
  classify_all, classify_summary, classify_summaries,
}
use sumpnet.Detector.Windows.{next_window, seeded_windows}
use sumpnet.Detector.Alternation.{follow, follow-append, seeded_follow, summary_follow}

-- The window of the row's device and pump is loaded.
abbrev pub IsLoaded : Handler → CycleRow → Type 0
IsLoaded h r = (w : List Cycle) × (h.windows r.device_id r.pump_id ≡ some w)

abbrev pub AllLoaded : Handler → List CycleRow → Type 0
AllLoaded h [] = Unit
AllLoaded h (r ∷ rs) = IsLoaded h r × AllLoaded h rs

-- Once loaded a window stays loaded.
seeded-IsLoaded :
    (cfg : Config) (h : Handler) (r s : CycleRow) (c : Cycle)
    → IsLoaded h s
    → IsLoaded (classify_seeded cfg h r c).0 s
seeded-IsLoaded cfg h r s c l =
    elim (Bool-cases (str_eq r.device_id s.device_id && str_eq c.pump s.pump_id)) [
      | inl same ↦ (next_window cfg h r c, rw (seeded_windows cfg h r c) (rw same))
      | inr other ↦ (l.0, rw (seeded_windows cfg h r c) (rw other l.1))
    ]

pub seeded-AllLoaded :
    (cfg : Config) (h : Handler) (r : CycleRow) (rs : List CycleRow) (c : Cycle)
    → AllLoaded h rs
    → AllLoaded (classify_seeded cfg h r c).0 rs
seeded-AllLoaded cfg h r [] c l = tt
seeded-AllLoaded cfg h r (s ∷ rs) c l =
    (seeded-IsLoaded cfg h r s c l.0, seeded-AllLoaded cfg h r rs c l.1)

module _ {E : Type 0} (before : String → ℕ → ℕ → Result E (List CycleRow)) (cfg : Config) where
  pub classify-loaded :
      (h : Handler) (r : CycleRow)
      → IsLoaded h r
      → classify before cfg h r ≡ ok (classify_seeded cfg h r (to_cycle r))
  unfolding classify
  classify-loaded h r l = ground arith

  -- A batch of cycles whose windows are loaded is classified without reading the database and
  -- without an error, and for every device and every condition but continuous runs its detections
  -- alternate: raises only while the condition was inactive and clears only while it was active,
  -- from the flag before the batch to the flag after it.
  pub classify_all-alternates :
      (h : Handler) (rs : List CycleRow) (dev : String) (code : AlertCode)
      → AllLoaded h rs
      → code ≢ continuous_run
      → (h' : Handler) × (ds : List Detection) × (classify_all before cfg h rs ≡ ok (h', ds))
        × (follow dev code (h.active dev code) ds ≡ some (h'.active dev code))
  unfolding classify_all
  classify_all-alternates h [] dev code l n = (h, [], refl, refl)
  classify_all-alternates h (r ∷ rs) dev code l n =
      let c = to_cycle r in
      let h1 = (classify_seeded cfg h r c).0 in
      let d = (classify_seeded cfg h r c).1 in
      let (h2, ds, e, f) =
        classify_all-alternates h1 rs dev code (seeded-AllLoaded cfg h r rs c l.1) n in
      (
        h2,
        d ++ ds,
        rw (classify-loaded h r l.0) (rw e),
        follow-append dev code (h.active dev code) (h1.active dev code) d ds
              (seeded_follow cfg dev code h r c (λ k. absurd (n k)))
            ∙ f,
      )

-- The detections of a batch of storm summaries alternate for every device and every condition, from
-- the flag before the batch to the flag after it.
pub classify_summaries-alternates :
    (cfg : Config) (h : Handler) (rs : List SummaryRow) (dev : String) (code : AlertCode)
    → follow dev code (h.active dev code) (classify_summaries cfg h rs).1
      ≡ some ((classify_summaries cfg h rs).0.active dev code)
unfolding classify_summaries
classify_summaries-alternates cfg h [] dev code = refl
classify_summaries-alternates cfg h (r ∷ rs) dev code =
    let h1 = (classify_summary cfg h r).0 in
    follow-append dev code (h.active dev code) (h1.active dev code) (classify_summary cfg h r).1 _
      (summary_follow cfg dev code h r)
    ∙ classify_summaries-alternates cfg h1 rs dev code
