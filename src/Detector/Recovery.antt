-- ===== src/Detector/Recovery.antt =====
-- When a dry-run condition clears.
use sumpnet.Prelude.{
  ℕ, ◌+◌, ◌<◌, ◌≡◌, ◌∙◌, refl, subst, ◌++◌, String, Bool, true, false, List, [], ◌∷◌, arith, ltb,
  Bool-cases, inl, inr, length,
}
use sumpnet.Prelude.Result.{Result, ok}
use sumpnet.Prelude.Maps.{str_eq_refl}
use sumpnet.AlertCode.{dry_run}
use sumpnet.Hydrology.{Cycle, is_dry_run}
use sumpnet.Detector.{
  Config, CycleRow, Detection, Handler, to_cycle, classify_dry, classify_short, classify_window,
  classify_seeded, classify_all,
}
use sumpnet.Detector.Batches.{IsLoaded, AllLoaded, seeded-AllLoaded, classify-loaded}

-- Cycles of the device that are no dry runs.
abbrev pub AllHealthy : String → List CycleRow → Type 0
AllHealthy dev [] = Unit
AllHealthy dev (r ∷ rs) =
    (r.device_id ≡ dev) × (is_dry_run (to_cycle r) ≡ false) × AllHealthy dev rs

module _ (cfg : Config) (h : Handler) (r : CycleRow) (c : Cycle) where
  window_keeps_active :
      (dev : String) → (classify_window cfg h r c).0.active dev dry_run ≡ h.active dev dry_run
  unfolding classify_window classify_short
  window_keeps_active dev = ground arith

  window_keeps_healthy :
      (dev : String) → (classify_window cfg h r c).0.healthy dev dry_run ≡ h.healthy dev dry_run
  unfolding classify_window classify_short
  window_keeps_healthy dev = ground arith

  -- One healthy cycle while the condition is active.
  dry_counts :
      is_dry_run c ≡ false
      → h.active r.device_id dry_run ≡ true
      → ((classify_dry cfg h r c).0.healthy r.device_id dry_run ≡ h.healthy r.device_id dry_run + 1)
        × ((classify_dry cfg h r c).0.active r.device_id dry_run
            ≡ ltb (h.healthy r.device_id dry_run + 1) cfg.healthy_cycles_to_clear)
  unfolding classify_dry
  dry_counts d a = ground (arith, str_eq_refl r.device_id)

  dry_rests :
      is_dry_run c ≡ false
      → h.active r.device_id dry_run ≡ false
      → (classify_dry cfg h r c).0.active r.device_id dry_run ≡ false
  unfolding classify_dry
  dry_rests d a = ground (arith, str_eq_refl r.device_id)

module _ (cfg : Config) (h : Handler) (r : CycleRow) (c : Cycle) where
  seeded_counts :
      is_dry_run c ≡ false
      → h.active r.device_id dry_run ≡ true
      → ((classify_seeded cfg h r c).0.healthy r.device_id dry_run
          ≡ h.healthy r.device_id dry_run + 1)
        × ((classify_seeded cfg h r c).0.active r.device_id dry_run
            ≡ ltb (h.healthy r.device_id dry_run + 1) cfg.healthy_cycles_to_clear)
  unfolding classify_seeded
  seeded_counts d a =
      let h1 = (classify_dry cfg h r c).0 in
      let (n, f) = dry_counts cfg h r c d a in
      (
        window_keeps_healthy cfg h1 r c r.device_id ∙ n,
        window_keeps_active cfg h1 r c r.device_id ∙ f,
      )

  seeded_rests :
      is_dry_run c ≡ false
      → h.active r.device_id dry_run ≡ false
      → (classify_seeded cfg h r c).0.active r.device_id dry_run ≡ false
  unfolding classify_seeded
  seeded_rests d a =
      window_keeps_active cfg (classify_dry cfg h r c).0 r c r.device_id ∙ dry_rests cfg h r c d a

module _ {E : Type 0} (before : String → ℕ → ℕ → Result E (List CycleRow)) (cfg : Config) where
  -- The batch is classified, and the dry-run condition of the device is as stated after it.
  abbrev pub EndsWith : Handler → String → List CycleRow → Bool → Type 0
  EndsWith h dev rs is_active =
      (h' : Handler) × (ds : List Detection) × (classify_all before cfg h rs ≡ ok (h', ds))
      × (h'.active dev dry_run ≡ is_active)

  -- A cycle whose window is loaded, and then the rest.
  first_then :
      (h : Handler) (dev : String) (r : CycleRow) (rs : List CycleRow) (is_active : Bool)
      → IsLoaded h r
      → EndsWith (classify_seeded cfg h r (to_cycle r)).0 dev rs is_active
      → EndsWith h dev (r ∷ rs) is_active
  unfolding classify_all
  first_then h dev r rs is_active l (h', ds, e, f) = (
    h',
    (classify_seeded cfg h r (to_cycle r)).1 ++ ds,
    rw (classify-loaded before cfg h r l) (rw e),
    f,
  )

  healthy_rests :
      (h : Handler) (dev : String) (rs : List CycleRow)
      → AllLoaded h rs
      → AllHealthy dev rs
      → h.active dev dry_run ≡ false
      → EndsWith h dev rs false
  unfolding classify_all
  healthy_rests h dev [] l g a = (h, [], refl, a)
  healthy_rests h dev (r ∷ rs) l g a =
      let c = to_cycle r in
      let h1 = (classify_seeded cfg h r c).0 in
      let a1 : h1.active dev dry_run ≡ false = rw (← g.0) (seeded_rests cfg h r c g.1 (rw g.0 a)) in
      first_then h dev r rs false l.0
        (healthy_rests h1 dev rs (seeded-AllLoaded cfg h r rs c l.1) g.2 a1)

  -- While a dry-run condition is active with fewer healthy cycles counted than it takes to clear, a
  -- further batch of healthy cycles of the device, whose windows are loaded, is classified without
  -- an error and leaves the condition active exactly if the healthy cycles counted are still fewer
  -- than that number, and clears it otherwise.
  pub dry_clears_exactly :
      (h : Handler) (dev : String) (rs : List CycleRow)
      → AllLoaded h rs
      → AllHealthy dev rs
      → h.active dev dry_run ≡ true
      → h.healthy dev dry_run < cfg.healthy_cycles_to_clear
      → EndsWith h dev rs (ltb (h.healthy dev dry_run + length rs) cfg.healthy_cycles_to_clear)
  unfolding classify_all
  dry_clears_exactly h dev [] l g a lt = (h, [], refl, ground arith)
  dry_clears_exactly h dev (r ∷ rs) l g a lt =
      let c = to_cycle r in
      let h1 = (classify_seeded cfg h r c).0 in
      let l1 = seeded-AllLoaded cfg h r rs c l.1 in
      let n1 : h1.healthy dev dry_run ≡ h.healthy dev dry_run + 1 =
        rw (← g.0) (seeded_counts cfg h r c g.1 (rw g.0 a)).0 in
      let f1 : h1.active dev dry_run ≡ ltb (h.healthy dev dry_run + 1) cfg.healthy_cycles_to_clear =
        rw (← g.0) (seeded_counts cfg h r c g.1 (rw g.0 a)).1 in
      first_then h dev r rs _ l.0
        (elim (Bool-cases (ltb (h.healthy dev dry_run + 1) cfg.healthy_cycles_to_clear)) [
          | inl more ↦
              subst (EndsWith h1 dev rs) (ground arith)
                (dry_clears_exactly h1 dev rs l1 g.2 (f1 ∙ more) (ground arith))
          | inr done ↦
              subst (EndsWith h1 dev rs) (ground arith) (healthy_rests h1 dev rs l1 g.2 (f1 ∙ done))
        ])
