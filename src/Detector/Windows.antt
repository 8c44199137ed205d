-- ===== src/Detector/Windows.antt =====
-- The windows of the handler.
use sumpnet.Prelude.{
  ℕ, ◌-◌, ◌≤◌, ◌≡◌, ◌∙◌, ap, String, List, [], ◌∷◌, ◌++◌, Option, some, arith, length, length-drop,
}
use sumpnet.Hydrology.{Cycle, short_cycling_run}
use sumpnet.Detector.{
  Config, CycleRow, Handler, set_window, last_n, or_empty, classify_dry, classify_short,
  classify_window, classify_seeded,
}

-- The window that a cycle leaves.
abbrev pub next_window : Config → Handler → CycleRow → Cycle → List Cycle
next_window cfg h r c = last_n cfg.window (or_empty (h.windows r.device_id c.pump) ++ c ∷ [])

module _ (cfg : Config) (h : Handler) (r : CycleRow) (c : Cycle) where
  dry_windows : (classify_dry cfg h r c).0.windows ≡ h.windows
  unfolding classify_dry
  dry_windows = ground arith

  short_windows : (n : ℕ) → (classify_short cfg h r c n).0.windows ≡ h.windows
  unfolding classify_short
  short_windows n = ground arith

module _ (cfg : Config) (h : Handler) (r : CycleRow) (c : Cycle) where
  pub seeded_windows :
      (classify_seeded cfg h r c).0.windows
      ≡ set_window h.windows r.device_id c.pump (some (next_window cfg h r c))
  unfolding classify_seeded classify_window
  seeded_windows =
      let h1 = (classify_dry cfg h r c).0 in
      let w = next_window cfg h1 r c in
      short_windows cfg (record h1 { windows = set_window h1.windows r.device_id c.pump (some w) })
        r c (short_cycling_run w)
      ∙ ap
          (λ (m : String → String → Option (List Cycle)).
            set_window m r.device_id c.pump
              (some (last_n cfg.window (or_empty (m r.device_id c.pump) ++ c ∷ []))))
          (dry_windows cfg h r c)

  length-next_window : length (next_window cfg h r c) ≤ cfg.window
  length-next_window =
      let w = or_empty (h.windows r.device_id c.pump) ++ c ∷ [] in
      ground (arith, length-drop (length w - cfg.window) w)

-- No window holds more cycles than the configuration allows.
pub record WindowsBounded (cfg : Config) (h : Handler) : Type 0 where
  pub bound :
      (dev pump : String) (w : List Cycle) → h.windows dev pump ≡ some w → length w ≤ cfg.window

-- Classifying a cycle keeps every window within the configured length.
pub seeded-WindowsBounded :
    (cfg : Config) (h : Handler) (r : CycleRow) (c : Cycle)
    → WindowsBounded cfg h
    → WindowsBounded cfg (classify_seeded cfg h r c).0
seeded-WindowsBounded cfg h r c b = record {
  bound = λ dev pump w e.
      let e' = rw (seeded_windows cfg h r c) at e in
      ground (arith, b.bound dev pump w, length-next_window cfg h r c);
}
