-- ===== src/Detector/Tests.antt =====
-- The theorems on the detector, applied to a pump whose window is loaded.
use sumpnet.Prelude.{
  ℕ, ◌≡◌, ◌≢◌, refl, String, true, false, List, [], ◌∷◌, none, some, ltb, ◌+◌, length, arith,
}
use sumpnet.Prelude.Result.{Result, ok, err}
use sumpnet.AlertCode.{dry_run, continuous_run}
use sumpnet.Hydrology.{is_dry_run}
use sumpnet.Detector.{
  Config, CycleRow, SummaryRow, Detection, Handler, raise, classify_all, set_cond,
}
use sumpnet.Detector.Alternation.{follow}
use sumpnet.Detector.Batches.{AllLoaded, classify_all-alternates}
use sumpnet.Detector.Recovery.{AllHealthy, EndsWith, dry_clears_exactly}
use sumpnet.Detector.Write.{write_detections, write_detections_twice}

abbrev three_to_clear : Config
three_to_clear = record { healthy_cycles_to_clear = 3; window = 8 }

abbrev cycle_row : ℕ → CycleRow
cycle_row s = record {
  device_id = "70b3d57ed0000001";
  started_at = s;
  f_cnt = 4;
  received_at = s + 60_000_000_000;
  run_s = 20;
  level_start_mm = 300;
  level_end_mm = 500;
  pump_id = "primary";
}

abbrev rows : List CycleRow
rows = cycle_row 0 ∷ cycle_row 600_000_000_000 ∷ []

-- A dry run was seen before, and the window of the pump is empty.
abbrev dry_handler : Handler
dry_handler = record {
  windows = λ dev pump. some [];
  active = set_cond (λ dev code. false) "70b3d57ed0000001" dry_run true;
  healthy = λ dev code. 0;
}

abbrev no_database : String → ℕ → ℕ → Result ℕ (List CycleRow)
no_database dev at n = err 1

abbrev summaries : List SummaryRow
summaries =
    record {
      device_id = "70b3d57ed0000001";
      window_end = 900_000_000_000;
      f_cnt = 9;
      window_s = 300;
      cycle_count = 12;
    }
    ∷ []

abbrev raised : List Detection
raised =
    record { device = "70b3d57ed0000001"; code = dry_run; action = raise; at = 5; fcnt = 4 } ∷ []

rows_loaded : AllLoaded dry_handler rows
rows_loaded = (([], refl), (([], refl), tt))

dry_not_continuous : dry_run ≢ continuous_run
dry_not_continuous e = cc

classify_all-alternates_example :
    (h' : Handler) × (ds : List Detection) × (classify_all no_database three_to_clear dry_handler
        rows
      ≡ ok (h', ds))
    × (follow "70b3d57ed0000001" dry_run (dry_handler.active "70b3d57ed0000001" dry_run) ds
        ≡ some (h'.active "70b3d57ed0000001" dry_run))
classify_all-alternates_example =
    classify_all-alternates no_database three_to_clear dry_handler rows "70b3d57ed0000001" dry_run
      rows_loaded dry_not_continuous

rows_healthy : AllHealthy "70b3d57ed0000001" rows
unfolding is_dry_run
rows_healthy = (refl, refl, (refl, refl, tt))

dry_clears_exactly_example :
    EndsWith no_database three_to_clear dry_handler "70b3d57ed0000001" rows (
      ltb
        (dry_handler.healthy "70b3d57ed0000001" dry_run + length rows)
        three_to_clear.healthy_cycles_to_clear)
dry_clears_exactly_example =
    dry_clears_exactly no_database three_to_clear dry_handler "70b3d57ed0000001" rows rows_loaded
      rows_healthy refl (omega arith)

write_detections_twice_example :
    let table' = (write_detections [] raised).0 in write_detections table' raised ≡ (table', none)
write_detections_twice_example = write_detections_twice [] raised
