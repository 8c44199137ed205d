-- ===== src/Gateway/Changes/Tests.antt =====
-- A tracker over three rounds, and its property at them.
use sumpnet.Prelude.{ℕ, ◌*◌, ◌≡◌, refl, List, [], ◌∷◌}
use sumpnet.Gateway.Changes.{
  Version, new_change_tracker, track_all, track, pick_new, changed_since, is_new, record_versions,
  record_all, record_one,
}
use sumpnet.Gateway.Changes.Once.{due_all, track_all-due_all}

-- A second in nanoseconds.
abbrev second : ℕ
second = 1000000000

abbrev at : ℕ → ℕ → Version
at id n = record { id = id; updated_at = n * second }

-- The first row is changed after two rounds; the third comes late, within the overlap; at the end
-- all that was seen of the second is forgotten.
abbrev tables : List (List Version)
tables =
    (at 1 110 ∷ at 2 120 ∷ [])
    ∷ (at 3 70 ∷ at 1 110 ∷ at 2 120 ∷ [])
    ∷ (at 3 70 ∷ at 2 120 ∷ at 1 300 ∷ [])
    ∷ (at 3 70 ∷ at 2 120 ∷ at 1 300 ∷ [])
    ∷ []

abbrev published : List (List Version)
published = (at 1 110 ∷ at 2 120 ∷ []) ∷ (at 3 70 ∷ []) ∷ (at 1 300 ∷ []) ∷ [] ∷ []

late_row_comes : track_all (new_change_tracker (100 * second)) tables ≡ published
unfolding track_all track pick_new changed_since is_new record_versions record_all record_one
late_row_comes = refl

track_all-due_all_example :
    track_all (new_change_tracker (100 * second)) tables ≡ due_all (100 * second) [] tables
track_all-due_all_example = track_all-due_all (100 * second) tables
