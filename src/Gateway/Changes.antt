-- ===== src/Gateway/Changes.antt =====
-- internal/gateway/watch.go: changeTracker, and how a round picks the storms and the alerts that it
-- publishes. The map of what was seen is a function of the row's id. A time minus the overlap is
-- compared with another time by adding the overlap to the other one.
pub mod Once
mod Tests
use sumpnet.Prelude.{
  ℕ, ◌+◌, Bool, true, false, not, List, [], ◌∷◌, Option, none, some, ltb, ◌==◌, if◌then◌else◌,
}

pub record Version : Type 0 where
  pub id : ℕ
  pub updated_at : ℕ

-- A minute in nanoseconds.
abbrev pub change_overlap : ℕ
change_overlap = 60000000000

pub record ChangeTracker : Type 0 where
  pub mark : ℕ
  pub seen : ℕ → Option ℕ

-- newChangeTracker
abbrev pub new_change_tracker : ℕ → ChangeTracker
new_change_tracker mark = record { mark = mark; seen = λ id. none }

-- Is a time after `since` of a tracker with that mark?
abbrev pub is_after_since : ℕ → ℕ → Bool
is_after_since mark t = ltb mark (t + change_overlap)

-- The test of isNew on what the map has for the id.
abbrev pub differs : Option ℕ → ℕ → Bool
differs none t = true
differs (some prev) t = not (prev == t)

-- isNew
unfoldable pub is_new : ChangeTracker → Version → Bool
is_new c v = differs (c.seen v.id) v.updated_at

-- One turn of the first loop of record.
unfoldable pub record_one : ChangeTracker → Version → ChangeTracker
record_one c v = record {
  mark = if ltb c.mark v.updated_at then v.updated_at else c.mark;
  seen = λ id. if id == v.id then some v.updated_at else c.seen id;
}

unfoldable pub record_all : List Version → ChangeTracker → ChangeTracker
record_all [] c = c
record_all (v ∷ vs) c = record_all vs (record_one c v)

-- What the second loop of record leaves of an entry.
abbrev pub recent : ℕ → Option ℕ → Option ℕ
recent mark none = none
recent mark (some t) = if ltb (t + change_overlap) mark then none else some t

abbrev pub trim : ChangeTracker → ChangeTracker
trim c = record c { seen = λ id. recent c.mark (c.seen id) }

-- changeTracker.record
unfoldable pub record_versions : List Version → ChangeTracker → ChangeTracker
record_versions vs c = trim (record_all vs c)

-- ListStormEventsChangedSince and ListAlertsChangedSince on a table in their order.
unfoldable pub changed_since : ℕ → List Version → List Version
changed_since mark [] = []
changed_since mark (v ∷ table) =
    let rest = changed_since mark table in
    if is_after_since mark v.updated_at then v ∷ rest else rest

-- The loop of round over the rows it read.
unfoldable pub pick_new : ChangeTracker → List Version → List Version
pick_new c [] = []
pick_new c (v ∷ rows) = let rest = pick_new c rows in if is_new c v then v ∷ rest else rest

-- What a round publishes of a table, and the tracker after it.
unfoldable pub track : ChangeTracker → List Version → List Version × ChangeTracker
track c table =
    let picked = pick_new c (changed_since c.mark table) in (picked, record_versions picked c)

-- Rounds that succeed, each on the table as it is then.
unfoldable pub track_all : ChangeTracker → List (List Version) → List (List Version)
track_all c [] = []
track_all c (table ∷ tables) = let (picked, c1) = track c table in picked ∷ track_all c1 tables
