-- ===== src/Detector/Write.antt =====
-- writeDetections of internal/detector/detector.go over the detections table: InsertDetection does
-- nothing on a row whose key (device_id, code, action, observed_at, f_cnt) is there.
use text.Mathlib.Text.{◌==◌ as str_eq}
use text.Mathlib.TextPositions.{eq_refl}
use sumpnet.Prelude.{
  ℕ, ◌+◌, ◌≡◌, refl, Bool, true, false, ◌&&◌, ◌||◌, List, [], ◌∷◌, ◌++◌, Option, none, some, arith,
  ltb, ◌==◌, Bool-cases, inl, inr, if◌then◌else◌,
}
use sumpnet.AlertCode.{code_eq}
use sumpnet.Detector.{Action, raise, clear, Detection}

-- detections.action
abbrev pub action_number : Action → ℕ
action_number raise = 1
action_number clear = 2

abbrev pub same_key : Detection → Detection → Bool
same_key a b =
    str_eq a.device b.device
    && (code_eq a.code b.code
        && (action_number a.action == action_number b.action && (a.at == b.at && a.fcnt == b.fcnt)))

pub has_key : List Detection → Detection → Bool
has_key [] d = false
has_key (e ∷ table) d = same_key e d || has_key table d

-- InsertDetection: the table and the number of rows inserted.
pub insert_detection : List Detection → Detection → List Detection × ℕ
insert_detection table d = if has_key table d then (table, 0) else (table ++ d ∷ [], 1)

-- The loop of writeDetections.
pub insert_all : List Detection → List Detection → List Detection × ℕ
insert_all table [] = (table, 0)
insert_all table (d ∷ dets) =
    let (table1, n) = insert_detection table d in
    let (table2, inserted) = insert_all table1 dets in (table2, n + inserted)

pub record Notification : Type 0 where
  pub n : ℕ
  pub min_ts : ℕ
  pub max_ts : ℕ

last_at : Detection → List Detection → ℕ
last_at d [] = d.at
last_at d (e ∷ dets) = last_at e dets

-- The wake-up hint on the table detections, sent if a row was inserted.
announce : ℕ → List Detection → Option Notification
announce inserted [] = none
announce inserted (d ∷ dets) =
    if ltb 0 inserted
    then some (record { n = inserted; min_ts = d.at; max_ts = last_at d dets })
    else none

pub write_detections : List Detection → List Detection → List Detection × Option Notification
unfolding announce
write_detections table dets =
    let (table', inserted) = insert_all table dets in (table', announce inserted dets)

same_key_refl : (d : Detection) → same_key d d ≡ true
same_key_refl d = ground (arith, eq_refl d.device)

has_key-append :
    (table more : List Detection) (d : Detection)
    → has_key (table ++ more) d ≡ (has_key table d || has_key more d)
unfolding has_key
has_key-append [] more d = refl
has_key-append (e ∷ table) more d = ground (arith, has_key-append table more d)

insert_has_key :
    (table : List Detection) (d : Detection) → has_key (insert_detection table d).0 d ≡ true
unfolding insert_detection
insert_has_key table d = elim (Bool-cases (has_key table d)) [
  | inl there ↦ rw there there
  | inr new ↦
      rw new
        (rw (has_key-append table (d ∷ []) d) (unfold has_key in ground (arith, same_key_refl d)))
]

insert_keeps_key :
    (table : List Detection) (d e : Detection)
    → has_key table e ≡ true
    → has_key (insert_detection table d).0 e ≡ true
unfolding insert_detection
insert_keeps_key table d e h = ground (arith, has_key-append table (d ∷ []) e)

all_keep_key :
    (table dets : List Detection) (e : Detection)
    → has_key table e ≡ true
    → has_key (insert_all table dets).0 e ≡ true
unfolding insert_all
all_keep_key table [] e h = h
all_keep_key table (d ∷ dets) e h =
    all_keep_key (insert_detection table d).0 dets e (insert_keeps_key table d e h)

-- Every detection of `dets` has its key in the table.
abbrev AllThere : List Detection → List Detection → Type 0
AllThere table [] = Unit
AllThere table (d ∷ dets) = (has_key table d ≡ true) × AllThere table dets

insert_all-there : (table dets : List Detection) → AllThere (insert_all table dets).0 dets
unfolding insert_all
insert_all-there table [] = tt
insert_all-there table (d ∷ dets) =
    let table1 = (insert_detection table d).0 in
    (all_keep_key table1 dets d (insert_has_key table d), insert_all-there table1 dets)

insert_all_again :
    (table dets : List Detection) → AllThere table dets → insert_all table dets ≡ (table, 0)
unfolding insert_all insert_detection
insert_all_again table [] h = refl
insert_all_again table (d ∷ dets) h = rw h.0 (rw (insert_all_again table dets h.1) refl)

announce-none : (dets : List Detection) → announce 0 dets ≡ none
unfolding announce
announce-none [] = refl
announce-none (d ∷ dets) = refl

-- Writing a batch of detections a second time, as after a redelivery or a replayed poll, leaves the
-- table as the first time left it and sends no wake-up hint.
pub write_detections_twice :
    (table dets : List Detection)
    → let table' = (write_detections table dets).0 in write_detections table' dets ≡ (table', none)
unfolding write_detections
write_detections_twice table dets =
    let table' = (insert_all table dets).0 in
    rw (insert_all_again table' dets (insert_all-there table dets)) (rw (announce-none dets) refl)
