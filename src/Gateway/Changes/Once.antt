-- ===== src/Gateway/Changes/Once.antt =====
-- The tracker of internal/gateway/watch.go forgets old entries; against a history that forgets none.
use sumpnet.Prelude.{
  ℕ, ◌≤◌, ◌≡◌, refl, ap, sym, ◌∙◌, Bool, true, false, ◌&&◌, List, [], ◌∷◌, Option, none, some, ltb,
  ◌==◌, if◌then◌else◌, arith,
}
use sumpnet.Gateway.Changes.{
  Version, ChangeTracker, new_change_tracker, is_after_since, differs, is_new, record_one,
  record_all, recent, trim, record_versions, changed_since, pick_new, track, track_all,
}

-- The last version of a row that was published, in a history with the newest first.
unfoldable pub last_of : List Version → ℕ → Option ℕ
last_of [] id = none
last_of (v ∷ history) id =
    let rest = last_of history id in if id == v.id then some v.updated_at else rest

-- The newest time published, from a first mark.
unfoldable pub newest : ℕ → List Version → ℕ
newest mark [] = mark
newest mark (v ∷ history) =
    let rest = newest mark history in if ltb rest v.updated_at then v.updated_at else rest

-- Which of the rows were stamped after the newest change less the overlap, and are not the version
-- of the row that was published last?
unfoldable pub due_of : ℕ → List Version → List Version → List Version
due_of mark history [] = []
due_of mark history (v ∷ table) =
    let rest = due_of mark history table in
    if is_after_since (newest mark history) v.updated_at
      && differs (last_of history v.id) v.updated_at
    then v ∷ rest
    else rest

unfoldable pub publish_onto : List Version → List Version → List Version
publish_onto [] history = history
publish_onto (v ∷ vs) history = publish_onto vs (v ∷ history)

-- What rounds publish that remember everything.
unfoldable pub due_all : ℕ → List Version → List (List Version) → List (List Version)
due_all mark history [] = []
due_all mark history (table ∷ tables) =
    let due = due_of mark history table in due ∷ due_all mark (publish_onto due history) tables

-- The tracker agrees with the history, but for entries too old to be read again.
abbrev Agrees : ℕ → List Version → ChangeTracker → Type 0
Agrees mark history c =
    (c.mark ≡ newest mark history)
    × ((id : ℕ) → recent c.mark (c.seen id) ≡ recent c.mark (last_of history id))

recent_through : (m n : ℕ) (x : Option ℕ) → m ≤ n → recent n (recent m x) ≡ recent n x
recent_through m n none le = refl
recent_through m n (some t) le = ground arith

recent_mono : (m n : ℕ) (x y : Option ℕ) → m ≤ n → recent m x ≡ recent m y → recent n x ≡ recent n y
recent_mono m n x y le e =
    sym (recent_through m n x le) ∙ (ap (recent n) e ∙ recent_through m n y le)

differs-recent :
    (m t : ℕ) (x : Option ℕ) → is_after_since m t ≡ true → differs (recent m x) t ≡ differs x t
differs-recent m t none after = refl
differs-recent m t (some prev) after = ground arith

choose :
    (c : ChangeTracker) (v : Version) (rows rest : List Version) (after new : Bool)
    → (after ≡ true → is_new c v ≡ new)
    → pick_new c rows ≡ rest
    → pick_new c (if after then v ∷ rows else rows) ≡ (if after && new then v ∷ rest else rest)
unfolding pick_new
choose c v rows rest true new test same = cc (test refl, same)
choose c v rows rest false new test same = same

-- What the tracker picks of a table is what is due.
pick_new-due_of :
    (mark : ℕ) (history : List Version) (c : ChangeTracker) (table : List Version)
    → Agrees mark history c
    → pick_new c (changed_since c.mark table) ≡ due_of mark history table
unfolding pick_new changed_since due_of is_new
pick_new-due_of mark history c [] agrees = refl
pick_new-due_of mark history c (v ∷ table) (at_mark, agrees) =
    choose c v (changed_since c.mark table) (due_of mark history table)
      (is_after_since c.mark v.updated_at) (differs (last_of history v.id) v.updated_at)
      (λ after.
        sym (differs-recent c.mark v.updated_at (c.seen v.id) after)
        ∙ (ap (λ o. differs o v.updated_at) (agrees v.id)
            ∙ differs-recent c.mark v.updated_at (last_of history v.id) after))
      (pick_new-due_of mark history c table (at_mark, agrees))
    ∙ ap
        (λ m.
          if is_after_since m v.updated_at && differs (last_of history v.id) v.updated_at
          then v ∷ due_of mark history table
          else due_of mark history table)
        at_mark

mark_grows : (m t : ℕ) → m ≤ (if ltb m t then t else m)
mark_grows m t = ground arith

recent_either :
    (m : ℕ) (b : Bool) (o x y : Option ℕ)
    → recent m x ≡ recent m y
    → recent m (if b then o else x) ≡ recent m (if b then o else y)
recent_either m true o x y e = refl
recent_either m false o x y e = e

record_one-Agrees :
    (mark : ℕ) (history : List Version) (c : ChangeTracker) (v : Version)
    → Agrees mark history c
    → Agrees mark (v ∷ history) (record_one c v)
unfolding record_one last_of newest
record_one-Agrees mark history c v (at_mark, agrees) = (
  ap (λ m. if ltb m v.updated_at then v.updated_at else m) at_mark,
  λ id.
      recent_either (record_one c v).mark (id == v.id) (some v.updated_at) (c.seen id)
        (last_of history id)
        (recent_mono c.mark (record_one c v).mark (c.seen id) (last_of history id)
          (mark_grows c.mark v.updated_at) (agrees id)),
)

record_all-Agrees :
    (mark : ℕ) (history vs : List Version) (c : ChangeTracker)
    → Agrees mark history c
    → Agrees mark (publish_onto vs history) (record_all vs c)
unfolding record_all publish_onto
record_all-Agrees mark history [] c agrees = agrees
record_all-Agrees mark history (v ∷ vs) c agrees =
    record_all-Agrees mark (v ∷ history) vs (record_one c v)
      (record_one-Agrees mark history c v agrees)

trim-Agrees :
    (mark : ℕ) (history : List Version) (c : ChangeTracker)
    → Agrees mark history c
    → Agrees mark history (trim c)
trim-Agrees mark history c (at_mark, agrees) =
    (at_mark, λ id. recent_through c.mark c.mark (c.seen id) (omega arith) ∙ agrees id)

track-Agrees :
    (mark : ℕ) (history : List Version) (c : ChangeTracker) (tables : List (List Version))
    → Agrees mark history c
    → track_all c tables ≡ due_all mark history tables
unfolding track_all track due_all record_versions
track-Agrees mark history c [] agrees = refl
track-Agrees mark history c (table ∷ tables) agrees =
    let picked = pick_new c (changed_since c.mark table) in
    ap (λ rest. picked ∷ rest)
      (track-Agrees mark (publish_onto picked history) (record_versions picked c) tables (
        trim-Agrees mark (publish_onto picked history) (record_all picked c)
          (record_all-Agrees mark history picked c agrees)))
    ∙ ap (λ due. due ∷ due_all mark (publish_onto due history) tables)
        (pick_new-due_of mark history c table agrees)

-- Whatever a new tracker's rounds find in the table, each round publishes exactly the rows that are
-- stamped after the newest change published before, or after the first mark, less the overlap and
-- whose version is not the one last published of the row, although the tracker forgets old entries.
pub track_all-due_all :
    (mark : ℕ) (tables : List (List Version))
    → track_all (new_change_tracker mark) tables ≡ due_all mark [] tables
unfolding last_of newest
track_all-due_all mark tables =
    track-Agrees mark [] (new_change_tracker mark) tables (refl, λ id. refl)
