-- ===== src/Store.antt =====
-- internal/store/bulk.go: the insert that every batch of telemetry goes through. The database is the
-- part that one insert reads and writes: the devices, the rows of the batch's table, and the
-- wake-up hints. A device id is a list of code points. What the database answers to the creation of
-- a partition and which statement fails are arguments.
pub mod Rows
pub mod Merge
pub mod Outcome
pub mod Refine
pub mod Counts
pub mod Admitted
pub mod Again
mod Tests
pub use Rows.*
use sumpnet.Prelude.{
  ℕ, zero, suc, ◌+◌, ◌-◌, ◌*◌, ◌/◌, ◌%◌, String, Bool, true, false, not, ◌&&◌, ◌||◌, List, [], ◌∷◌,
  ◌++◌, Option, none, some, ltb, ◌==◌, if◌then◌else◌, min, max, length, map,
}
use sumpnet.Prelude.Result.{Result, ok, err, ◌>>=◌, ◌>>◌}
use sumpnet.Prelude.Words.{word_eq}

unfoldable pub key_eq : Key → Key → Bool
key_eq a b = word_eq a.device b.device && (a.at == b.at && a.f_cnt == b.f_cnt)

unfoldable pub check : {E : Type 0} → Option E → Result E Unit
check none = ok tt
check (some e) = err e

-- The statements of the transaction, up to the one that fails; the hint is sent if rows were
-- accepted.
unfoldable pub statements : {E : Type 0} → Faults E → Bool → Result E Unit
statements faults has_new =
    check faults.acquire
    >> check faults.begin_tx
    >> check faults.copy
    >> check faults.register
    >> check faults.merge
    >> (if has_new then check faults.notify else ok tt)
    >> check faults.commit

-- The database after the commit or the rollback.
abbrev pub settled :
    {R E : Type 0}
    → Store
    → Database R
    → Result E (Database R × BatchResult)
    → (Store × Database R) × Result E BatchResult
settled s db (ok out) = ((s, out.0), ok out.1)
settled s db (err e) = ((s, db), err e)

-- The calendar month in UTC of a time in nanoseconds since 1970, counted from March of the year 0.
unfoldable pub month_of : ℕ → ℕ
month_of ts =
    let z = ts / 86400000000000 + 719468 in
    let era = z / 146097 in
    let doe = z % 146097 in
    let yoe = (doe + doe / 36524 - doe / 1460 - doe / 146096) / 365 in
    let doy = doe + yoe / 100 - 365 * yoe - yoe / 4 in (yoe + era * 400) * 12 + (5 * doy + 2) / 153

unfoldable pub is_in : ℕ → List ℕ → Bool
is_in m [] = false
is_in m (n ∷ ns) = let rest = is_in m ns in m == n || rest

-- createPartition: a second try where another replica won the first.
unfoldable pub create_partition : {E : Type 0} → E → (ℕ → Answer E) → Result E Bool
create_partition duplicate answer = elim (answer 0) [
  | created c ↦ ok c
  | failed e ↦ err e
  | duplicate_table ↦ elim (answer 1) [
    | created c ↦ ok c
    | failed e ↦ err e
    | duplicate_table ↦ err duplicate
  ]
]

-- ensurePartitions: the months seen after it, and whether it succeeded. The months are taken in the
-- order of the rows, where Go's map has any order.
unfoldable pub ensure_partitions :
    {E : Type 0} → E → (ℕ → ℕ → Answer E) → List ℕ → List ℕ → List ℕ × Result E Unit
ensure_partitions duplicate answers seen [] = (seen, ok tt)
ensure_partitions duplicate answers seen (m ∷ months) = elim (is_in m seen) [
  | true ↦ ensure_partitions duplicate answers seen months
  | false ↦ elim (create_partition duplicate (answers m)) [
    | ok c ↦ ensure_partitions duplicate answers (m ∷ seen) months
    | err e ↦ (seen, err e)
  ]
]

unfoldable pub is_known : List Device → List ℕ → Bool
is_known [] dev = false
is_known (d ∷ devices) dev = let rest = is_known devices dev in word_eq d.dev_eui dev || rest

-- GREATEST, which passes over a null.
unfoldable pub greatest : Option ℕ → ℕ → Option ℕ
greatest none at = some at
greatest (some t) at = some (max t at)

-- SET last_seen_at = GREATEST(last_seen_at, at) WHERE dev_eui = dev
unfoldable pub touch : List ℕ → ℕ → List Device → List Device
touch dev at [] = []
touch dev at (d ∷ devices) =
    (if word_eq d.dev_eui dev then record d { last_seen_at = greatest d.last_seen_at at } else d)
    ∷ touch dev at devices

-- INSERT INTO devices ... ON CONFLICT (dev_eui) DO UPDATE, for one device.
unfoldable pub upsert : DeviceKind → List ℕ → ℕ → List Device → List Device
upsert kind dev at devices =
    if is_known devices dev
    then touch dev at devices
    else devices ++ record { dev_eui = dev; kind = kind; last_seen_at = some at } ∷ []

-- A device's time joins the groups of SELECT device_id, max(ts) ... GROUP BY device_id.
unfoldable pub note_time : List ℕ → ℕ → List (List ℕ × ℕ) → List (List ℕ × ℕ)
note_time dev at [] = (dev, at) ∷ []
note_time dev at (g ∷ groups) =
    let rest = note_time dev at groups in
    if word_eq g.0 dev then (g.0, max g.1 at) ∷ groups else g ∷ rest

unfoldable pub upsert_all : DeviceKind → List (List ℕ × ℕ) → List Device → List Device
upsert_all kind [] devices = devices
upsert_all kind (g ∷ groups) devices = upsert_all kind groups (upsert kind g.0 g.1 devices)

unfoldable pub touch_all : List (List ℕ × ℕ) → List Device → List Device
touch_all [] devices = devices
touch_all (g ∷ groups) devices = touch_all groups (touch g.0 g.1 devices)

unfoldable pub least : ℕ → List ℕ → ℕ
least t [] = t
least t (u ∷ times) = least (min t u) times

unfoldable pub most : ℕ → List ℕ → ℕ
most t [] = t
most t (u ∷ times) = most (max t u) times

module _ {R : Type 0} ⦃t : Telemetry R⦄ where
  abbrev pub time_of : R → ℕ
  time_of r = t.time r

  unfoldable pub groups_of : List R → List (List ℕ × ℕ)
  groups_of [] = []
  groups_of (r ∷ rows) = note_time (t.key r).device (time_of r) (groups_of rows)

  unfoldable pub has_key : Key → List R → Bool
  has_key k [] = false
  has_key k (r ∷ rows) = let rest = has_key k rows in key_eq (t.key r) k || rest

  -- INSERT ... ON CONFLICT DO NOTHING of one row: the table and the rows affected.
  unfoldable pub merge_row : List R → R → List R × ℕ
  merge_row rows r = if has_key (t.key r) rows then (rows, 0) else (rows ++ r ∷ [], 1)

  -- ... of the staged rows.
  unfoldable pub merge_stage : List R → List R → List R × ℕ
  merge_stage rows [] = (rows, 0)
  merge_stage rows (r ∷ stage) =
      let (rows1, n) = merge_row rows r in
      let (rows2, m) = merge_stage rows1 stage in (rows2, n + m)

  -- The staged rows that DELETE ... WHERE device_id NOT IN (SELECT dev_eui FROM devices) leaves.
  unfoldable pub of_known : List Device → List R → List R
  of_known devices [] = []
  of_known devices (r ∷ stage) =
      let rest = of_known devices stage in
      if is_known devices (t.key r).device then r ∷ rest else rest

  unfoldable pub staged : Bool → List Device → List R → List R
  staged auto_register devices rows = if auto_register then rows else of_known devices rows

  unfoldable pub register_devices : Bool → List R → List Device → List Device
  register_devices auto_register stage devices =
      if auto_register
      then upsert_all t.kind (groups_of stage) devices
      else touch_all (groups_of stage) devices

  unfoldable pub hint : ℕ → R → List R → Notification
  hint n r rows = record {
    table = t.name;
    n = n;
    min_ts = least (time_of r) (map time_of rows);
    max_ts = most (time_of r) (map time_of rows);
  }

  -- What the statements of the transaction make of the database, on a batch with r first, and what
  -- they report.
  unfoldable pub written : Bool → Database R → R → List R → Database R × BatchResult
  written auto_register db r rows =
      let copied = r ∷ rows in
      let stage = staged auto_register db.devices copied in
      let rejected = length copied - length stage in
      let (merged, accepted) = merge_stage db.rows stage in
      (
        record {
          devices = register_devices auto_register stage db.devices;
          rows = merged;
          notified =
              if ltb 0 accepted then db.notified ++ hint accepted r rows ∷ [] else db.notified;
        },
        record {
          accepted = accepted;
          duplicates = length copied - accepted - rejected;
          rejected = rejected;
        },
      )

  module _ {E : Type 0} (duplicate : E) where
    unfoldable pub transaction :
        Faults E → Bool → Database R → R → List R → Result E (Database R × BatchResult)
    transaction faults auto_register db r rows =
        let done = written auto_register db r rows in
        statements faults (ltb 0 done.1.accepted) >>= λ u. ok done

    -- The months seen after the partitions of the batch were ensured, where the table has them.
    unfoldable pub prepare : (ℕ → ℕ → Answer E) → List ℕ → List R → List ℕ × Result E Unit
    prepare answers seen rows =
        if t.is_partitioned
        then ensure_partitions duplicate answers seen (map (λ x. month_of (time_of x)) rows)
        else (seen, ok tt)

    -- insert: a transaction that fails leaves the database as it was.
    unfoldable pub insert :
        Faults E
        → (ℕ → ℕ → Answer E)
        → Store
        → Database R
        → List R
        → (Store × Database R) × Result E BatchResult
    insert faults answers s db [] =
        ((s, db), ok (record { accepted = 0; duplicates = 0; rejected = 0 }))
    insert faults answers s db (r ∷ rows) =
        let (seen, ready) = prepare answers s.seen_months (r ∷ rows) in
        settled (record s { seen_months = seen }) db
          (ready >> transaction faults s.auto_register db r rows)
