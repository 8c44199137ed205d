-- ===== src/Store/Rows.antt =====
-- internal/store/bulk.go: the parts of the database that an insert reads and writes, its result and its faults.
use sumpnet.Prelude.{ℕ, String, Bool, List, Option}

-- The primary key of every telemetry table, with its time in microseconds.
pub record Key : Type 0 where
  pub device : List ℕ
  pub at : ℕ
  pub f_cnt : ℕ

-- devices.kind
pub data DeviceKind : Type 0 where
  house rain : DeviceKind

-- The table that rows of a type go to; `time` is the time of a row in nanoseconds.
pub record Telemetry (R : Type 0) : Type 0 where
  pub name : String
  pub is_partitioned : Bool
  pub kind : DeviceKind
  pub key : R → Key
  pub time : R → ℕ

pub record Device : Type 0 where
  pub dev_eui : List ℕ
  pub kind : DeviceKind
  pub last_seen_at : Option ℕ

pub record Notification : Type 0 where
  pub table : String
  pub n : ℕ
  pub min_ts : ℕ
  pub max_ts : ℕ

pub record Database (R : Type 0) : Type 0 where
  pub devices : List Device
  pub rows : List R
  pub notified : List Notification

pub record Store : Type 0 where
  pub auto_register : Bool
  pub seen_months : List ℕ

pub record BatchResult : Type 0 where
  pub accepted : ℕ
  pub duplicates : ℕ
  pub rejected : ℕ

-- What the database answers to partman.create_partition_time.
pub data Answer (E : Type 0) : Type 0 where
  created : Bool → Answer E
  duplicate_table : Answer E
  failed : E → Answer E

-- What fails of the other statements, if anything.
pub record Faults (E : Type 0) : Type 0 where
  pub acquire : Option E
  pub begin_tx : Option E
  pub copy : Option E
  pub register : Option E
  pub merge : Option E
  pub notify : Option E
  pub commit : Option E
