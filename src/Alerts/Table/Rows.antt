-- ===== src/Alerts/Table/Rows.antt =====
-- internal/store/sqlcgen/alerts.sql.go: the rows of the alerts table and what they are made of.
use sumpnet.Prelude.{ℕ, String, List, Option}
use sumpnet.AlertCode.{AlertCode, AlertSeverity}

-- notify_state and resolve_notify_state
pub data NotifyState : Type 0 where
  pending sent suppressed failed unneeded : NotifyState

pub data Source : Type 0 where
  node heartbeat detector sweep : Source

-- The text of an alert, by the values in it.
pub data Message : Type 0 where
  node_alarm : AlertCode → ℕ → Message
  float_active : ℕ → Message
  sensor_fault mains_lost : Message
  battery_at : ℕ → Message
  outage_risk : ℕ → ℕ → Option ℕ → Message
  detected : AlertCode → Message
  no_uplink_since : ℕ → Message

-- What a trigger key is formatted from: a row of a table, by its device, time and frame counter, or
-- the sweep's device and time.
pub data TriggerKey : Type 0 where
  row_key : String → String → ℕ → ℕ → TriggerKey
  sweep_key : String → ℕ → TriggerKey

pub record Alert : Type 0 where
  pub id : ℕ
  pub device_id : String
  pub home_id : Option String
  pub code : AlertCode
  pub severity : AlertSeverity
  pub raised_at : ℕ
  pub last_seen_at : ℕ
  pub occurrences : ℕ
  pub acked_at : Option ℕ
  pub ack_note : Option String
  pub resolved_at : Option ℕ
  pub resolve_reason : Option String
  pub message : Message
  pub source : Source
  pub trigger_key : TriggerKey
  pub notify_state : NotifyState
  pub notify_attempts : ℕ
  pub notified_at : Option ℕ
  pub resolve_notify_state : NotifyState
  pub resolve_notify_attempts : ℕ
  pub updated_at : ℕ

pub record Table : Type 0 where
  pub rows : List Alert
  pub next_id : ℕ

pub record InsertParams : Type 0 where
  pub device_id : String
  pub home_id : Option String
  pub code : AlertCode
  pub severity : AlertSeverity
  pub raised_at : ℕ
  pub message : Message
  pub source : Source
  pub trigger_key : TriggerKey
  pub notify_state : NotifyState

pub data TableError : Type 0 where
  unique_violation : TableError
