-- ===== src/Ingest/Server.antt =====
-- The handlers of internal/ingest/server.go: what a request's messages become, and what is done with
-- a batch. The database's faults and its answers on partitions are asked for by the number of the
-- insert.
pub mod Table
mod Tests
use sumpnet.Prelude.{ℕ, ◌+◌, List, [], ◌∷◌, ◌++◌, Option, map}
use sumpnet.Prelude.Result.{Result, ok, err}
use sumpnet.Store.{
  Telemetry, Database, Store, Device, Notification, BatchResult, Answer, Faults, insert,
}
use sumpnet.Ingest.Convert.{
  Reject, Reading, ReadingRow, CycleEvent, CycleEventRow, StormSummary, StormSummaryRow, Alarm,
  AlarmRow, RainGaugeReading, RainGaugeRow, Limits, reading_row, cycle_row, summary_row, alarm_row,
  rain_gauge_row,
}
use sumpnet.Ingest.Stream.{Counts}
use sumpnet.Ingest.Tables.{
  readings_table, cycle_events_table, storm_summaries_table, alarm_events_table,
  rain_gauge_uplinks_table,
}

-- The rows of the messages that are not rejected.
unfoldable pub accepted_rows : {M R : Type 0} → (M → Result Reject R) → List M → List R
accepted_rows row [] = []
accepted_rows row (m ∷ messages) =
    let rest = accepted_rows row messages in elim (row m) [ ok r ↦ r ∷ rest | err why ↦ rest ]

-- The store and the database of a table, and the number of inserts so far.
pub record World (R : Type 0) : Type 0 where
  pub store : Store
  pub db : Database R
  pub calls : ℕ

-- What SubmitReadings, SubmitAlarms and SubmitRainGaugeReadings extract from a request.
module _ (parse_uuid : List ℕ → Option ℕ) (l : Limits) where
  unfoldable pub readings_of : List Reading → List ReadingRow
  readings_of = accepted_rows (reading_row parse_uuid l)

  unfoldable pub alarms_of : List Alarm → List AlarmRow
  alarms_of = accepted_rows (alarm_row parse_uuid l)

  unfoldable pub rain_gauges_of : List RainGaugeReading → List RainGaugeRow
  rain_gauges_of = accepted_rows (rain_gauge_row parse_uuid l)

-- The response that SendAndClose takes.
pub record Response : Type 0 where
  pub accepted : ℕ
  pub duplicates : ℕ

unfoldable pub response_of : Counts → Response
response_of c = record { accepted = c.accepted; duplicates = c.duplicates }

-- cycleItem
pub data CycleItem : Type 0 where
  cycle : CycleEventRow → CycleItem
  summary : StormSummaryRow → CycleItem

pub record CycleEventsRequest : Type 0 where
  pub cycle_events : List CycleEvent
  pub storm_summaries : List StormSummary

-- ... and SubmitCycleEvents.
unfoldable pub items_of : (List ℕ → Option ℕ) → Limits → CycleEventsRequest → List CycleItem
items_of parse_uuid l req =
    map cycle (accepted_rows (cycle_row parse_uuid l) req.cycle_events)
    ++ map summary (accepted_rows (summary_row parse_uuid l) req.storm_summaries)

-- The items of a batch by their tables.
unfoldable pub cycles_in : List CycleItem → List CycleEventRow
cycles_in [] = []
cycles_in (cycle r ∷ items) = r ∷ cycles_in items
cycles_in (summary r ∷ items) = cycles_in items

unfoldable pub summaries_in : List CycleItem → List StormSummaryRow
summaries_in [] = []
summaries_in (cycle r ∷ items) = summaries_in items
summaries_in (summary r ∷ items) = r ∷ summaries_in items

unfoldable pub add_results : BatchResult → BatchResult → BatchResult
add_results a b = record {
  accepted = a.accepted + b.accepted;
  duplicates = a.duplicates + b.duplicates;
  rejected = a.rejected + b.rejected;
}

abbrev pub no_result : BatchResult
no_result = record { accepted = 0; duplicates = 0; rejected = 0 }

-- The two tables that SubmitCycleEvents writes, and what they share.
pub record CycleWorld : Type 0 where
  pub store : Store
  pub devices : List Device
  pub notified : List Notification
  pub cycles : List CycleEventRow
  pub summaries : List StormSummaryRow
  pub calls : ℕ

module _ {E : Type 0} (duplicate : E) (faults : ℕ → Faults E) (answers : ℕ → ℕ → ℕ → Answer E) where
  -- A batch of one table is inserted.
  unfoldable pub flush :
      {R : Type 0} ⦃t : Telemetry R⦄ → World R → List R → World R × Result E BatchResult
  flush w rows =
      let ((s, db), res) = insert duplicate (faults w.calls) (answers w.calls) w.store w.db rows in
      (record { store = s; db = db; calls = w.calls + 1 }, res)

  unfoldable pub flush_cycles : CycleWorld → List CycleEventRow → CycleWorld × Result E BatchResult
  flush_cycles w [] = (w, ok no_result)
  flush_cycles w (r ∷ rows) =
      let db : Database CycleEventRow = record {
        devices = w.devices;
        rows = w.cycles;
        notified = w.notified;
      } in
      let (w1, res) = flush (record { store = w.store; db = db; calls = w.calls }) (r ∷ rows) in
      (
        record {
          store = w1.store;
          devices = w1.db.devices;
          notified = w1.db.notified;
          cycles = w1.db.rows;
          summaries = w.summaries;
          calls = w1.calls;
        },
        res,
      )

  unfoldable pub flush_summaries :
      CycleWorld → List StormSummaryRow → CycleWorld × Result E BatchResult
  flush_summaries w [] = (w, ok no_result)
  flush_summaries w (r ∷ rows) =
      let db : Database StormSummaryRow = record {
        devices = w.devices;
        rows = w.summaries;
        notified = w.notified;
      } in
      let (w1, res) = flush (record { store = w.store; db = db; calls = w.calls }) (r ∷ rows) in
      (
        record {
          store = w1.store;
          devices = w1.db.devices;
          notified = w1.db.notified;
          cycles = w.cycles;
          summaries = w1.db.rows;
          calls = w1.calls;
        },
        res,
      )

  -- A batch of items is at most two inserts, the second only after the first succeeded.
  unfoldable pub flush_items : CycleWorld → List CycleItem → CycleWorld × Result E BatchResult
  flush_items w items =
      let (w1, first) = flush_cycles w (cycles_in items) in
      elim first [
        | err e ↦ (w1, err e)
        | ok res ↦
            let (w2, second) = flush_summaries w1 (summaries_in items) in
            elim second [ err e ↦ (w2, err e) | ok more ↦ (w2, ok (add_results res more)) ]
      ]
