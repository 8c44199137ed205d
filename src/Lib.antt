-- ===== src/Lib.antt =====
-- A model of the core of sumpnet, a network of sensors that watch sump pumps, and the theorems that
-- make it correct. Field nodes send binary uplinks over LoRaWAN; the bridges decode them, batch them
-- and submit them to ingest, which stores rows; consumers poll the tables by a watermark, derive
-- detections from pump cycles and rainfall from gauges, and raise and resolve alerts; the gateway
-- streams live updates to subscribers.
--
-- The files, with the code that each models (paths from the repository's root):
--   Prelude and its children: shared names, Boolean tests, lists, results, maps, bytes.
--   Codec: internal/codec/codec.go. Every port's marshal and unmarshal functions, Decode and Encode.
--     Ranges says when fields hold values of their Go types.
--   Hydrology: internal/hydrology/hydrology.go. The rules on cycles, runs and levels.
--   Hydrology/Storm: internal/hydrology/storm.go. SegmentStorms.
--   AlertCode: the enums of gen/go/sumpnet/alerts/v1/alerts.pb.go and Severity of
--     internal/alerts/codes.go.
--   Detector: internal/detector/detector.go. The handler's maps, seed, classify, the stage of storm
--     summaries, and in Detector/Write the function writeDetections.
--   Alerts/Table: the alerts table with the queries of internal/store/sqlcgen/alerts.sql.go.
--   Alerts/Engine: internal/alerts/engine.go. homeOf, Raise and Resolve over the table.
--   Alerts/Rules: internal/alerts/rules.go. The handlers that call the engine, and SweepOffline.
--   Alerts/Notify: internal/alerts/notify.go. RunOnce, deliver and messageFor.
--   Ingest/Convert: internal/ingest/convert.go. metaOf and the row functions.
--   Ingest/Stream: runStream of internal/ingest/server.go, a step relation of its goroutines.
--   Ingest/Server, Ingest/Tables: the rest of internal/ingest/server.go, and the tables of
--     internal/store/bulk.go with the rows that the conversion makes.
--   Store: internal/store/bulk.go. insert with its transaction, the devices and the partitions.
--   Gateway/Watch: internal/gateway/watch.go. The hub as a function of its events.
--   Gateway/Changes: internal/gateway/watch.go. The change tracker and what a round picks by it.
--   Storms/Select: internal/storms/select.go. The rainfall series that storms are found in.
--   Watermark: internal/watermark/consumer.go with the poll queries of
--     internal/store/queries/watermarks.sql. typedStage.run, RunOnce and the
--     inner loop of Run.
--   Bridge/Batcher: internal/bridge/batcher.go. Run as a function on the events of its select.
--   Privacy: internal/privacy/privacy.go. AggregateStorm and AggregateStatus.
--   Bridge/Convert: internal/bridge/convert.go. FromUplink.
--   NodeBridge: internal/nodebridge/convert.go. Topic, ParseTopic and Decode.
--   Weather/Gauge: internal/weather/gauge.go. deriveOne and DeriveGaugeRainfall.
-- The data types of a larger part stand in a child module: Payloads, Rows, Inputs, Messages, Updates.
--
-- How state and operations correspond: a struct is a record with the source's fields, a handler or a
-- method a function from the state to a result and the new state. A time.Time or time.Duration is a
-- number of nanoseconds since a fixed origin, an unsigned or non-negative machine integer a number
-- with its bound as a hypothesis where a theorem needs it. A Go error is the err of Result. A map is
-- a function or an optional value at each key. A transaction that fails leaves the state before it.
--
-- Bounds and fuel: the batcher's drain gets the number of pending envelopes as fuel and flushes at
-- least one a turn; the inner loop of Run takes any fuel, and a number that is enough is in the
-- results; the binary search gets the number of spans; the poll's bound counts groups down from MaxGroups.
--
-- Not modelled: metrics, logs and the formatting of messages; MQTT, gRPC, SMTP and database connections;
-- queries of tables outside the model, which are arguments; the rounding of floats, the float arithmetic of volumes and
-- response curves; the gateway's queries, the storm service around the selection of
-- rainfall and the search for storms, the site and simulator tools, and the web client.
pub mod Prelude
pub mod Codec
pub mod Hydrology
pub mod AlertCode
pub mod Detector
pub mod Alerts
pub mod Watermark
pub mod Bridge
pub mod Weather
pub mod Privacy
pub mod Store
pub mod Gateway
pub mod Storms
pub mod Ingest
pub mod NodeBridge
