-- ===== src/Bridge.antt =====
-- internal/bridge: what the two MQTT bridges share.
pub mod Batcher
pub mod Convert
mod Tests
