-- ===== src/Weather.antt =====
-- internal/weather: rainfall from gauges.
pub mod Gauge
mod Tests
