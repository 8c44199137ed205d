-- ===== src/Gateway.antt =====
-- internal/gateway: the live stream of neighbourhood updates.
pub mod Watch
pub mod Changes
