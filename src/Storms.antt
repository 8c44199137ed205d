-- ===== src/Storms.antt =====
-- internal/storms: the service that finds storms in the rainfall.
pub mod Select
