-- ===== src/Alerts.antt =====
-- internal/alerts and the queries of internal/store/sqlcgen/alerts.sql.go: the table of alerts, the
-- engine that raises and resolves, and the rules that feed it.
pub mod Table
pub mod Engine
pub mod Rules
pub mod Notify
mod Tests
