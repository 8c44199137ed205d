-- ===== src/Ingest.antt =====
-- internal/ingest: from submitted messages to rows.
pub mod Convert
pub mod Tables
pub mod Stream
pub mod Server
mod Tests
