-- ===== src/Oplog.antt =====
-- Operation logs (logbook/oplog/log.go): operations, logs as trees, and the journal that holds them.
pub mod Op
pub mod Log
pub mod Journal
mod Samples
mod Examples
