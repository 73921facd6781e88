-- ===== src/Logbook.antt =====
-- The logbook (logbook/logbook.go): dataset histories over operation logs.
pub mod Models
pub mod History
pub mod Book
mod Examples
