-- ===== src/Automation.antt =====
-- Running transforms and workflows on a schedule or on demand (automation).
pub mod RunQueue
pub mod TriggerSet
mod Examples
