-- ===== src/Run.antt =====
-- Transform runs (automation/run): the state that events build up, and the store of runs.
pub mod State
pub mod Store
mod Examples
