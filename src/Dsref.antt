-- ===== src/Dsref.antt =====
-- Dataset references and names (dsref).
pub mod Ref
pub mod Scan
pub mod Parse
pub mod VersionInfo
pub mod Generate
mod Examples
