-- ===== src/Fp.antt =====
-- The profile library (fp/src).
pub mod Lookup
pub mod Tables
pub mod Profile
pub mod D185
pub mod Xml
pub mod Pack
