-- ===== src/Fp/Xml.antt =====
-- XML profiles (fp/src/xml.c).
pub mod Strtoul
pub mod Props
pub mod Profile
pub mod Sanitized
pub mod Keeps
pub mod Dump
pub mod Dumped
pub mod Listed
pub mod Unset
pub mod Readable
