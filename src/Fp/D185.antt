-- ===== src/Fp/D185.antt =====
-- The binary profile `d185` (fp/src/d185.c).
pub mod Props
pub mod Codec
pub mod Writer
pub mod Packable
pub mod Values
pub mod Iop
pub mod Create
pub mod Written
pub mod RoundTrip
pub mod Safety
