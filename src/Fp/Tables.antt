-- ===== src/Fp/Tables.antt =====
-- The value tables of fp/src/data.c, one child for each group.
mod Switches
mod Image
mod Look
mod Ranges
mod Mono
mod ColorTemp
unfoldable pub use Switches.*
unfoldable pub use Image.*
unfoldable pub use Look.*
unfoldable pub use Ranges.*
unfoldable pub use Mono.*
unfoldable pub use ColorTemp.*
