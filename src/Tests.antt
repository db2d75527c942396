-- ===== src/Tests.antt =====
-- Concrete inputs at which the theorems hold.
mod Canceled
mod D185
mod Fuji
mod Xml
mod Setup
mod Shutdown
mod Exif
mod Frames
mod Discovery
mod Usb
mod Network
