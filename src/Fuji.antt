-- ===== src/Fuji.antt =====
-- The camera session (lib/fuji.c).
pub mod Session
pub mod Ends
pub mod Steps
pub mod Events
pub mod Modes
pub mod Versions
pub mod Liveview
pub mod Download
pub mod Handshake
pub mod Setup
pub mod Shutdown
pub mod Tether
pub mod Thumbs
pub mod Frames
pub mod Device
pub mod DeviceInfo
pub mod Usb
