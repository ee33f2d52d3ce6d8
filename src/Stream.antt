-- ===== src/Stream.antt =====
-- proxmox_fleet/housekeeping_stream.py
pub mod Utf8
pub mod Lines
pub mod Fragments
pub mod Guarantees
mod Examples
