-- ===== src/Sources.antt =====
-- proxmox_fleet/housekeeping_sources.py.
pub mod Provenance
pub mod RoundTrip
pub mod Coverage
pub mod Authorization
pub mod Examples
