-- ===== src/Discovery.antt =====
-- rs485-server/discovery_history.py and rs485-server/power_on_discovery.py: which panels are expected,
-- which warnings are queued, and when a power-on starts a scan.
pub mod History
pub mod PowerOn
pub mod Run
mod Examples
