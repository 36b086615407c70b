-- ===== src/Proxy.antt =====
-- internal/proxy/manager.go with internal/proxy/clock.go.
pub mod Process
pub mod Systemd
pub mod Spawn
mod Examples
