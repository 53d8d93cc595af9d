-- ===== src/Proxy.antt =====
-- pkg/proxy: the routes of the local reverse proxy, and their hostnames.
pub mod Hostname
pub mod Routes
pub mod Ports
mod Tests
