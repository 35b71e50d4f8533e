-- ===== src/Controller.antt =====
-- controller: the measurements that the central controller runs.
pub mod Spoofs
mod Tests
pub mod Backend
pub mod Phases
pub mod Numbers
pub mod Traceroute
pub mod Ping
