-- ===== src/Runner.antt =====
-- revtr/runner/revtr_runner.go: the steps that complete a reverse traceroute by measurements.
pub mod Result
pub mod Network
pub mod Measure
pub mod Steps
pub mod Probes
pub mod Keyed
pub mod Timestamp
pub mod Run
pub mod Post
pub mod Graph
pub mod Ending
pub mod Samples
mod Tests
