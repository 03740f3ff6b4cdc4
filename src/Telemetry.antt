-- ===== src/Telemetry.antt =====
-- robot_controller/telemetry: the snapshots of the robot and their publication.
pub mod Snapshot
pub mod Publisher
pub mod RoundTrip
pub mod RateLimit
