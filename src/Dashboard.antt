-- ===== src/Dashboard.antt =====
-- robot_controller/subprocesses/dashboard/backend: the modules of the dashboard that compute.
pub mod BusLoad
pub mod Decode
pub mod Monitor
