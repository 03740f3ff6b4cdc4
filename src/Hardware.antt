-- ===== src/Hardware.antt =====
-- The robot's own devices, qhrr0_hw: the E2Box IMU and the SPG actuators.
pub mod E2box
pub mod Spg
