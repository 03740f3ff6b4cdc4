-- ===== src/Hal.antt =====
-- The hardware abstraction layer: hal/can_bus and hal/hardware/can.
pub mod Frame
pub mod Dispatcher
pub mod Freshness
pub mod Transaction
pub mod Bus
pub mod Transport
pub mod Actuator
pub mod Imu
