-- ===== src/Tests.antt =====
-- The theorems at concrete inputs, and runs of the definitions.
mod Numbers
mod Hal
pub mod Hardware
pub mod Control
mod Telemetry
mod Lifecycle
mod Config
mod Can
mod Supervisor
