-- ===== src/Hardware/Spg.antt =====
-- qhrr0_hw/actuators: the SPG actuator protocol.
pub mod Numbers
pub mod Encode
pub mod Decode
pub mod Quantise
pub mod Payload
pub mod Accept
pub mod Params
pub mod Responses
