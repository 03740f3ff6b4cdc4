-- ===== src/Control.antt =====
-- robot_controller: the state machine and the controller.
pub mod StateMachine
pub mod Consume
pub mod ZeroTargets
pub mod World
pub mod Sends
pub mod Tick
pub mod Receive
pub mod Lifecycle
