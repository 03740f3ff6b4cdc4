-- ===== src/Shm.antt =====
-- The shared memory segments of robot_controller/shm.
pub mod OperatorCommand
pub mod RobotState
pub mod ControlCommand
pub mod AuxCommand
