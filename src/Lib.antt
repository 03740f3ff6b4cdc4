-- ===== src/Lib.antt =====
-- The controller of a legged robot (Python, repository SPARQ-control), modelled part by part.
--
-- The controller process (robot_controller) runs a state machine at a fixed rate. It reads
-- operator commands and policy targets from shared memory, sends command frames to the drives
-- through a CAN daemon, and publishes snapshots of the robot. The hardware layer (hal) has the CAN
-- transport, the dispatcher of received frames and the drivers that keep the latest feedback and
-- its freshness. The product layer (qhrr0_hw) has the payloads of the drives and of the IMU.
--
-- Files:
-- - Common: Booleans on numbers, lists, integers, exceptions as values, and the float operations.
-- - Hal/Frame, Hal/Bus, Hal/Dispatcher, Hal/Transport: hal/can_bus/frame.py, bus.py, dispatcher.py and
--   process_transport.py (`register`, `dispatch`, `send_frame`, `is_recent_tx_echo`).
-- - Hal/Freshness, Hal/Transaction: hal/hardware/can/device_comm_manager.py.
-- - Hal/Actuator, Hal/Imu: hal/hardware/can/actuator and hal/hardware/can/imu (`on_frame`,
--   `_merge_state`).
-- - Hardware/E2box: qhrr0_hw/imu/e2box_protocol.py.
-- - Hardware/Spg: qhrr0_hw/actuators/dongilc_protocol.py, with Numbers for its utility functions,
--   Encode for the command frames and Decode for the feedback.
-- - Shm/OperatorCommand, Shm/ControlCommand, Shm/AuxCommand, Shm/RobotState: the segments of
--   robot_controller/shm.
-- - Telemetry/Snapshot, Telemetry/Publisher: robot_controller/telemetry.
-- - Control/StateMachine: robot_controller/state_machine.py.
-- - Control/Consume, Control/ZeroTargets, Control/World, Control/Sends, Control/Tick, Control/Receive,
--   Control/Lifecycle: robot_controller/controller.py (`_consume_operator_command`,
--   `_zero_set_offsets_by_can_id`, the state and its actions, the `_send_*` methods, `tick` with
--   `_make_snapshot` and `_publish_state`, `_on_actuator_frame`, `start` and `shutdown`).
-- - Config/Platform, Config/Controller: robot_controller/core/platform_config.py and config.py, with Load
--   for the loaders and Validate for `_validate_config`, on the values of Config/Yaml.
-- - Can/Daemon, Can/Hex, Can/Message, Can/Server, Can/Client: the queue of hal/can_bus/daemon.py, the
--   messages, robot_controller/subprocesses/can_daemon/main.py and hal/can_bus/process_client.py.
-- - Supervisor, Supervisor/Start, Supervisor/Stop: robot_controller/supervisor/process_supervisor.py.
-- - Dashboard/BusLoad, Dashboard/Decode, Dashboard/Monitor: bus_load.py, can_decode.py with
--   socketcan_io.py, and state.py of robot_controller/subprocesses/dashboard/backend.
-- - Tests: the theorems at concrete inputs.
--
-- State and operations: a class is a record of its fields and a method a function from the record
-- to the new record. A method that may raise gives a `Result`. The methods of the controller are
-- actions, which give back the robot after an exception too. Loops are recursions on the lists
-- that they go through, but for two that wait. `connect` of the client sleeps 50 ms between its
-- attempts and `_wait_pid_exit` of the supervisor 20 ms between its tests: their fuel is a number
-- of rounds, and enough of them fill the timeout, since each passes at least its sleep. A time is
-- a clock reading as a natural number; the controller's clock gives a reading for each number of
-- readings before it.
--
-- Floats: a command value and its limits are integers of one unit, and the rounding errors of
-- floats are not modelled in the encoders. Decoders use float operations that are a parameter,
-- with no law assumed but that a c_float keeps the sign of an age. The CAN client is a parameter
-- too: how it answers a connection and each frame.
--
-- Not modelled: threads and locks (an operation is one step), sockets, files and shared memory as
-- the operating system gives them, logging, the web server of the dashboard, and the policy
-- runners. Starting and stopping take what these calls do as arguments. Closing a segment or a
-- socket at a shutdown is taken to raise nothing.
pub mod Common
pub mod Config
pub mod Can
pub mod Supervisor
pub mod Hal
pub mod Hardware
pub mod Shm
pub mod Telemetry
pub mod Control
pub mod Dashboard
pub mod Tests
