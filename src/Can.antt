-- ===== src/Can.antt =====
-- The CAN daemon process and its client: hal/can_bus/daemon.py, hal/can_bus/process_client.py and
-- robot_controller/subprocesses/can_daemon/main.py. Hex and Message have the lines of the socket,
-- Daemon the queue and the loops of the daemon, Server its clients, Client the client, and Wire and
-- Connect what holds of them together.
pub mod Hex
pub mod Message
pub mod Daemon
pub mod Server
pub mod Client
