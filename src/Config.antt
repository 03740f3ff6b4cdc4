-- ===== src/Config.antt =====
-- robot_controller/core: the configuration files. Yaml has the values of a document and Python's
-- conversions, Platform the platform file, Controller the file of the robot controller, Validate
-- the checks on it.
pub mod Yaml
pub mod Platform
pub mod Controller
