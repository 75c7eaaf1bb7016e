-- ===== src/Setup.antt =====
-- What a program does before its loop: the test of the Python version, the configuration file and the
-- definition of a task.
pub mod Version
pub mod Conf
pub mod TaskXml
mod Tests
