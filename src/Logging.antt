-- ===== src/Logging.antt =====
-- src/logging and include/afina/logging: the configuration of the loggers, their construction, the
-- choice of a logger by its name, and the reopening of log files.
pub mod Select
pub mod Pattern
pub mod Config
pub mod Start
pub mod Reopen
