-- ===== src/Commands.antt =====
-- src/scpi_dev.c: the commands of the grammar that reach the device. Each checks its parameters and
-- calls the driver; a parameter of a type that the command does not take is a failed assertion.
pub mod Measure
pub mod Sense
pub mod Source
pub mod Trigger
pub mod Settings
pub mod Query
