-- ===== src/Device.antt =====
-- src/cgr101.c: the CGR-101 driver.
pub mod Handlers
pub mod DigitalEvent
pub mod Convert
pub mod Capture
pub mod Receive
pub mod Completion
pub mod Settings
pub mod Trigger
pub mod Pwm
pub mod Waveform
pub mod Abort
