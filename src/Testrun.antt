-- ===== src/Testrun.antt =====
-- internal/testrun: the standardized test script. A test places calls and samples the load every five
-- seconds, stops when the hardware is saturated, and reports.
-- Floats of the source are scaled: a percentage is in hundredths of a percent. Times are milliseconds
-- where the source has parts of a second, else seconds.
pub mod Profile
pub mod Stats
pub mod Samples
pub mod Saturation
pub mod Ramp
pub mod Sampling
pub mod Script
pub mod Recordings
pub mod Summary
pub mod Diagnostics
