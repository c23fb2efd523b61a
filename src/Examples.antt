-- ===== src/Examples.antt =====
-- The theorems at concrete inputs.
mod Calls
mod Media
mod Login
mod Runs
mod Testrun
mod Store
mod Sip
mod Wizard
mod Records
