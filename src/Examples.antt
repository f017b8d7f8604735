-- ===== src/Examples.antt =====
-- The theorems of the results list at concrete inputs: a camera that answers every command alike,
-- and a device in each of the states that matter.
pub mod Data
pub mod PtpRuns
pub mod CoreRuns
pub mod UsbRuns
pub mod StillRuns
pub mod StorageRuns
pub mod VideoRuns
