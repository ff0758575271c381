-- ===== src/Examples.antt =====
-- The theorems at concrete inputs.
pub mod Discs
pub mod Reads
pub mod Readers
pub mod Sessions
pub mod Inputs
pub mod Workers
pub mod Drives
pub mod Engines
pub mod Players
