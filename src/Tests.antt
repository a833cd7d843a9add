-- ===== src/Tests.antt =====
-- Runs of the model on concrete inputs, and an instance of each result that has conditions.
mod Data
pub mod Machines
pub mod Checks
pub mod Sync
pub mod Memory
pub mod Kernel
