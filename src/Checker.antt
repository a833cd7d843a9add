-- ===== src/Checker.antt =====
-- csrc/race_sanitizer/alg_framework/mem_event_checker.cpp and .h: class MemEventChecker, which keeps
-- the accesses of a kernel and looks for pairs of them that race.
pub mod Bytes
pub mod State
pub mod Series
pub mod Overlap
pub mod Pairs
pub mod Scanline
pub mod Sound
pub mod Reports
pub mod Report
pub mod NoRepeats
pub mod InnerRaces
pub mod PipeRaces
pub mod CoreRaces
