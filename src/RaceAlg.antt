-- ===== src/RaceAlg.antt =====
-- csrc/race_sanitizer/alg_framework/race_alg_base.cpp and race_alg_impl.cpp: the algorithm that finds
-- races inside a core, by running a kernel's events through `PipeLine`.
pub mod State
pub mod Shared
pub mod Inner
pub mod Load
pub mod Terminates
pub mod Run
