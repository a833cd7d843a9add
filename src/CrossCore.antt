-- ===== src/CrossCore.antt =====
-- csrc/race_sanitizer/alg_framework/cross_core_sync_info_container.cpp: the synchronisation of the
-- cores of a kernel, by flags (Flags), by software events and `SyncAll` (Soft), and by mstx marks.
pub mod State
pub mod Flags
pub mod Soft
pub mod Never
pub mod Marks
pub mod Groups
