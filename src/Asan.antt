-- ===== src/Asan.antt =====
-- The memory checker, csrc/address_sanitizer.
pub mod Msg
pub mod Bounds
pub mod Spaces
pub mod Fixed
pub mod Record
pub mod Convert
pub mod Merge
pub mod Heap
pub mod Memory
pub mod Pm
pub mod Shadow
