-- ===== src/Checker/Pairs.antt =====
-- csrc/race_sanitizer/alg_framework/mem_event_checker.cpp: which pairs of accesses race, for each kind
-- of check.
use ascend_mssanitizer.Checker.State.{MemEventChecker, pipe_idx_by_mem_event, expand_pipe_idx}
use ascend_mssanitizer.Checker.Overlap.{
  same_mem_type, is_memory_overlap, is_mixed_overlap, Found, is_dynamic_overlap, EventIdxInfo,
}
use ascend_mssanitizer.Base.{
  Bool, if◌then◌else◌, ◌&&◌, ◌-◌, false, not, Option, some, ◌==◌, ltb, ℕ, ◌||◌,
}
use ascend_mssanitizer.Event.{
  MemEvent, cross_block_check, RaceCheckType, is_write, cross_npu_check, single_pipe_check,
  block_type_index, pipe_index, single_block_check,
}
use ascend_mssanitizer.Clock.{is_not_happens_before}

-- `IsMemSpaceOverlap`
unfoldable pub is_mem_space_overlap : MemEvent → MemEvent → EventIdxInfo → EventIdxInfo → Found
unfolding is_memory_overlap is_mixed_overlap is_dynamic_overlap
is_mem_space_overlap e1 e2 i1 i2 =
    let (right, i2') = is_mixed_overlap e1.mem_info e2.dynamic_mem_info i2 in
    let (left, i1') = is_mixed_overlap e2.mem_info e1.dynamic_mem_info i1 in
    if e1.is_dynamic
    then (if e2.is_dynamic
        then is_dynamic_overlap e1.dynamic_mem_info e2.dynamic_mem_info i1 i2
        else (left, i1', i2))
    else if e2.is_dynamic
    then (right, i1, i2')
    else (is_memory_overlap e1.mem_info e2.mem_info, i1, i2)

-- `IsAtomicAgainst`
unfoldable pub is_atomic_against : MemEvent → MemEvent → Bool
unfolding pipe_index
is_atomic_against e1 e2 =
    (e1.is_atomic_mode && e2.is_atomic_mode)
    && ((is_write e1.mem_info.op_type && is_write e2.mem_info.op_type)
        && not ((pipe_index e1.pipe == 0) || (pipe_index e2.pipe == 0)))

unfoldable pub same_pipe : MemEvent → MemEvent → Bool
unfolding pipe_index
same_pipe e1 e2 = pipe_index e1.pipe == pipe_index e2.pipe

abbrev pub no_race : EventIdxInfo → EventIdxInfo → Found
no_race i1 i2 = (false, i1, i2)

-- The two are ordered by their vector times, each read at its own pipe.
unfoldable pub are_ordered : RaceCheckType → MemEventChecker → MemEvent → MemEvent → Bool
unfolding is_not_happens_before pipe_idx_by_mem_event
are_ordered check m e1 e2 = not (
    is_not_happens_before e1.vt e2.vt (pipe_idx_by_mem_event e1 m.kernel_type m.device_type check)
      (pipe_idx_by_mem_event e2 m.kernel_type m.device_type check))

-- `IsInnerCoreRaceEvent`
unfoldable pub is_inner_core_race_event :
    MemEventChecker → MemEvent → MemEvent → EventIdxInfo → EventIdxInfo → Found
unfolding is_mem_space_overlap is_atomic_against
is_inner_core_race_event m e1 e2 i1 i2 =
    if same_pipe e1 e2
    then no_race i1 i2
    else if are_ordered single_block_check m e1 e2
    then no_race i1 i2
    else if is_atomic_against e1 e2
    then no_race i1 i2
    else is_mem_space_overlap e1 e2 i1 i2

abbrev pub max_serial_number_diff : ℕ
max_serial_number_diff = 16

-- `IsSinglePipeRaceEvent`
unfoldable pub is_single_pipe_race_event :
    MemEventChecker → MemEvent → MemEvent → EventIdxInfo → EventIdxInfo → Found
unfolding is_mem_space_overlap is_atomic_against
is_single_pipe_race_event m e1 e2 i1 i2 =
    let diff =
      if ltb e2.pipe_serial_no e1.pipe_serial_no
      then e1.pipe_serial_no - e2.pipe_serial_no
      else e2.pipe_serial_no - e1.pipe_serial_no in
    if not (same_mem_type e1.mem_info.mem_type e2.mem_info.mem_type)
    then no_race i1 i2
    else if not (same_pipe e1 e2)
    then no_race i1 i2
    else if e1.serial_no == e2.serial_no
    then no_race i1 i2
    else if is_atomic_against e1 e2
    then no_race i1 i2
    else if ltb max_serial_number_diff diff
    then no_race i1 i2
    else if not (e1.barrier_no == e2.barrier_no)
    then no_race i1 i2
    else is_mem_space_overlap e1 e2 i1 i2

-- `IsCrossCoreRaceEvent`
unfoldable pub is_cross_core_race_event :
    MemEventChecker → MemEvent → MemEvent → EventIdxInfo → EventIdxInfo → Found
unfolding is_mem_space_overlap is_atomic_against
is_cross_core_race_event m e1 e2 i1 i2 =
    if (e1.loc.core_id == e2.loc.core_id)
      && (block_type_index e1.loc.block_type == block_type_index e2.loc.block_type)
    then no_race i1 i2
    else if are_ordered cross_block_check m e1 e2
    then no_race i1 i2
    else if is_atomic_against e1 e2
    then no_race i1 i2
    else is_mem_space_overlap e1 e2 i1 i2

-- What `KernelManager` knows: the name of a kernel of a device, as a number that stands for it.
abbrev pub KernelNames : Type 0
KernelNames = ℕ → ℕ → Option ℕ

abbrev pub same_kernel : Option ℕ → Option ℕ → Bool
same_kernel (some a) (some b) = a == b
same_kernel _ _ = false

-- `IsCrossNpuRaceEvent`
unfoldable pub is_cross_npu_race_event :
    KernelNames → MemEventChecker → MemEvent → MemEvent → EventIdxInfo → EventIdxInfo → Found
unfolding is_mem_space_overlap is_not_happens_before expand_pipe_idx
is_cross_npu_race_event names m e1 e2 i1 i2 =
    if e1.loc.device_id == e2.loc.device_id
    then no_race i1 i2
    else if not (
        is_not_happens_before e1.vt e2.vt (expand_pipe_idx e1 m.block_num)
          (expand_pipe_idx e2 m.block_num))
    then no_race i1 i2
    else if not (
        same_kernel (names e1.loc.device_id e1.loc.kernel_idx)
          (names e2.loc.device_id e2.loc.kernel_idx))
    then no_race i1 i2
    else is_mem_space_overlap e1 e2 i1 i2

-- The function that `checkTypeMap_` has for the checker's type.
unfoldable pub check_pair :
    RaceCheckType
    → KernelNames
    → MemEventChecker
    → MemEvent
    → MemEvent
    → EventIdxInfo
    → EventIdxInfo
    → Found
unfolding is_inner_core_race_event is_single_pipe_race_event is_cross_core_race_event
    is_cross_npu_race_event
check_pair single_block_check names = is_inner_core_race_event
check_pair single_pipe_check names = is_single_pipe_race_event
check_pair cross_block_check names = is_cross_core_race_event
check_pair cross_npu_check names = is_cross_npu_race_event names
