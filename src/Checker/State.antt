-- ===== src/Checker/State.antt =====
-- csrc/race_sanitizer/alg_framework/mem_event_checker.h and csrc/include/sanitizer_report.h: what is
-- reported of a race, the checker's state, and the places of an event.
use ascend_mssanitizer.Base.{
  ℕ, ◌&&◌, ◌+◌, Bool, List, ◌++◌, ◌%◌, ◌∷◌, if◌then◌else◌, false, ◌/◌, true, ◌*◌, [],
}
use ascend_mssanitizer.Event.{
  RaceCheckType, c220_mix_sub_blockdim, MemEvent, pipe_index, DeviceType, single_block_check, aicpu,
  cross_npu_check, KernelType, is_mix, has_sub_blocks, pipe_count, is_aivec, LocInfo,
  c220_vec_sub_blockdim,
}
use ascend_mssanitizer.Base.Words.{u32}

-- `NeedExpandBlockDim`: each core of a mixed kernel stands for three blocks.
unfoldable pub need_expand_block_dim : KernelType → DeviceType → Bool
unfolding has_sub_blocks
need_expand_block_dim k d = is_mix k && has_sub_blocks d

-- `GetEventExpandBlockIndex`
unfoldable pub event_expand_block_index : LocInfo → ℕ
event_expand_block_index l =
    let vec = is_aivec l.block_type in
    let aicore_index = if vec then l.core_id / c220_vec_sub_blockdim else l.core_id in
    let sub_block_index =
      if vec then l.core_id % c220_vec_sub_blockdim else c220_vec_sub_blockdim in
    u32 (aicore_index * c220_mix_sub_blockdim + sub_block_index)

abbrev pub is_single_block : RaceCheckType → Bool
is_single_block single_block_check = true
is_single_block _ = false

-- `GetEventBlockIndex`, which reads nothing of the event but its place.
unfoldable pub event_block_index : LocInfo → KernelType → DeviceType → RaceCheckType → ℕ
unfolding need_expand_block_dim event_expand_block_index
event_block_index l k d check =
    if need_expand_block_dim k d
    then event_expand_block_index l
    else if is_single_block check
    then 0
    else l.core_id

-- `GetPipeIdxByMemEvent`
unfoldable pub pipe_idx_by_mem_event : MemEvent → KernelType → DeviceType → RaceCheckType → ℕ
unfolding event_block_index pipe_index
pipe_idx_by_mem_event e k d check =
    u32 (event_block_index e.loc k d check * pipe_count + pipe_index e.pipe)

-- `GetExpandPipeIdx`
unfoldable pub expand_pipe_idx : MemEvent → ℕ → ℕ
unfolding event_expand_block_index pipe_index
expand_pipe_idx e block_num = u32 (
    e.loc.device_idx * block_num * pipe_count
    + event_expand_block_index e.loc * pipe_count
    + pipe_index e.pipe)

-- The state that the calls share, without the result, which is that of `run_algorithm`.
pub record MemEventChecker : Type 0 where
  pub events : List MemEvent
  pub block_num : ℕ
  pub kernel_type : KernelType
  pub device_type : DeviceType
  pub check_type : RaceCheckType

-- `PushEvent`
abbrev pub push_event : MemEvent → MemEventChecker → MemEventChecker
push_event e m = record m { events = m.events ++ e ∷ [] }

-- `Init` of a kernel on one device, and `Init` over devices.
unfoldable pub init_checker : KernelType → DeviceType → RaceCheckType → MemEventChecker
init_checker k d check = record {
  events = [];
  block_num = 0;
  kernel_type = k;
  device_type = d;
  check_type = check;
}

unfoldable pub init_npu_checker : ℕ → MemEventChecker
init_npu_checker n = record {
  events = [];
  block_num = n;
  kernel_type = aicpu;
  device_type = 0;
  check_type = cross_npu_check;
}
