-- ===== src/Event/Info.antt =====
-- csrc/core/framework/event_def.h: the payloads, the event, and the memory event made of it.
use ascend_mssanitizer.Base.{ℕ, Bool, true, false, List, []}
use ascend_mssanitizer.Base.Int.{ℤ}
use ascend_mssanitizer.Event.Arch.{
  PipeType, MemType, AddressSpace, mem_invalid, BlockType, AccessType, MaskMode, CompareOp,
  SyncType, BufMode, RegisterType,
}

-- A vector time: one counter (a uint32_t) for each pipe of each block.
abbrev pub VectorTime : Type 0
VectorTime = List ℕ

pub data SanitizerControlType : Type 0 where
  kernel_finish finish : SanitizerControlType

-- A strided access: `repeat_times` repeats of `block_num` blocks of `block_size` bytes.
pub record MemOpInfo : Type 0 where
  pub mem_type : MemType
  pub op_type : AccessType
  pub mask0 : ℕ
  pub mask_mode : MaskMode
  pub data_bits : ℕ
  pub addr : ℕ
  pub block_num : ℕ
  pub block_size : ℕ
  pub block_stride : ℕ
  pub repeat_times : ℕ
  pub repeat_stride : ℕ

pub record SyncOpInfo : Type 0 where
  pub op_type : SyncType
  pub src_pipe : PipeType
  pub dst_pipe : PipeType
  pub event_id : ℕ
  pub mem_type : MemType
  pub is_retrogress : Bool
  pub is_generated : Bool

pub record FftsSyncInfo : Type 0 where
  pub op_type : SyncType
  pub dst_pipe : PipeType
  pub flag_id : ℕ
  pub mode : ℕ
  pub vec_sub_block_dim : ℕ

pub record BufSyncInfo : Type 0 where
  pub op_type : SyncType
  pub pipe : PipeType
  pub buf_id : ℕ
  pub rls_count : ℕ
  pub mode : BufMode

pub record SoftSyncInfo : Type 0 where
  pub op_type : SyncType
  pub event_id : ℤ
  pub wait_core_id : ℕ
  pub used_cores : ℤ
  pub is_aiv_only : Bool

pub record MstxCrossInfo : Type 0 where
  pub addr : ℕ
  pub flag_id : ℕ
  pub pipe : PipeType
  pub is_more : Bool
  pub is_merge : Bool
  pub op_type : SyncType

pub record RegisterOpInfo : Type 0 where
  pub reg_type : RegisterType
  pub reg_val : ℕ
  pub reg_idx : ℕ

pub record MstxSignalSet : Type 0 where
  pub addr : ℕ
  pub value : ℤ

pub record MstxSignalWait : Type 0 where
  pub addr : ℕ
  pub cmp_value : ℤ
  pub cmp_op : CompareOp

pub record MstxCrossCoreBarrier : Type 0 where
  pub used_core_num : ℕ
  pub is_aiv_only : Bool
  pub pipe_barrier_all : Bool

pub record MstxCrossNpuBarrier : Type 0 where
  pub used_device_num : ℕ
  pub used_core_num : ℕ
  pub is_aiv_only : Bool
  pub pipe_barrier_all : Bool

pub record SimtThreadLocation : Type 0 where
  pub id_x : ℕ
  pub id_y : ℕ
  pub id_z : ℕ

-- `pc` is that of the record's location.
pub record ShadowMemoryRecord : Type 0 where
  pub addr : ℕ
  pub size : ℕ
  pub pc : ℕ
  pub thread_loc : SimtThreadLocation
  pub space : AddressSpace
  pub access_type : AccessType

-- `buffer` holds the `count` records that the pointer leads to, and is empty for a null pointer;
-- `is_shadow_memory` is the test of `dynamicType`.
pub record DynamicOpInfo : Type 0 where
  pub min_addr : ℕ
  pub max_addr : ℕ
  pub is_shadow_memory : Bool
  pub mem_type : MemType
  pub buffer : List ShadowMemoryRecord

pub record LocInfo : Type 0 where
  pub file_no : ℕ
  pub line_no : ℕ
  pub pc : ℕ
  pub device_idx : ℕ
  pub kernel_idx : ℕ
  pub device_id : ℕ
  pub core_id : ℕ
  pub block_type : BlockType

-- `EventType` and the union `eventInfo` together: a constructor for each type of event, with the
-- member of the union that the type selects.
pub data EventInfo : Type 0 where
  sanitizer_control_event : SanitizerControlType → EventInfo
  mem_event : MemOpInfo → EventInfo
  sync_event : SyncOpInfo → EventInfo
  time_event : EventInfo
  cross_core_sync_event : FftsSyncInfo → EventInfo
  cross_core_soft_sync_event : SoftSyncInfo → EventInfo
  mstx_cross_sync_event : MstxCrossInfo → EventInfo
  register_event : RegisterOpInfo → EventInfo
  h_sync_event : EventInfo
  buf_sync_event : BufSyncInfo → EventInfo
  mstx_signal_set_event : MstxSignalSet → EventInfo
  mstx_signal_wait_event : MstxSignalWait → EventInfo
  mstx_cross_core_barrier : MstxCrossCoreBarrier → EventInfo
  mstx_cross_npu_barrier : MstxCrossNpuBarrier → EventInfo
  dynamic_mem_event : DynamicOpInfo → EventInfo

pub record SanEvent : Type 0 where
  pub serial_no : ℕ
  pub pipe : PipeType
  pub info : EventInfo
  pub time_info : VectorTime
  pub loc : LocInfo
  pub is_atomic_mode : Bool
  -- What the member of a `MemEvent` that its constructor leaves without a value holds: for an access by
  -- shadow memory records, `memInfo`. It may be anything.
  pub stale_mem_info : MemOpInfo

-- What the checker keeps of an access, with the time at which it happened.
pub record MemEvent : Type 0 where
  pub serial_no : ℕ
  pub barrier_no : ℕ
  pub pipe_serial_no : ℕ
  pub vt : VectorTime
  pub mem_info : MemOpInfo
  pub dynamic_mem_info : DynamicOpInfo
  pub loc : LocInfo
  pub pipe : PipeType
  pub is_atomic_mode : Bool
  pub is_dynamic : Bool

abbrev pub no_dynamic_info : DynamicOpInfo
no_dynamic_info = record {
  min_addr = 0;
  max_addr = 0;
  is_shadow_memory = false;
  mem_type = mem_invalid;
  buffer = [];
}

abbrev memory_event : SanEvent → MemOpInfo → DynamicOpInfo → Bool → MemEvent
memory_event e m d dynamic = record {
  serial_no = e.serial_no;
  barrier_no = 0;
  pipe_serial_no = 0;
  vt = [];
  mem_info = m;
  dynamic_mem_info = d;
  loc = e.loc;
  pipe = e.pipe;
  is_atomic_mode = e.is_atomic_mode;
  is_dynamic = dynamic;
}

abbrev mem_event_of : SanEvent → EventInfo → MemEvent
mem_event_of e (dynamic_mem_event d) = memory_event e e.stale_mem_info d true
mem_event_of e (mem_event m) = memory_event e m no_dynamic_info false
mem_event_of e _ = memory_event e e.stale_mem_info no_dynamic_info false

-- `MemEvent(const SanEvent &)`
unfoldable pub to_mem_event : SanEvent → MemEvent
to_mem_event e = mem_event_of e e.info

abbrev is_kernel_finish_info : EventInfo → Bool
is_kernel_finish_info (sanitizer_control_event kernel_finish) = true
is_kernel_finish_info _ = false

-- The event that closes a kernel's stream.
abbrev pub is_kernel_finish : SanEvent → Bool
is_kernel_finish e = is_kernel_finish_info e.info
