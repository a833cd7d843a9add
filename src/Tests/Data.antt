-- ===== src/Tests/Data.antt =====
-- Events and accesses for the tests.
use ascend_mssanitizer.Base.{◌∷◌, List, none, false, []}
use ascend_mssanitizer.Event.{
  LocInfo, ub, mem_invalid, read, mask_norm, no_dynamic_info, MemOpInfo, PipeType, MemEvent,
  mem_event, EventInfo, pipe_v, aivec, pipe_mte2, write, SanEvent, VectorTime,
}
use ascend_mssanitizer.Checker.Pairs.{KernelNames}

abbrev pub test_loc : LocInfo
test_loc = record {
  file_no = 0;
  line_no = 0;
  pc = 0;
  device_idx = 0;
  kernel_idx = 0;
  device_id = 0;
  core_id = 0;
  block_type = aivec;
}

abbrev pub no_mem_info : MemOpInfo
no_mem_info = record {
  mem_type = mem_invalid;
  op_type = read;
  mask0 = 0;
  mask_mode = mask_norm;
  data_bits = 0;
  addr = 0;
  block_num = 0;
  block_size = 0;
  block_stride = 0;
  repeat_times = 0;
  repeat_stride = 0;
}

-- A write of 32 bytes to the unified buffer.
abbrev pub test_write : MemOpInfo
test_write = record no_mem_info {
  mem_type = ub;
  op_type = write;
  addr = 64;
  block_num = 1;
  block_size = 32;
  repeat_times = 1;
}

abbrev pub event_on : PipeType → EventInfo → SanEvent
event_on p x = record {
  serial_no = 0;
  pipe = p;
  info = x;
  time_info = [];
  loc = test_loc;
  is_atomic_mode = false;
  stale_mem_info = no_mem_info;
}

abbrev pub access_at : PipeType → VectorTime → MemEvent
access_at p vt = record {
  serial_no = 0;
  barrier_no = 0;
  pipe_serial_no = 0;
  vt = vt;
  mem_info = test_write;
  dynamic_mem_info = no_dynamic_info;
  loc = test_loc;
  pipe = p;
  is_atomic_mode = false;
  is_dynamic = false;
}

abbrev pub no_names : KernelNames
no_names d k = none

abbrev pub test_kernel : List SanEvent
test_kernel =
    event_on pipe_mte2 (mem_event test_write) ∷ event_on pipe_v (mem_event test_write) ∷ []
