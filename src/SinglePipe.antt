-- ===== src/SinglePipe.antt =====
-- csrc/race_sanitizer/alg_framework/single_pipe_race_alg_impl.cpp: class SinglePipeRaceAlgImpl, which
-- looks for races between the instructions of one pipe.
pub mod Run
pub mod Barriers
use ascend_mssanitizer.Base.{
  ◌&&◌, set, Bool, false, get_or, if◌then◌else◌, ltb, true, List, ◌+◌, ℕ, ◌==◌, ◌||◌,
}
use ascend_mssanitizer.Event.{
  pipe_barrier, SanEvent, PipeType, pipe_index, is_ascend95, SyncOpInfo, mem_event, sync_event,
  SyncType, single_pipe_check, KernelType, to_mem_event, DeviceType, EventInfo, pipe_count,
}
use ascend_mssanitizer.Checker.State.{MemEventChecker, push_event, init_checker}
use ascend_mssanitizer.PipeLine.{Handler, process_ok}
use ascend_mssanitizer.Base.Words.{u8, u32, u64}
use ascend_mssanitizer.Container.{push, EventContainer}

-- `pipeBarrierNo_`, and the two columns of `pipeSerialNo_`. Neither has an initial value in the source.
pub record PipeCounters : Type 0 where
  pub barriers : List ℕ
  pub last_serial : List ℕ
  pub serials : List ℕ

pub record SinglePipeState : Type 0 where
  pub counters : PipeCounters
  pub mem_checker : MemEventChecker
  pub device_type : DeviceType

-- The constructor, but for the container, which is `Container.init` on one block.
unfoldable pub single_pipe_init : KernelType → DeviceType → PipeCounters → SinglePipeState
single_pipe_init k d n = record {
  counters = n;
  mem_checker = init_checker k d single_pipe_check;
  device_type = d;
}

-- The pipe's place in the counters, which leave out the scalar pipe: its uint8_t less one, which for the
-- scalar pipe is past their end.
unfoldable pub pipe_num : PipeType → ℕ
unfolding pipe_index
pipe_num p = u8 (pipe_index p + 255)

abbrev pub barriers_at : SinglePipeState → ℕ → ℕ
barriers_at r n = get_or r.counters.barriers n 0

abbrev pub serials_at : SinglePipeState → ℕ → ℕ
serials_at r n = get_or r.counters.serials n 0

-- A new serial number on a pipe counts the pipe's instructions up.
unfoldable pub count_serial : ℕ → ℕ → SinglePipeState → SinglePipeState
count_serial n serial r =
    let k = r.counters in
    if get_or k.last_serial n 0 == serial then r else record r {
      counters = record k {
        last_serial = set k.last_serial n serial;
        serials = set k.serials n (u64 (get_or k.serials n 0 + 1));
      };
    }

-- `ProcessMemEvent`
unfoldable pub process_single_mem_event : SanEvent → SinglePipeState → SinglePipeState
unfolding count_serial pipe_num
process_single_mem_event e r =
    let n = pipe_num e.pipe in
    let counted = count_serial n e.serial_no r in
    let kept = record (to_mem_event e) {
      barrier_no = barriers_at r n;
      pipe_serial_no = serials_at counted n;
    } in
    record counted { mem_checker = push_event kept counted.mem_checker }

abbrev pub is_pipe_barrier : SyncType → Bool
is_pipe_barrier pipe_barrier = true
is_pipe_barrier _ = false

-- `ProcessSyncEvent`
unfoldable pub process_single_sync_event : SyncOpInfo → PipeType → SinglePipeState → SinglePipeState
unfolding pipe_num
process_single_sync_event s p r =
    let n = pipe_num p in
    let k = r.counters in
    if is_pipe_barrier s.op_type
    then record r {
      counters = record k { barriers = set k.barriers n (u32 (get_or k.barriers n 0 + 1)) };
    }
    else r

-- The accesses that the check leaves out: those of the vector pipe on devices that order them
-- themselves, and those of the two scalar pipes.
unfoldable pub is_left_out : DeviceType → PipeType → Bool
unfolding is_ascend95 pipe_index
is_left_out d p =
    (is_ascend95 d && (pipe_index p == 1)) || ((pipe_index p == 0) || (pipe_index p == 11))

unfoldable pub process_single_info : EventInfo → SanEvent → SinglePipeState → SinglePipeState
unfolding process_single_mem_event process_single_sync_event is_left_out
process_single_info (sync_event s) e r = process_single_sync_event s e.pipe r
process_single_info (mem_event m) e r =
    if is_left_out r.device_type e.pipe then r else process_single_mem_event e r
process_single_info _ e r = r

-- `ProcessEvent`
unfoldable pub process_single_event : Handler SinglePipeState
process_single_event e c r = record {
  ret = process_ok;
  events = c;
  rest = process_single_info e.info e r;
}

-- The first stage of `Do`: an event waits on its own pipe, unless that is the scalar one.
unfoldable pub do_single_event : SanEvent → EventContainer → EventContainer
unfolding pipe_index
do_single_event e c =
    if ltb 0 (pipe_index e.pipe) && ltb (pipe_index e.pipe) pipe_count
    then push e e.pipe 0 0 c
    else c
