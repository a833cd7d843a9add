-- ===== src/RaceAlg/Inner.antt =====
-- csrc/race_sanitizer/alg_framework/race_alg_impl.cpp: class RaceAlgImpl.
use ascend_mssanitizer.Base.{ℕ, ◌==◌, if◌then◌else◌, Option, Bool, true, none, some, false}
use ascend_mssanitizer.Event.{
  SyncOpInfo, sync_event, mstx_cross_sync_event, EventInfo, mem_event, wait_flag, buf_sync_event,
  pipe_s, time_event, VectorTime, dynamic_mem_event, mem_type_index, set_flag, to_mem_event,
  SyncType, single_block_check, SanEvent, pipe_index, cross_core_sync_event,
}
use ascend_mssanitizer.RaceAlg.State.{tick, time_of, Verdict, RaceState, join}
use ascend_mssanitizer.RaceAlg.Shared.{
  process_block_sync_event, process_get_rls_buf_sync_event, cache_mstx_cross_set,
  process_mstx_cross_sync_event,
}
use ascend_mssanitizer.SyncDb.{get_event, set_event, SyncEvent, SyncEventDataBase}
use ascend_mssanitizer.PipeLine.{process_ok, process_stalled, Handled, Handler}
use ascend_mssanitizer.Checker.State.{push_event, event_block_index}
use ascend_mssanitizer.Container.{que_index, EventContainer, push}
use ascend_mssanitizer.Base.Words.{u8}

-- `ProcessMemEvent` and `ProcessDynamicMemEvent`: the access is kept with its time.
unfoldable pub process_mem_event : SanEvent → ℕ → RaceState → Verdict
unfolding tick
process_mem_event e p r =
    let ticked = tick p r in
    (
      process_ok,
      record ticked {
        mem_checker =
            push_event (record (to_mem_event e) { vt = time_of ticked p }) ticked.mem_checker;
      },
    )

abbrev pub flag_of : Bool → ℕ
flag_of true = 1
flag_of false = 0

-- The key of a set/wait pair.
abbrev pub sync_key : SyncOpInfo → SyncEvent
sync_key s = record {
  src_pipe = pipe_index s.src_pipe;
  dst_pipe = pipe_index s.dst_pipe;
  event_id = u8 s.event_id;
  mem_type = mem_type_index s.mem_type;
  retrogress = flag_of s.is_retrogress;
}

abbrev pub sync_passed : ℕ → RaceState → Option (VectorTime × SyncEventDataBase) → Verdict
sync_passed p r none = (process_stalled, r)
sync_passed p r (some (vt, db)) = (process_ok, tick p (join vt p (record r { sync_db = db })))

abbrev pub sync_by : SyncType → SyncEvent → ℕ → RaceState → Verdict
sync_by set_flag k p r =
    let ticked = tick p r in
    (process_ok, record ticked { sync_db = set_event k (time_of ticked p) r.sync_db })
sync_by wait_flag k p r = sync_passed p r (get_event k r.sync_db)
sync_by _ k p r = (process_ok, r)

-- `ProcessSyncEvent`
unfoldable pub process_sync_event : SyncOpInfo → ℕ → RaceState → Verdict
process_sync_event s p r = sync_by s.op_type (sync_key s) p r

-- `ProcessTimeEvent`
unfoldable pub process_time_event : VectorTime → ℕ → RaceState → Verdict
process_time_event vt p r = (process_ok, tick p (join vt p r))

-- The switch of `ProcessEvent`.
unfoldable pub process_on_pipe : EventInfo → SanEvent → ℕ → RaceState → Verdict
process_on_pipe (sync_event s) e p r = process_sync_event s p r
process_on_pipe (mem_event m) e p r = process_mem_event e p r
process_on_pipe time_event e p r = process_time_event e.time_info p r
process_on_pipe (cross_core_sync_event s) e p r =
    process_block_sync_event s e.loc single_block_check p r
process_on_pipe (mstx_cross_sync_event m) e p r = process_mstx_cross_sync_event m p r
process_on_pipe (buf_sync_event s) e p r =
    process_get_rls_buf_sync_event s e.loc single_block_check p r
process_on_pipe (dynamic_mem_event d) e p r = process_mem_event e p r
process_on_pipe _ e p r = (process_ok, r)

-- The time event that goes before an event which leaves for its own pipe. What the source gives no
-- value is never read of a time event, and is copied from the event here.
abbrev pub time_event_of : SanEvent → VectorTime → SanEvent
time_event_of e vt = record e { info = time_event; time_info = vt }

-- The first half of `ProcessEvent`: an event on another pipe than its own is sent there.
unfoldable pub launch : SanEvent → EventContainer → RaceState → Handled RaceState
launch e c r =
    let p = que_index c in
    let ticked = tick p r in
    let block = event_block_index e.loc r.kernel_type r.device_type single_block_check in
    record {
      ret = process_ok;
      events = push e e.pipe block 0 (push (time_event_of e (time_of ticked p)) e.pipe block 0 c);
      rest = ticked;
    }

abbrev pub keep_container : EventContainer → Verdict → Handled RaceState
keep_container c (v, r) = record { ret = v; events = c; rest = r }

-- `ProcessEvent`
unfoldable pub process_inner_event : Handler RaceState
unfolding launch process_on_pipe
process_inner_event e c r =
    if c.cur_pipe == pipe_index e.pipe
    then keep_container c (process_on_pipe e.info e (que_index c) r)
    else launch e c r

-- The first stage of `Do`: every event but the last of a kernel waits on the scalar pipe.
unfoldable pub do_event : SanEvent → EventContainer × RaceState → EventContainer × RaceState
do_event e (c, r) =
    let block = event_block_index e.loc r.kernel_type r.device_type single_block_check in
    (push e pipe_s block 0 c, cache_mstx_cross_set e r)
