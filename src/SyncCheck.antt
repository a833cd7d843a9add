-- ===== src/SyncCheck.antt =====
-- csrc/sync_sanitizer/sync_sanitizer.cpp: the matching of set_flag with wait_flag, and the search for a
-- set or wait that repeats the one before it on its pipe.
pub mod Keys
pub mod Balance
pub mod Surplus
use ascend_mssanitizer.Base.Assoc.{nat_eq, lookup, insert, queue_of, erase}
use ascend_mssanitizer.Base.{
  ◌%◌, false, not, List, if◌then◌else◌, Bool, ◌-◌, some, true, ◌+◌, ltb, [], length, ◌^◌, ◌||◌,
  is_empty, ℕ, none, ◌*◌, ◌&&◌, ◌∷◌, Option, ◌++◌, ◌==◌,
}
use ascend_mssanitizer.Event.{
  sync_all, EventInfo, get_buf, pipe_index, mstx_cross_sync_event, time_event, pipe_size,
  pipe_barrier, ffts_sync, SyncOpInfo, mstx_wait_cross, wait_flag_dev, PipeType, wait_intra_block,
  set_flag, pipe_s, ib_set, is_kernel_finish, cross_core_soft_sync_event, block_type_index,
  SyncType, cross_core_sync_event, rls_buf, mem_event, mstx_set_cross, aivec, SanEvent, ib_wait,
  hset_flag, sync_event, wait_flag, hwait_flag, to_mem_event,
}
use ascend_mssanitizer.Base.Int.{negsuc, ℤ, pos}
use ascend_mssanitizer.Checker.Report.{ErrorEvent, init_error}
use ascend_mssanitizer.PipeLine.{after}
use ascend_mssanitizer.Asan.Bounds.{check}
use ascend_mssanitizer.Asan.Msg.{default_thread}

-- `SyncCheckType`
pub data SyncCheckType : Type 0 where
  match_check redundancy_check : SyncCheckType

abbrev pub is_match : SyncCheckType → Bool
is_match match_check = true
is_match redundancy_check = false

-- `SyncDispInfo` of csrc/core/framework/event_def.h
pub record SyncDispInfo : Type 0 where
  pub base_event : ErrorEvent
  pub src_pipe : PipeType
  pub dst_pipe : PipeType
  pub event_id : ℕ
  pub op_type : SyncType
  pub check_type : SyncCheckType

abbrev pub sync_type_index : SyncType → ℕ
sync_type_index set_flag = 0
sync_type_index wait_flag = 1
sync_type_index pipe_barrier = 2
sync_type_index ffts_sync = 3
sync_type_index wait_flag_dev = 4
sync_type_index ib_set = 5
sync_type_index ib_wait = 6
sync_type_index sync_all = 7
sync_type_index mstx_set_cross = 8
sync_type_index mstx_wait_cross = 9
sync_type_index get_buf = 10
sync_type_index rls_buf = 11
sync_type_index wait_intra_block = 12
sync_type_index hset_flag = 13
sync_type_index hwait_flag = 14

-- `SyncDispInfo::operator ==`
unfoldable pub same_info : SyncDispInfo → SyncDispInfo → Bool
unfolding pipe_index
same_info a b =
    a.base_event.core_id == b.base_event.core_id
    && block_type_index a.base_event.block_type == block_type_index b.base_event.block_type
    && pipe_index a.src_pipe == pipe_index b.src_pipe
    && pipe_index a.dst_pipe == pipe_index b.dst_pipe
    && a.event_id == b.event_id
    && sync_type_index a.op_type == sync_type_index b.op_type
    && (if is_match a.check_type then is_match b.check_type else not (is_match b.check_type))

-- The members of `SyncSanitizer` but the notification function.
pub record SyncSanitizer : Type 0 where
  pub check_block_id : ℤ
  pub sync_events : List (ℕ × List SyncDispInfo)
  pub pipe_redundancy_events : List (ℕ × SyncDispInfo)
  pub redundancy_info : List SyncDispInfo
  pub is_finished : Bool

-- `SyncSanitizer::Init`
abbrev pub init_sync : SyncSanitizer → SyncSanitizer
init_sync s = record s {
  sync_events = [];
  pipe_redundancy_events = [];
  redundancy_info = [];
  is_finished = false;
}

-- `IsTargetBlockId`, with `CHECK_ALL_BLOCK` for -1
abbrev pub is_target_block_id : SyncSanitizer → ℕ → Bool
is_target_block_id s block = elim s.check_block_id [
  | negsuc n ↦ n == 0 || block == 2 ^ 32 - 1 - n
  | pos n ↦ block == n
]

-- `CalcSetFlagSyncID`; the fields of the number do not overlap, so that `|` adds them.
unfoldable pub calc_set_flag_sync_id : SanEvent → SyncOpInfo → ℕ
unfolding pipe_index
calc_set_flag_sync_id e i =
    (e.loc.core_id % 65536) * 1048576
    + (block_type_index e.loc.block_type % 16) * 65536
    + (pipe_index i.src_pipe % 16) * 4096
    + (pipe_index i.dst_pipe % 16) * 256
    + (i.event_id % 16) * 16

-- `CalcWaitFlagSyncID`
unfoldable pub calc_wait_flag_sync_id : SanEvent → SyncOpInfo → ℕ
unfolding calc_set_flag_sync_id
calc_wait_flag_sync_id e i = calc_set_flag_sync_id e i + 1

-- The record of a set or wait, for either check.
unfoldable pub sync_disp_info : SyncCheckType → SanEvent → SyncOpInfo → SyncDispInfo
unfolding init_error to_mem_event
sync_disp_info check e i = record {
  base_event = init_error (to_mem_event e) 0;
  src_pipe = i.src_pipe;
  dst_pipe = i.dst_pipe;
  event_id = i.event_id;
  op_type = i.op_type;
  check_type = check;
}

-- `pop_back()`
abbrev pub pop_back : {A : Type 0} → List A → List A
pop_back [] = []
pop_back (x ∷ []) = []
pop_back (x ∷ y ∷ ys) = x ∷ pop_back (y ∷ ys)

-- The end of `DoMatchCheck`: the last one of the peers goes, or the instruction itself is kept.
unfoldable pub match_peer :
    ℕ → ℕ → SyncDispInfo → List (ℕ × List SyncDispInfo) → List (ℕ × List SyncDispInfo)
match_peer self peer info m = elim (lookup peer m) [
  | some q ↦ if ltb 1 (length q) then insert peer (pop_back q) m else erase peer m
  | none ↦ insert self (queue_of (lookup self m) ++ info ∷ []) m
]

unfoldable pub match_sync :
    SyncType → SanEvent → SyncOpInfo → List (ℕ × List SyncDispInfo) → List (ℕ × List SyncDispInfo)
unfolding match_peer calc_set_flag_sync_id calc_wait_flag_sync_id sync_disp_info
match_sync set_flag e i m =
    match_peer (calc_set_flag_sync_id e i) (calc_wait_flag_sync_id e i)
      (sync_disp_info match_check e i) m
match_sync wait_flag e i m =
    match_peer (calc_wait_flag_sync_id e i) (calc_set_flag_sync_id e i)
      (sync_disp_info match_check e i) m
match_sync _ e i m = m

unfoldable pub match_info :
    EventInfo → SanEvent → List (ℕ × List SyncDispInfo) → List (ℕ × List SyncDispInfo)
unfolding match_sync
match_info (sync_event i) e m = match_sync i.op_type e i m
match_info _ e m = m

-- `DoMatchCheck`
unfoldable pub do_match_check : SanEvent → SyncSanitizer → SyncSanitizer
unfolding match_info
do_match_check e s = record s { sync_events = match_info e.info e s.sync_events }

-- `getPipeTypeFromSanEvent` for a synchronisation inside a core
abbrev pub pipe_of_sync : SyncType → SyncOpInfo → PipeType
pipe_of_sync rls_buf i = pipe_size
pipe_of_sync wait_flag i = i.dst_pipe
pipe_of_sync _ i = i.src_pipe

-- `getPipeTypeFromSanEvent`
unfoldable pub get_pipe_type : EventInfo → SanEvent → PipeType
get_pipe_type (mem_event i) e = e.pipe
get_pipe_type time_event e = e.pipe
get_pipe_type (sync_event i) e = pipe_of_sync i.op_type i
get_pipe_type (cross_core_sync_event i) e = i.dst_pipe
get_pipe_type (cross_core_soft_sync_event i) e = pipe_s
get_pipe_type (mstx_cross_sync_event i) e = i.pipe
get_pipe_type _ e = pipe_size

-- `SyncDispInfo {}`, which `operator[]` makes for a pipe without an entry
abbrev pub no_info : SyncDispInfo
no_info = record {
  base_event = record {
    serial_no = 0;
    device_id = 0;
    kernel_idx = 0;
    core_id = 0;
    addr = 0;
    file_no = 0;
    line_no = 0;
    pc = 0;
    access_type = 0;
    mem_type = 0;
    pipe_type = 0;
    block_type = aivec;
    thread_loc = default_thread;
    is_simt = false;
  };
  src_pipe = pipe_s;
  dst_pipe = pipe_s;
  event_id = 0;
  op_type = set_flag;
  check_type = match_check;
}

abbrev pub info_or_default : Option SyncDispInfo → SyncDispInfo
info_or_default none = no_info
info_or_default (some i) = i

-- A set or wait that repeats the one before it on its pipe.
unfoldable pub is_redundant : SyncType → SyncDispInfo → SyncDispInfo → Bool
unfolding same_info
is_redundant set_flag self last = same_info self last
is_redundant wait_flag self last = same_info self last
is_redundant _ self last = false

abbrev pub is_pipe_barrier : SyncType → Bool
is_pipe_barrier pipe_barrier = true
is_pipe_barrier _ = false

-- `DoRedundancyCheck` on an event of a pipe.
unfoldable pub check_on_pipe : EventInfo → ℕ → SanEvent → SyncSanitizer → SyncSanitizer
unfolding is_redundant sync_disp_info
check_on_pipe (sync_event i) pipe e s =
    let self = sync_disp_info redundancy_check e i in
    let last = info_or_default (lookup pipe s.pipe_redundancy_events) in
    let found =
      if is_redundant i.op_type self last
      then s.redundancy_info ++ last ∷ self ∷ []
      else s.redundancy_info in
    if i.is_generated || is_pipe_barrier i.op_type then s else record s {
      redundancy_info = found;
      pipe_redundancy_events = insert pipe self s.pipe_redundancy_events;
    }
check_on_pipe _ pipe e s = record s { pipe_redundancy_events = erase pipe s.pipe_redundancy_events }

-- `DoRedundancyCheck`
unfoldable pub do_redundancy_check : SanEvent → SyncSanitizer → SyncSanitizer
unfolding get_pipe_type check_on_pipe pipe_index
do_redundancy_check e s =
    let pipe = pipe_index (get_pipe_type e.info e) in
    if pipe == pipe_index pipe_size then s else check_on_pipe e.info pipe e s

-- The loop of `Do`, up to the event that closes the kernel.
unfoldable pub do_each : List SanEvent → SyncSanitizer → SyncSanitizer
unfolding do_match_check do_redundancy_check
do_each [] s = s
do_each (e ∷ es) s =
    if is_kernel_finish e
    then record s { is_finished = true }
    else if is_target_block_id s e.loc.core_id
    then do_each es (do_redundancy_check e (do_match_check e s))
    else do_each es s

-- `ReportUnpairedInfo`: what is kept under a key of a set, whose lowest four bits are zero.
unfoldable pub report_unpaired : List (ℕ × List SyncDispInfo) → List SyncDispInfo
report_unpaired [] = []
report_unpaired ((k, q) ∷ m) =
    let rest = report_unpaired m in if k % 16 == 0 then q ++ rest else rest

-- `Do`: the members, and what is reported.
unfoldable pub do_sync : Bool → List SanEvent → SyncSanitizer → SyncSanitizer × List SyncDispInfo
unfolding do_each report_unpaired
do_sync with_tensor es s =
    let after = do_each es s in
    if with_tensor || is_empty es
    then (s, [])
    else if after.is_finished
    then (after, report_unpaired after.sync_events ++ after.redundancy_info)
    else (after, [])
