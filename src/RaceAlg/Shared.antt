-- ===== src/RaceAlg/Shared.antt =====
-- csrc/race_sanitizer/alg_framework/race_alg_base.cpp: the handlers that the race algorithms share.
-- `p` is the queue that the container is at, `GetQueIndex()`.
use ascend_mssanitizer.Base.{
  ℕ, ◌&&◌, true, length, Bool, ◌+◌, none, some, if◌then◌else◌, ltb, ◌^◌, ◌-◌, ◌∷◌, ◌++◌, false,
  ◌==◌, Option, List, [], suc, zero,
}
use ascend_mssanitizer.CrossCore.Soft.{pair_eq, mstx_key, set_mstx_cross_info, get_mstx_cross_info}
use ascend_mssanitizer.Event.{
  RaceCheckType, nonblock_mode, EventInfo, LocInfo, mode0, SyncType, SanEvent,
  mstx_cross_sync_event, FftsSyncMode, wait_intra_block, mstx_wait_cross, mode1, ffts_sync,
  BufSyncInfo, mode3, get_buf, mstx_set_cross, mode4, VectorTime, mode2, wait_flag_dev,
  FftsSyncInfo, BufMode, block_mode, MstxCrossInfo, rls_buf,
}
use ascend_mssanitizer.PipeLine.{process_stalled, process_ok}
use ascend_mssanitizer.RaceAlg.State.{time_of, RaceState, tick, Verdict, set_time, join}
use ascend_mssanitizer.CrossCore.Flags.{
  get_block_sync_info, get_intra_block_sync_info, set_block_sync_info,
}
use ascend_mssanitizer.Checker.State.{event_block_index}
use ascend_mssanitizer.Base.Assoc.{lookup, insert, queue_of}
use ascend_mssanitizer.CrossCore.State.{CrossCoreSyncInfoContainer}
use ascend_mssanitizer.Base.Words.{u64}

-- `static_cast<FftsSyncMode>`; a value without an enumerator does nothing, as mode 3 does.
abbrev pub ffts_mode : ℕ → FftsSyncMode
ffts_mode zero = mode0
ffts_mode (suc zero) = mode1
ffts_mode (suc (suc zero)) = mode2
ffts_mode (suc (suc (suc (suc zero)))) = mode4
ffts_mode _ = mode3

-- A wait: stalled, or passed with a new time.
abbrev pub wait_verdict : ℕ → RaceState → Option (VectorTime × CrossCoreSyncInfoContainer) → Verdict
wait_verdict p r none = (process_stalled, r)
wait_verdict p r (some (vt, c)) = (process_ok, set_time p vt (record r { cross_core = c }))

abbrev pub block_sync_by : SyncType → FftsSyncInfo → ℕ → ℕ → RaceState → Verdict
block_sync_by ffts_sync s block p r =
    let ticked = tick p r in
    (
      process_ok,
      record ticked {
        cross_core =
            set_block_sync_info s.flag_id (ffts_mode s.mode) block (time_of ticked p)
              s.vec_sub_block_dim r.cross_core;
      },
    )
block_sync_by wait_flag_dev s block p r =
    wait_verdict p r (get_block_sync_info s.flag_id block (time_of r p) r.cross_core)
block_sync_by wait_intra_block s block p r =
    wait_verdict p r (get_intra_block_sync_info s.flag_id block (time_of r p) r.cross_core)
block_sync_by _ s block p r = (process_stalled, r)

-- `ProcessBlockSyncEvent`
unfoldable pub process_block_sync_event :
    FftsSyncInfo → LocInfo → RaceCheckType → ℕ → RaceState → Verdict
process_block_sync_event s l check p r =
    block_sync_by s.op_type s (event_block_index l r.kernel_type r.device_type check) p r

abbrev pub mstx_sets : MstxCrossInfo → RaceState → Option ℕ
mstx_sets m r = lookup (mstx_key m) r.mstx_set_cross_map

abbrev pub count_of : Option ℕ → ℕ
count_of none = 0
count_of (some n) = n

abbrev pub cache_mstx_by : SyncType → MstxCrossInfo → RaceState → RaceState
cache_mstx_by mstx_set_cross m r = record r {
  mstx_set_cross_map =
      insert (mstx_key m) (u64 (count_of (mstx_sets m r) + 1)) r.mstx_set_cross_map;
}
cache_mstx_by _ m r = r

abbrev pub cache_mstx_info : EventInfo → RaceState → RaceState
cache_mstx_info (mstx_cross_sync_event m) r = cache_mstx_by m.op_type m r
cache_mstx_info _ r = r

-- `CacheMstxCrossSet`
unfoldable pub cache_mstx_cross_set : SanEvent → RaceState → RaceState
cache_mstx_cross_set e r = cache_mstx_info e.info r

-- `iter->second--` of a uint64_t, where the key is there.
abbrev pub count_down : MstxCrossInfo → Option ℕ → RaceState → RaceState
count_down m none r = r
count_down m (some n) r = record r {
  mstx_set_cross_map = insert (mstx_key m) (u64 (n + (2 ^ 64 - 1))) r.mstx_set_cross_map;
}

abbrev pub mstx_passed :
    MstxCrossInfo → ℕ → RaceState → Option (VectorTime × CrossCoreSyncInfoContainer) → Verdict
mstx_passed m p r none = (process_stalled, r)
mstx_passed m p r (some (vt, c)) =
    (process_ok, count_down m (mstx_sets m r) (set_time p vt (record r { cross_core = c })))

abbrev pub mstx_cross_by : SyncType → MstxCrossInfo → ℕ → RaceState → Verdict
mstx_cross_by mstx_set_cross m p r =
    let ticked = tick p r in
    (
      process_ok,
      record ticked { cross_core = set_mstx_cross_info m (time_of ticked p) r.cross_core },
    )
mstx_cross_by mstx_wait_cross m p r =
    if m.is_more && (count_of (mstx_sets m r) == 0)
    then (process_ok, r)
    else mstx_passed m p r (get_mstx_cross_info m (time_of r p) r.cross_core)
mstx_cross_by _ m p r = (process_stalled, r)

-- `ProcessMstxCrossSyncEvent`
unfoldable pub process_mstx_cross_sync_event : MstxCrossInfo → ℕ → RaceState → Verdict
process_mstx_cross_sync_event m p r = mstx_cross_by m.op_type m p r

-- The loop over the released times.
unfoldable pub join_all : List VectorTime → ℕ → RaceState → RaceState
join_all [] p r = r
join_all (vt ∷ vts) p r = join_all vts p (join vt p r)

abbrev pub is_block_mode : BufMode → Bool
is_block_mode block_mode = true
is_block_mode nonblock_mode = false

-- A blocking `get_buf`: the first of a buffer passes, a later one waits for `rls_count` releases.
unfoldable pub get_buf_verdict : ℕ → ℕ → RaceState → List VectorTime → Verdict
unfolding join_all
get_buf_verdict count p r released =
    if count == 0
    then (process_ok, r)
    else if ltb (length released) count
    then (process_stalled, r)
    else if length released == count
    then (process_ok, join_all released p r)
    else (process_ok, r)

abbrev pub buf_sync_by : SyncType → BufSyncInfo → ℕ × ℕ → ℕ → RaceState → Verdict
buf_sync_by get_buf s k p r =
    if is_block_mode s.mode
    then get_buf_verdict s.rls_count p r (queue_of (lookup k r.get_rls_buf_map))
    else (process_ok, r)
buf_sync_by rls_buf s k p r = (
  process_ok,
  record r {
    get_rls_buf_map =
        insert k (queue_of (lookup k r.get_rls_buf_map) ++ time_of r p ∷ []) r.get_rls_buf_map;
  },
)
buf_sync_by _ s k p r = (process_ok, r)

-- `ProcessGetRlsBufSyncEvent`
unfoldable pub process_get_rls_buf_sync_event :
    BufSyncInfo → LocInfo → RaceCheckType → ℕ → RaceState → Verdict
process_get_rls_buf_sync_event s l check p r =
    buf_sync_by s.op_type s (event_block_index l r.kernel_type r.device_type check, s.buf_id) p r
