-- ===== src/CrossCore/State.antt =====
-- csrc/race_sanitizer/alg_framework/cross_core_sync_info_container.h: the state of class
-- CrossCoreSyncInfoContainer. An index past the end of a vector is undefined in the source; here a
-- read of it gives an empty slot, and a write to it is dropped.
use ascend_mssanitizer.Base.Words.{u8, dec32}
use ascend_mssanitizer.Base.{
  ◌==◌, ◌&&◌, replicate, true, if◌then◌else◌, ℕ, List, ◌%◌, set, get_or, ◌*◌, ◌/◌, Bool, false, [],
}
use ascend_mssanitizer.Event.{
  VectorTime, aicube_kernel, c220_mix_sub_blockdim, is_mix, KernelType, c220_vec_sub_blockdim, mix,
}
use ascend_mssanitizer.Base.Int.{ℤ}

pub record SemCores : Type 0 where
  pub cores : ℕ
  pub sem_sync : ℕ
  pub sem_after_sync : ℕ

-- `SemCores::Wait`
unfoldable pub sem_wait : SemCores → Bool × SemCores
sem_wait s =
    let left = dec32 s.sem_sync in
    if s.sem_sync == 0
    then (true, record s { sem_after_sync = dec32 s.sem_after_sync })
    else if left == 0
    then (true, record s { sem_sync = left; sem_after_sync = dec32 s.sem_after_sync })
    else (false, record s { sem_sync = left })

-- `RemainSyncAllCount`, whose result is a uint8_t.
abbrev pub remain_sync_all_count : SemCores → ℕ
remain_sync_all_count s = u8 s.sem_sync

abbrev pub is_sem_finished : SemCores → Bool
is_sem_finished s = (s.sem_sync == 0) && (s.sem_after_sync == 0)

abbrev pub sem_reset : ℕ → SemCores
sem_reset n = record { cores = n; sem_sync = n; sem_after_sync = n }

-- The queues of one flag of one block.
pub record BlockSyncInfo : Type 0 where
  pub set_vec0 : List VectorTime
  pub set_vec1 : List VectorTime
  pub set_vec2 : List VectorTime
  pub set_vec4 : List VectorTime
  pub wait_vec : List VectorTime
  pub intra_block_wait_vec : List VectorTime

abbrev pub no_sync_info : BlockSyncInfo
no_sync_info = record {
  set_vec0 = [];
  set_vec1 = [];
  set_vec2 = [];
  set_vec4 = [];
  wait_vec = [];
  intra_block_wait_vec = [];
}

-- `pipe_idx` has no value before the first `SyncAll` of its block, and is not read before it.
pub record BlockSoftSyncInfo : Type 0 where
  pub map_vector_time : List (ℤ × VectorTime)
  pub sync_all : Bool
  pub pipe_idx : ℕ

abbrev pub no_soft_info : BlockSoftSyncInfo
no_soft_info = record { map_vector_time = []; sync_all = false; pipe_idx = 0 }

abbrev pub max_flag_id : ℕ
max_flag_id = 32

pub record CrossCoreSyncInfoContainer : Type 0 where
  pub max_block_num : ℕ
  pub kernel_type : KernelType
  pub block_sync_event : List (List BlockSyncInfo)
  pub block_soft_sync_info : List BlockSoftSyncInfo
  pub mstx_cross_set_map : List ((ℕ × ℕ) × List VectorTime)
  pub sem_cores : SemCores

-- `Init` on a new container.
unfoldable pub init_cross_core : ℕ → KernelType → CrossCoreSyncInfoContainer
init_cross_core n k = record {
  max_block_num = n;
  kernel_type = k;
  block_sync_event = replicate n (replicate max_flag_id no_sync_info);
  block_soft_sync_info = replicate n no_soft_info;
  mstx_cross_set_map = [];
  sem_cores = sem_reset 0;
}

abbrev pub flags_at : CrossCoreSyncInfoContainer → ℕ → List BlockSyncInfo
flags_at c block = get_or c.block_sync_event block []

-- `blockSyncEvent_[block][flag]`
abbrev pub sync_at : CrossCoreSyncInfoContainer → ℕ → ℕ → BlockSyncInfo
sync_at c block flag = get_or (flags_at c block) flag no_sync_info

-- A change of `blockSyncEvent_[block][flag]` in place.
unfoldable pub at_sync :
    ℕ
    → ℕ
    → (BlockSyncInfo → BlockSyncInfo)
    → CrossCoreSyncInfoContainer
    → CrossCoreSyncInfoContainer
at_sync block flag f c = record c {
  block_sync_event =
      set c.block_sync_event block (set (flags_at c block) flag (f (sync_at c block flag)));
}

abbrev pub is_aic : ℕ → KernelType → Bool
is_aic block aicube_kernel = true
is_aic block mix = (block % c220_mix_sub_blockdim) == c220_vec_sub_blockdim
is_aic block _ = false

abbrev pub aiv_count : CrossCoreSyncInfoContainer → ℕ
aiv_count c =
    if is_mix c.kernel_type
    then c.max_block_num / c220_mix_sub_blockdim * c220_vec_sub_blockdim
    else c.max_block_num

abbrev pub aic_count : CrossCoreSyncInfoContainer → ℕ
aic_count c =
    if is_mix c.kernel_type then c.max_block_num / c220_mix_sub_blockdim else c.max_block_num
