-- ===== src/RaceAlg/State.antt =====
-- csrc/race_sanitizer/alg_framework/race_alg_base.h: the state of class RaceAlgBase but for its event
-- container, which `PipeLine` passes on beside it; and `syncDB_` of RaceAlgImpl.
use ascend_mssanitizer.Base.Words.{u32}
use ascend_mssanitizer.Clock.{update_vector_time, update_logic_time}
use ascend_mssanitizer.PipeLine.{ReturnType}
use ascend_mssanitizer.Checker.State.{MemEventChecker, need_expand_block_dim, init_checker}
use ascend_mssanitizer.Base.{set, ◌*◌, ℕ, List, replicate, if◌then◌else◌, get_or, []}
use ascend_mssanitizer.CrossCore.State.{CrossCoreSyncInfoContainer, init_cross_core}
use ascend_mssanitizer.SyncDb.{SyncEventDataBase}
use ascend_mssanitizer.Event.{
  pipe_count, VectorTime, c220_mix_sub_blockdim, KernelType, DeviceType, single_block_check,
}

-- The keys of `mstxSetCrossMap_` are an address and a flag, those of `getRlsBufMap_` (GetBufKey) a
-- block and a buffer.
pub record RaceState : Type 0 where
  pub cross_core : CrossCoreSyncInfoContainer
  pub mstx_set_cross_map : List ((ℕ × ℕ) × ℕ)
  pub get_rls_buf_map : List ((ℕ × ℕ) × List VectorTime)
  pub vc : List VectorTime
  pub mem_checker : MemEventChecker
  pub kernel_type : KernelType
  pub device_type : DeviceType
  pub block_dim : ℕ
  pub sync_db : SyncEventDataBase

-- `vc_[i]`
abbrev pub time_of : RaceState → ℕ → VectorTime
time_of r i = get_or r.vc i []

abbrev pub set_time : ℕ → VectorTime → RaceState → RaceState
set_time i vt r = record r { vc = set r.vc i vt }

-- `UpdateLogicTime(vc_[i], i)`
unfoldable pub tick : ℕ → RaceState → RaceState
tick i r = set_time i (update_logic_time (time_of r i) i) r

-- `UpdateVectorTime(vt, vc_[i])`
unfoldable pub join : VectorTime → ℕ → RaceState → RaceState
join vt i r = set_time i (update_vector_time vt (time_of r i)) r

-- What the handlers that leave the container alone give back.
abbrev pub Verdict : Type 0
Verdict = ReturnType × RaceState

-- The total of blocks that the constructor of RaceAlgImpl makes room for.
unfoldable pub total_block_num : KernelType → DeviceType → ℕ → ℕ
total_block_num k d n = if need_expand_block_dim k d then u32 (n * c220_mix_sub_blockdim) else 1

-- The constructor of RaceAlgImpl, but for the container, which is `Container.init` on the total.
unfoldable pub race_alg_init : KernelType → DeviceType → ℕ → RaceState
race_alg_init k d n =
    let total = total_block_num k d n in
    let pipes = u32 (total * pipe_count) in
    record {
      cross_core = init_cross_core total k;
      mstx_set_cross_map = [];
      get_rls_buf_map = [];
      vc = replicate pipes (replicate pipes 1);
      mem_checker = init_checker k d single_block_check;
      kernel_type = k;
      device_type = d;
      block_dim = n;
      sync_db = [];
    }
