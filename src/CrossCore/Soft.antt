-- ===== src/CrossCore/Soft.antt =====
-- csrc/race_sanitizer/alg_framework/cross_core_sync_info_container.cpp: software events, `SyncAll`
-- and the mstx marks.
use ascend_mssanitizer.Base.Assoc.{Eq, nat_eq, queue_of, lookup, insert, erase}
use ascend_mssanitizer.Base.{
  ◌==◌, not, ◌≡◌, ◌&&◌, false, some, get_or, Option, ◌↔◌, ltb, map, true, ℕ, Bool, set, ◌∷◌, arith,
  leb, none, List, ◌++◌, if◌then◌else◌, ◌||◌, [],
}
use ascend_mssanitizer.CrossCore.State.{
  sem_reset, remain_sync_all_count, sem_wait, is_sem_finished, no_soft_info, aiv_count,
  BlockSoftSyncInfo, CrossCoreSyncInfoContainer,
}
use ascend_mssanitizer.Clock.{update_vector_time, update_logic_time}
use ascend_mssanitizer.Event.{VectorTime, MstxCrossInfo}
use ascend_mssanitizer.Base.Int.{pos, ℤ, negsuc}

-- Equality of the constructors: the key test of a map.
abbrev pub same_ℤ : ℤ → ℤ → Bool
same_ℤ (pos a) (pos b) = a == b
same_ℤ (negsuc a) (negsuc b) = a == b
same_ℤ _ _ = false

pub same_ℤ_iff : (a b : ℤ) → (same_ℤ a b ≡ true) ↔ (a ≡ b)
same_ℤ_iff a b = ground arith

instance abbrev pub int_eq : Eq ℤ
int_eq = record { beq = same_ℤ; beq_iff = same_ℤ_iff }

abbrev pub pair_beq : ℕ × ℕ → ℕ × ℕ → Bool
pair_beq a b = (a.0 == b.0) && (a.1 == b.1)

pub pair_beq_iff : (a b : ℕ × ℕ) → (pair_beq a b ≡ true) ↔ (a ≡ b)
pair_beq_iff a b = ground arith

instance abbrev pub pair_eq : Eq (ℕ × ℕ)
pair_eq = record { beq = pair_beq; beq_iff = pair_beq_iff }

abbrev pub soft_at : CrossCoreSyncInfoContainer → ℕ → BlockSoftSyncInfo
soft_at c block = get_or c.block_soft_sync_info block no_soft_info

-- `SetBlockSoftSyncInfo`
unfoldable pub set_block_soft_sync_info :
    ℤ → ℕ → VectorTime → CrossCoreSyncInfoContainer → CrossCoreSyncInfoContainer
set_block_soft_sync_info event block vt c =
    let s = soft_at c block in
    if leb c.max_block_num block then c else record c {
      block_soft_sync_info =
          set c.block_soft_sync_info block
            (record s { map_vector_time = insert event vt s.map_vector_time });
    }

-- `GetBlockSoftSyncInfo`: `none` for its `false`, else the caller's new time and the container.
unfoldable pub get_block_soft_sync_info :
    ℤ
    → ℕ
    → VectorTime
    → CrossCoreSyncInfoContainer
    → Option (VectorTime × CrossCoreSyncInfoContainer)
get_block_soft_sync_info event block vt c =
    let s = soft_at c block in
    if leb c.max_block_num block then none else elim (lookup event s.map_vector_time) [
      | none ↦ none
      | some t ↦ some (
        update_vector_time t vt,
        record c {
          block_soft_sync_info =
              set c.block_soft_sync_info block
                (record s { map_vector_time = erase event s.map_vector_time });
        },
      )
    ]

abbrev pub clear_sync_all : BlockSoftSyncInfo → BlockSoftSyncInfo
clear_sync_all s = record s { sync_all = false }

-- The state in which `SyncAll` runs its round: a finished round is followed by a new one.
unfoldable pub begin_sync_all : ℕ → CrossCoreSyncInfoContainer → CrossCoreSyncInfoContainer
begin_sync_all n c =
    if is_sem_finished c.sem_cores
    then record c {
      sem_cores = sem_reset n;
      block_soft_sync_info = map clear_sync_all c.block_soft_sync_info;
    }
    else c

-- The first call of a block in a round counts its time up and records its pipe.
unfoldable pub join_sync_all :
    ℕ → ℕ → VectorTime → CrossCoreSyncInfoContainer → VectorTime × CrossCoreSyncInfoContainer
join_sync_all block pipe vt c =
    let s = soft_at c block in
    if s.sync_all then (vt, c) else (
      update_logic_time vt pipe,
      record c {
        block_soft_sync_info =
            set c.block_soft_sync_info block (record s { sync_all = true; pipe_idx = pipe });
      },
    )

-- The end of `SyncAll`.
unfoldable pub finish_sync_all :
    ℕ → VectorTime × CrossCoreSyncInfoContainer → Bool × VectorTime × CrossCoreSyncInfoContainer
unfolding sem_wait
finish_sync_all block (vt, c) =
    let (done, sem) = sem_wait c.sem_cores in
    if (soft_at c block).sync_all && not (remain_sync_all_count c.sem_cores == 0)
    then (false, vt, c)
    else (done, vt, record c { sem_cores = sem })

-- `SyncAll` with the number of cores that it settles on.
unfoldable pub sync_all_on :
    ℕ
    → ℕ
    → ℕ
    → VectorTime
    → CrossCoreSyncInfoContainer
    → Bool × VectorTime × CrossCoreSyncInfoContainer
unfolding begin_sync_all join_sync_all finish_sync_all
sync_all_on n block pipe vt c =
    if not (is_sem_finished c.sem_cores) && not (c.sem_cores.cores == n)
    then (false, vt, c)
    else finish_sync_all block (join_sync_all block pipe vt (begin_sync_all n c))

-- `SyncAll`: its result, the caller's time, and the container. Block numbers are below 2 ^ 31.
unfoldable pub sync_all :
    ℕ
    → ℤ
    → ℕ
    → VectorTime
    → CrossCoreSyncInfoContainer
    → Bool × VectorTime × CrossCoreSyncInfoContainer
unfolding sync_all_on
sync_all block (negsuc n) pipe vt c = (false, vt, c)
sync_all block (pos n) pipe vt c =
    if ltb c.max_block_num n
    then (false, vt, c)
    else sync_all_on (if n == 0 then aiv_count c else n) block pipe vt c

-- The inner loop of `UpdateSyncAllVectorTime`: the times of the others join that of `pipe`.
unfoldable pub join_others : ℕ → List BlockSoftSyncInfo → List VectorTime → List VectorTime
join_others pipe [] vec = vec
join_others pipe (o ∷ os) vec = join_others pipe os (
    if (pipe == o.pipe_idx) || not o.sync_all
    then vec
    else set vec pipe (update_vector_time (get_or vec o.pipe_idx []) (get_or vec pipe [])))

unfoldable pub update_each :
    List BlockSoftSyncInfo → List BlockSoftSyncInfo → List VectorTime → List VectorTime
unfolding join_others
update_each infos [] vec = vec
update_each infos (i ∷ is) vec =
    update_each infos is (if i.sync_all then join_others i.pipe_idx infos vec else vec)

-- `UpdateSyncAllVectorTime`
unfoldable pub update_sync_all_vector_time :
    CrossCoreSyncInfoContainer → List VectorTime → List VectorTime
update_sync_all_vector_time c vec = update_each c.block_soft_sync_info c.block_soft_sync_info vec

abbrev pub mstx_key : MstxCrossInfo → ℕ × ℕ
mstx_key m = (m.addr, m.flag_id)

-- `SetMstxCrossInfo`
unfoldable pub set_mstx_cross_info :
    MstxCrossInfo → VectorTime → CrossCoreSyncInfoContainer → CrossCoreSyncInfoContainer
set_mstx_cross_info m vt c =
    let old = queue_of (lookup (mstx_key m) c.mstx_cross_set_map) in
    record c { mstx_cross_set_map = insert (mstx_key m) (old ++ vt ∷ []) c.mstx_cross_set_map }

-- What `GetMstxCrossInfo` does with the queue of its key.
abbrev pub take_mstx :
    ℕ × ℕ
    → VectorTime
    → CrossCoreSyncInfoContainer
    → Option (List VectorTime)
    → Option (VectorTime × CrossCoreSyncInfoContainer)
take_mstx k vt c none = none
take_mstx k vt c (some []) = some (vt, c)
take_mstx k vt c (some (t ∷ [])) =
    some (update_vector_time t vt, record c { mstx_cross_set_map = erase k c.mstx_cross_set_map })
take_mstx k vt c (some (t ∷ u ∷ rest)) = some (
  update_vector_time t vt,
  record c { mstx_cross_set_map = insert k (u ∷ rest) c.mstx_cross_set_map },
)

-- `GetMstxCrossInfo`: `none` for its `false`, else the caller's new time and the container.
unfoldable pub get_mstx_cross_info :
    MstxCrossInfo
    → VectorTime
    → CrossCoreSyncInfoContainer
    → Option (VectorTime × CrossCoreSyncInfoContainer)
get_mstx_cross_info m vt c = take_mstx (mstx_key m) vt c (lookup (mstx_key m) c.mstx_cross_set_map)
