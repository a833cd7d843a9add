-- ===== src/CrossCore/Flags.antt =====
-- csrc/race_sanitizer/alg_framework/cross_core_sync_info_container.cpp: the flags that the cores set
-- for one another, in the modes 0, 1, 2 and 4.
use ascend_mssanitizer.CrossCore.State.{
  at_sync, sync_at, aiv_count, max_flag_id, aic_count, is_aic, BlockSyncInfo,
  CrossCoreSyncInfoContainer,
}
use ascend_mssanitizer.Base.{
  zero, ◌==◌, ℕ, not, leb, is_empty, ◌∷◌, ◌+◌, ◌*◌, ◌-◌, none, replicate, some, ◌++◌, List,
  if◌then◌else◌, pop_front, ltb, ◌^◌, suc, Option, ◌&&◌, ◌%◌, max, ◌/◌, [],
}
use ascend_mssanitizer.Event.{
  mode2, pipe_count, aivec, KernelType, VectorTime, FftsSyncMode, mode1, BlockType, aicube, mode4,
  c220_vec_sub_blockdim, c220_mix_sub_blockdim, mode3, mode0,
}
use ascend_mssanitizer.Base.Words.{u32}
use ascend_mssanitizer.Clock.{update_vector_time}

abbrev pub push_set0 : VectorTime → BlockSyncInfo → BlockSyncInfo
push_set0 vt s = record s { set_vec0 = s.set_vec0 ++ vt ∷ [] }

abbrev pub pop_set0 : BlockSyncInfo → BlockSyncInfo
pop_set0 s = record s { set_vec0 = pop_front s.set_vec0 }

abbrev pub push_set1 : VectorTime → BlockSyncInfo → BlockSyncInfo
push_set1 vt s = record s { set_vec1 = s.set_vec1 ++ vt ∷ [] }

abbrev pub pop_set1 : BlockSyncInfo → BlockSyncInfo
pop_set1 s = record s { set_vec1 = pop_front s.set_vec1 }

abbrev pub push_set2 : VectorTime → BlockSyncInfo → BlockSyncInfo
push_set2 vt s = record s { set_vec2 = s.set_vec2 ++ vt ∷ [] }

abbrev pub pop_set2 : BlockSyncInfo → BlockSyncInfo
pop_set2 s = record s { set_vec2 = pop_front s.set_vec2 }

abbrev pub push_set4 : VectorTime → BlockSyncInfo → BlockSyncInfo
push_set4 vt s = record s { set_vec4 = s.set_vec4 ++ vt ∷ [] }

abbrev pub pop_set4 : BlockSyncInfo → BlockSyncInfo
pop_set4 s = record s { set_vec4 = pop_front s.set_vec4 }

abbrev pub push_wait : VectorTime → BlockSyncInfo → BlockSyncInfo
push_wait vt s = record s { wait_vec = s.wait_vec ++ vt ∷ [] }

abbrev pub push_intra : VectorTime → BlockSyncInfo → BlockSyncInfo
push_intra vt s = record s { intra_block_wait_vec = s.intra_block_wait_vec ++ vt ∷ [] }

-- `front()` of a queue that is not empty.
abbrev pub head_time : List VectorTime → VectorTime
head_time [] = []
head_time (vt ∷ _) = vt

-- The `n` blocks from `i` on that are not cube cores.
unfoldable pub aiv_blocks : KernelType → ℕ → ℕ → List ℕ
aiv_blocks k i zero = []
aiv_blocks k i (suc n) = let rest = aiv_blocks k (suc i) n in if is_aic i k then rest else i ∷ rest

-- The blocks `i`, `i + 3`, … below `max`; `n` steps, of which `max` are enough.
unfoldable pub aic_blocks : ℕ → ℕ → ℕ → List ℕ
aic_blocks max i zero = []
aic_blocks max i (suc n) =
    let rest = aic_blocks max (i + c220_mix_sub_blockdim) n in if ltb i max then i ∷ rest else []

unfoldable pub mode0_blocks : CrossCoreSyncInfoContainer → BlockType → List ℕ
unfolding aiv_blocks aic_blocks
mode0_blocks c aivec = aiv_blocks c.kernel_type 0 c.max_block_num
mode0_blocks c _ = aic_blocks c.max_block_num c220_vec_sub_blockdim c.max_block_num

-- The first loop of `UpdateSyncInfoInMode0`: the oldest times are joined and taken.
unfoldable pub gather_mode0 :
    ℕ → List ℕ → VectorTime → CrossCoreSyncInfoContainer → VectorTime × CrossCoreSyncInfoContainer
unfolding at_sync
gather_mode0 flag [] vt c = (vt, c)
gather_mode0 flag (b ∷ bs) vt c = elim (sync_at c b flag).set_vec0 [
  | [] ↦ gather_mode0 flag bs vt c
  | t ∷ _ ↦ gather_mode0 flag bs (update_vector_time t vt) (at_sync b flag pop_set0 c)
]

-- The second loop: the time is handed to every block.
unfoldable pub release_mode0 :
    ℕ → List ℕ → VectorTime → CrossCoreSyncInfoContainer → CrossCoreSyncInfoContainer
unfolding at_sync
release_mode0 flag [] vt c = c
release_mode0 flag (b ∷ bs) vt c = release_mode0 flag bs vt (at_sync b flag (push_wait vt) c)

unfoldable pub update_sync_info_in_mode0 :
    BlockType → ℕ → CrossCoreSyncInfoContainer → CrossCoreSyncInfoContainer
unfolding gather_mode0 release_mode0
update_sync_info_in_mode0 kind flag c =
    let blocks = mode0_blocks c kind in
    let (vt, gathered) =
      gather_mode0 flag blocks (replicate (u32 (c.max_block_num * pipe_count)) 1) c in
    release_mode0 flag blocks vt gathered

-- How many of the blocks have a time of mode 0.
unfoldable pub set_count : CrossCoreSyncInfoContainer → ℕ → List ℕ → ℕ
set_count c flag [] = 0
set_count c flag (b ∷ bs) =
    (if is_empty (sync_at c b flag).set_vec0 then 0 else 1) + set_count c flag bs

unfoldable pub set_mode0_sync_info :
    ℕ → ℕ → VectorTime → CrossCoreSyncInfoContainer → CrossCoreSyncInfoContainer
unfolding at_sync set_count update_sync_info_in_mode0
set_mode0_sync_info flag block vt c =
    let c' = at_sync block flag (push_set0 vt) c in
    if is_aic block c.kernel_type
    then (if set_count c' flag (mode0_blocks c' aicube) == aic_count c'
        then update_sync_info_in_mode0 aicube flag c'
        else c')
    else if set_count c' flag (mode0_blocks c' aivec) == aiv_count c'
    then update_sync_info_in_mode0 aivec flag c'
    else c'

-- The other vector core of the group, on uint32_t; where a core is the third of its group, the
-- subtraction wraps.
abbrev pub other_aiv : ℕ → ℕ
other_aiv block = u32 (
    (c220_vec_sub_blockdim + (2 ^ 32 - block % c220_mix_sub_blockdim) + (2 ^ 32 - 1))
    + block / c220_mix_sub_blockdim * c220_mix_sub_blockdim)

unfoldable pub set_mode1_sync_info :
    ℕ → ℕ → VectorTime → CrossCoreSyncInfoContainer → CrossCoreSyncInfoContainer
unfolding at_sync
set_mode1_sync_info flag block vt c =
    let other = other_aiv block in
    let blv = update_vector_time vt (head_time (sync_at c other flag).set_vec1) in
    if is_aic block c.kernel_type
    then c
    else if is_empty (sync_at c other flag).set_vec1
    then at_sync block flag (push_set1 vt) c
    else at_sync other flag (push_wait blv)
        (at_sync block flag (push_wait blv) (at_sync other flag pop_set1 c))

-- With one vector core to a cube core: the vector core of a cube core, and the other way round.
abbrev pub aiv_of_aic : ℕ → ℕ
aiv_of_aic block =
    block / c220_mix_sub_blockdim / c220_vec_sub_blockdim * c220_mix_sub_blockdim
    + block / c220_mix_sub_blockdim % c220_vec_sub_blockdim

abbrev pub aic_of_aiv : ℕ → ℕ
aic_of_aiv block = u32 (
    c220_mix_sub_blockdim
      * (block / c220_mix_sub_blockdim * c220_vec_sub_blockdim + block % c220_mix_sub_blockdim)
    + c220_vec_sub_blockdim)

-- With two vector cores to a cube core.
abbrev pub aic_of_group : ℕ → ℕ
aic_of_group block = 2 + block / c220_mix_sub_blockdim * c220_mix_sub_blockdim

-- `block - n` on a uint32_t.
abbrev pub block_before : ℕ → ℕ → ℕ
block_before block n = u32 (block + (2 ^ 32 - n))

unfoldable pub set_mode2_sync_info :
    ℕ → ℕ → VectorTime → ℕ → CrossCoreSyncInfoContainer → CrossCoreSyncInfoContainer
unfolding at_sync
set_mode2_sync_info flag block vt dim c =
    let pushed = at_sync block flag (push_set2 vt) c in
    let other = other_aiv block in
    let joined = update_vector_time vt (head_time (sync_at pushed other flag).set_vec2) in
    if dim == 0
    then c
    else if dim == 1
    then (if is_aic block c.kernel_type
        then at_sync block flag pop_set2 (at_sync (aiv_of_aic block) flag (push_wait vt) pushed)
        else at_sync block flag pop_set2 (at_sync (aic_of_aiv block) flag (push_wait vt) pushed))
    else if is_aic block c.kernel_type
    then at_sync block flag pop_set2 (
        at_sync (block_before block 2) flag (push_wait vt)
          (at_sync (block_before block 1) flag (push_wait vt) pushed))
    else if is_empty (sync_at pushed other flag).set_vec2
    then pushed
    else at_sync other flag pop_set2
        (at_sync block flag pop_set2 (at_sync (aic_of_group block) flag (push_wait joined) pushed))

-- Whom a time of mode 4 is for, with two vector cores to a cube core: its block and flag.
abbrev pub mode4_target : ℕ → ℕ → KernelType → ℕ × ℕ
mode4_target flag block k =
    if is_aic block k
    then (if leb flag 15 then (block_before block 2, flag) else (block_before block 1, flag - 16))
    else (
      aic_of_group block,
      if block == (block / c220_mix_sub_blockdim * c220_mix_sub_blockdim) then flag else flag + 16,
    )

-- On a cube core a flag of more than 31 is for nobody.
unfoldable pub set_mode4_sync_info :
    ℕ → ℕ → VectorTime → ℕ → CrossCoreSyncInfoContainer → CrossCoreSyncInfoContainer
unfolding at_sync
set_mode4_sync_info flag block vt dim c =
    let aic = is_aic block c.kernel_type in
    let pushed = at_sync block flag (push_set4 vt) c in
    let (target, slot) = mode4_target flag block c.kernel_type in
    if dim == 0
    then c
    else if not aic && leb 16 flag
    then c
    else if dim == 1
    then at_sync block flag pop_set4
        (at_sync (if aic then aiv_of_aic block else aic_of_aiv block) flag (push_intra vt) pushed)
    else if aic && ltb 31 flag
    then at_sync block flag pop_set4 pushed
    else at_sync block flag pop_set4 (at_sync target slot (push_intra vt) pushed)

unfoldable pub set_in_mode :
    FftsSyncMode → ℕ → ℕ → VectorTime → ℕ → CrossCoreSyncInfoContainer → CrossCoreSyncInfoContainer
unfolding set_mode0_sync_info set_mode1_sync_info set_mode2_sync_info set_mode4_sync_info
set_in_mode mode0 flag block vt dim c = set_mode0_sync_info flag block vt c
set_in_mode mode1 flag block vt dim c = set_mode1_sync_info flag block vt c
set_in_mode mode2 flag block vt dim c = set_mode2_sync_info flag block vt dim c
set_in_mode mode3 flag block vt dim c = c
set_in_mode mode4 flag block vt dim c = set_mode4_sync_info flag block vt dim c

-- `SetBlockSyncInfo`
unfoldable pub set_block_sync_info :
    ℕ → FftsSyncMode → ℕ → VectorTime → ℕ → CrossCoreSyncInfoContainer → CrossCoreSyncInfoContainer
set_block_sync_info flag mode block vt dim c =
    if ltb max_flag_id flag
    then c
    else if leb c.max_block_num block
    then c
    else set_in_mode mode flag block vt dim c

-- `GetBlockSyncInfo`: `none` for its `false`, else the caller's new time and the container.
unfoldable pub get_block_sync_info :
    ℕ
    → ℕ
    → VectorTime
    → CrossCoreSyncInfoContainer
    → Option (VectorTime × CrossCoreSyncInfoContainer)
unfolding at_sync
get_block_sync_info flag block vt c =
    if leb c.max_block_num block then none else elim (sync_at c block flag).wait_vec [
      | [] ↦ none
      | t ∷ rest ↦
          some (update_vector_time t vt, at_sync block flag (λ s. record s { wait_vec = rest }) c)
    ]

-- `GetIntraBlockSyncInfo`
unfoldable pub get_intra_block_sync_info :
    ℕ
    → ℕ
    → VectorTime
    → CrossCoreSyncInfoContainer
    → Option (VectorTime × CrossCoreSyncInfoContainer)
unfolding at_sync
get_intra_block_sync_info flag block vt c =
    if leb c.max_block_num block then none else elim (sync_at c block flag).intra_block_wait_vec [
      | [] ↦ none
      | t ∷ rest ↦ some (
        update_vector_time t vt,
        at_sync block flag (λ s. record s { intra_block_wait_vec = rest }) c,
      )
    ]
