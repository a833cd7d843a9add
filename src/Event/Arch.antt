-- ===== src/Event/Arch.antt =====
-- The enumerations and constants of csrc/core/framework/arch_def.h, record_defs.h,
-- platform_config.h and csrc/include/sanitizer_report.h that the checkers read.
use ascend_mssanitizer.Base.{ℕ, ◌<◌, ◌≡◌, refl, ◌≢◌, Bool, true, false, ◌&&◌, ◌||◌, arith, ltb}

-- The pipes of one AI core; `pipe_size` is the enumeration's end marker, which also stands for "none".
pub data PipeType : Type 0 where
  pipe_s pipe_v pipe_m pipe_mte1 pipe_mte2 pipe_mte3 pipe_all : PipeType
  pipe_mte4 pipe_mte5 pipe_v2 pipe_fix pipe_s_cal pipe_size : PipeType

-- The underlying value.
unfoldable pub pipe_index : PipeType → ℕ
pipe_index pipe_s = 0
pipe_index pipe_v = 1
pipe_index pipe_m = 2
pipe_index pipe_mte1 = 3
pipe_index pipe_mte2 = 4
pipe_index pipe_mte3 = 5
pipe_index pipe_all = 6
pipe_index pipe_mte4 = 7
pipe_index pipe_mte5 = 8
pipe_index pipe_v2 = 9
pipe_index pipe_fix = 10
pipe_index pipe_s_cal = 11
pipe_index pipe_size = 12

-- `PipeType::SIZE` as a number.
abbrev pub pipe_count : ℕ
pipe_count = 12

-- A pipe that has a queue.
abbrev pub IsPipe : PipeType → Type 0
IsPipe p = pipe_index p < pipe_count

pub data MemType : Type 0 where
  l1 l0a l0b l0c ub bt gm private fb mem_invalid : MemType

abbrev pub mem_type_index : MemType → ℕ
mem_type_index l1 = 0
mem_type_index l0a = 1
mem_type_index l0b = 2
mem_type_index l0c = 3
mem_type_index ub = 4
mem_type_index bt = 5
mem_type_index gm = 6
mem_type_index private = 7
mem_type_index fb = 8
mem_type_index mem_invalid = 9

pub data KernelType : Type 0 where
  aicpu aivec_kernel aicube_kernel mix : KernelType

pub data BlockType : Type 0 where
  aivec aicube aicore : BlockType

abbrev pub block_type_index : BlockType → ℕ
block_type_index aivec = 0
block_type_index aicube = 1
block_type_index aicore = 2

pub data AccessType : Type 0 where
  read write memcpy_blocks : AccessType

pub data MaskMode : Type 0 where
  mask_norm mask_count : MaskMode

pub data CompareOp : Type 0 where
  cmp_eq cmp_ne cmp_gt cmp_ge cmp_lt cmp_le : CompareOp

pub data SyncType : Type 0 where
  set_flag wait_flag pipe_barrier ffts_sync wait_flag_dev ib_set ib_wait sync_all : SyncType
  mstx_set_cross mstx_wait_cross get_buf rls_buf wait_intra_block hset_flag hwait_flag : SyncType

pub data RaceCheckType : Type 0 where
  single_block_check single_pipe_check cross_block_check cross_npu_check : RaceCheckType

pub data FftsSyncMode : Type 0 where
  mode0 mode1 mode2 mode3 mode4 : FftsSyncMode

pub data BufMode : Type 0 where
  block_mode nonblock_mode : BufMode

pub data RegisterType : Type 0 where
  vector_mask_0 vector_mask_1 ctrl ffts_base_addr fpc quant_pre quant_post lrelu_alpha :
      RegisterType

-- A device is the value of its enumerator, since the code asks for ranges of them.
abbrev pub DeviceType : Type 0
DeviceType = ℕ

abbrev pub ascend_910b_start : DeviceType
ascend_910b_start = 1

abbrev pub ascend_910b1 : DeviceType
ascend_910b1 = 2

abbrev pub ascend_910b_end : DeviceType
ascend_910b_end = 6

abbrev pub ascend_310p : DeviceType
ascend_310p = 7

abbrev pub ascend_950_start : DeviceType
ascend_950_start = 10

abbrev pub ascend_950_end : DeviceType
ascend_950_end = 43

unfoldable pub is_ascend95 : DeviceType → Bool
is_ascend95 d = ltb ascend_950_start d && ltb d ascend_950_end

unfoldable pub has_sub_blocks : DeviceType → Bool
unfolding is_ascend95
has_sub_blocks d = (ltb ascend_910b_start d && ltb d ascend_910b_end) || is_ascend95 d

abbrev pub c220_vec_sub_blockdim : ℕ
c220_vec_sub_blockdim = 2

abbrev pub c220_mix_sub_blockdim : ℕ
c220_mix_sub_blockdim = 3

abbrev pub max_blockdim_nums : ℕ
max_blockdim_nums = 100

abbrev pub is_mix : KernelType → Bool
is_mix mix = true
is_mix _ = false

abbrev pub is_aivec : BlockType → Bool
is_aivec aivec = true
is_aivec _ = false

abbrev pub is_write : AccessType → Bool
is_write write = true
is_write _ = false

abbrev pub is_read : AccessType → Bool
is_read read = true
is_read _ = false

abbrev pub is_gm : MemType → Bool
is_gm gm = true
is_gm _ = false

pub IsPipe_of_ne : (p : PipeType) → p ≢ pipe_size → IsPipe p
unfolding pipe_index
IsPipe_of_ne pipe_size h = absurd (h refl)
IsPipe_of_ne _ h = omega arith

pub pipe_index_inj : (p q : PipeType) → pipe_index p ≡ pipe_index q → p ≡ q
unfolding pipe_index
pipe_index_inj p q h = ground arith

pub data AddressSpace : Type 0 where
  space_private space_gm space_l1 space_l0a space_l0b space_l0c : AddressSpace
  space_ub space_bt space_fb space_invalid : AddressSpace

-- `AddrSpaceToMemType`
unfoldable pub addr_space_to_mem_type : AddressSpace → MemType
addr_space_to_mem_type space_l1 = l1
addr_space_to_mem_type space_l0a = l0a
addr_space_to_mem_type space_l0b = l0b
addr_space_to_mem_type space_l0c = l0c
addr_space_to_mem_type space_ub = ub
addr_space_to_mem_type space_gm = gm
addr_space_to_mem_type space_bt = bt
addr_space_to_mem_type space_fb = fb
addr_space_to_mem_type space_invalid = mem_invalid
addr_space_to_mem_type space_private = private

abbrev pub access_type_index : AccessType → ℕ
access_type_index read = 0
access_type_index write = 1
access_type_index memcpy_blocks = 2
