-- ===== src/Asan/Record.antt =====
-- `MemOpRecord` of csrc/core/framework/record_defs.h, without `infoDesc` and `paramsNo`, which the memory
-- checker does not read.
use Prim.Native.String.{String}
use ascend_mssanitizer.Base.Int.{ℤ}
use ascend_mssanitizer.Event.{AddressSpace, BlockType}
use ascend_mssanitizer.Base.{ℕ, Bool}
use ascend_mssanitizer.Asan.Msg.{MemOpSide}

pub data MemOpType : Type 0 where
  op_malloc op_free op_memcpy_blocks op_load op_store op_invalid : MemOpType

pub data MemInfoSrc : Type 0 where
  src_bypass src_hal src_rt src_acl src_extra src_manual src_mstx_heap src_mstx_region : MemInfoSrc

pub record MemOpRecord : Type 0 where
  pub serial_no : ℕ
  pub op_type : MemOpType
  pub core_id : ℤ
  pub module_id : ℤ
  pub src_addr : ℕ
  pub dst_addr : ℕ
  pub src_space : AddressSpace
  pub dst_space : AddressSpace
  pub mem_size : ℕ
  pub line_no : ℕ
  pub file_name : String
  pub block_type : BlockType
  pub pc : ℕ
  pub info_src : MemInfoSrc
  pub side : MemOpSide
  pub root_addr : ℕ
  pub ignore_illegal_check : Bool
