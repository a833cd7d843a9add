-- ===== src/Asan/Msg.antt =====
-- `ErrorMsg` of csrc/address_sanitizer/mem_error_def.h, the result of every operation of the memory
-- checker. An error carries the address space, the first bad address and the number of bad bytes,
-- with the place in the program that the record of the access names.
use Prim.Native.String.{String}
use ascend_mssanitizer.Base.{ℕ, Bool, true, false}
use ascend_mssanitizer.Base.Int.{ℤ, pos, negsuc}
use ascend_mssanitizer.Event.{AddressSpace, space_invalid, BlockType, aicube, SimtThreadLocation}

pub data MemErrorType : Type 0 where
  out_of_bounds illegal_addr_write illegal_addr_read misaligned_access mem_leak : MemErrorType
  illegal_free mem_unused uninitialized_read internal_error invalid_error : MemErrorType

pub data MemOpSide : Type 0 where
  host kernel : MemOpSide

pub record AuxData : Type 0 where
  pub bad_addr : ℕ
  pub n_bad_bytes : ℕ
  pub space : AddressSpace
  pub module_id : ℤ
  pub file_name : String
  pub line_no : ℕ
  pub core_id : ℤ
  pub block_type : BlockType
  pub pc : ℕ
  pub serial_no : ℕ
  pub side : MemOpSide
  pub thread_loc : SimtThreadLocation
  pub conflicted_thread_loc : SimtThreadLocation
  pub is_simt_error : Bool

pub record ErrorMsg : Type 0 where
  pub error_type : MemErrorType
  pub is_error : Bool
  pub aux_data : AuxData

abbrev pub default_thread : SimtThreadLocation
default_thread = record { id_x = 0; id_y = 0; id_z = 0 }

-- `ErrorMsg()`
abbrev pub no_error : ErrorMsg
no_error = record {
  error_type = invalid_error;
  is_error = false;
  aux_data = record {
    bad_addr = 0;
    n_bad_bytes = 0;
    space = space_invalid;
    module_id = negsuc 0;
    file_name = "";
    line_no = 0;
    core_id = pos 0;
    block_type = aicube;
    pc = 0;
    serial_no = 0;
    side = host;
    thread_loc = default_thread;
    conflicted_thread_loc = default_thread;
    is_simt_error = false;
  };
}

-- `ErrorMsg::SetType`
abbrev pub set_type : MemErrorType → AddressSpace → ℕ → ErrorMsg → ErrorMsg
set_type t space addr msg = record msg {
  error_type = t;
  is_error = true;
  aux_data = record (msg.aux_data) { space = space; bad_addr = addr; module_id = negsuc 0 };
}

-- `msg.auxData.nBadBytes = n`
abbrev pub set_bad_bytes : ℕ → ErrorMsg → ErrorMsg
set_bad_bytes n msg = record msg { aux_data = record (msg.aux_data) { n_bad_bytes = n } }

-- The report of an address range that lies outside the allocated memory.
abbrev pub bad_range : ℕ → ℕ → ErrorMsg
bad_range addr n = record no_error {
  is_error = true;
  aux_data = record (no_error.aux_data) { bad_addr = addr; n_bad_bytes = n };
}
