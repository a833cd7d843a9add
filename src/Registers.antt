-- ===== src/Registers.antt =====
-- csrc/register_sanitizer/register_sanitizer.cpp: registers that a kernel does not leave at their defaults.
pub mod Last
use ascend_mssanitizer.Base.{
  ◌∷◌, ◌^◌, ◌+◌, ◌-◌, ◌++◌, zero, ◌==◌, ◌%◌, List, not, [], ◌&&◌, true, ℕ, if◌then◌else◌, ◌/◌, Bool,
  suc, false,
}
use ascend_mssanitizer.Event.{
  SanEvent, RegisterOpInfo, kernel_finish, sanitizer_control_event, quant_post, lrelu_alpha, aivec,
  vector_mask_0, BlockType, quant_pre, vector_mask_1, ctrl, EventInfo, register_event, fpc,
  ffts_base_addr, RegisterType,
}

-- `C220_A2_A3_MAXCORE_NUM`
abbrev pub max_core_num : ℕ
max_core_num = 75

abbrev pub register_index : RegisterType → ℕ
register_index vector_mask_0 = 0
register_index vector_mask_1 = 1
register_index ctrl = 2
register_index ffts_base_addr = 3
register_index fpc = 4
register_index quant_pre = 5
register_index quant_post = 6
register_index lrelu_alpha = 7

-- The registers in the order of `g_regInfoTbl`.
abbrev pub reg_info_tbl : List RegisterType
reg_info_tbl =
    vector_mask_0 ∷ vector_mask_1 ∷ ctrl ∷ ffts_base_addr ∷ fpc ∷ quant_pre ∷ quant_post
    ∷ lrelu_alpha ∷ []

-- `regDftVal`
abbrev pub reg_dft_val : RegisterType → ℕ
reg_dft_val vector_mask_0 = 2 ^ 64 - 1
reg_dft_val vector_mask_1 = 2 ^ 64 - 1
reg_dft_val _ = 0

-- `check`
abbrev pub is_checked : RegisterType → Bool
is_checked quant_post = false
is_checked _ = true

-- `RegValStore`
pub record RegValStore : Type 0 where
  pub reg_val : ℕ
  pub block_type : BlockType
  pub block_id : ℕ

-- `regValActual_`, by the core's index and the register. The source writes past the array where the
-- index of an event is not below the number of cores; here such a row is never read.
abbrev pub RegTable : Type 0
RegTable = ℕ → RegisterType → RegValStore

-- `Init`
unfoldable pub init_registers : RegTable
init_registers i t = record { reg_val = reg_dft_val t; block_type = aivec; block_id = 0 }

-- What `ReportRegisterInfo` is called with: the register, the expected and the actual value, and the core.
pub record RegisterDispInfo : Type 0 where
  pub row : ℕ
  pub reg_type : RegisterType
  pub reg_exp_val : ℕ
  pub reg_act_val : ℕ
  pub core_id : ℕ
  pub block_type : BlockType

-- The value that is kept of a write; of the control register only bit 56 counts.
unfoldable pub kept_val : RegisterOpInfo → ℕ
kept_val r = elim r.reg_type [ ctrl ↦ r.reg_val / 2 ^ 56 % 2 | _ ↦ r.reg_val ]

-- A write of a register.
unfoldable pub write_register : SanEvent → RegisterOpInfo → RegTable → RegTable
unfolding kept_val
write_register e r table i t =
    if i == r.reg_idx && register_index t == register_index r.reg_type
    then record { reg_val = kept_val r; block_type = e.loc.block_type; block_id = e.loc.core_id }
    else table i t

-- The test of one register at the end of a kernel.
unfoldable pub is_changed : RegTable → ℕ → RegisterType → Bool
is_changed table i t = not ((table i t).reg_val == reg_dft_val t) && is_checked t

-- The inner loop of the report, over the registers of one core.
unfoldable pub report_core : RegTable → ℕ → List RegisterType → List RegisterDispInfo
unfolding is_changed
report_core table i [] = []
report_core table i (t ∷ ts) =
    let rest = report_core table i ts in
    if is_changed table i t
    then record {
      row = i;
      reg_type = t;
      reg_exp_val = reg_dft_val t;
      reg_act_val = (table i t).reg_val;
      core_id = (table i t).block_id;
      block_type = (table i t).block_type;
    }
      ∷ rest
    else rest

-- The outer loop, over the cores from `i` on.
unfoldable pub report_cores : ℕ → ℕ → RegTable → List RegisterDispInfo
unfolding report_core
report_cores zero i table = []
report_cores (suc n) i table = report_core table i reg_info_tbl ++ report_cores n (i + 1) table

-- One event: what it reports and the table it leaves.
unfoldable pub do_register_info : EventInfo → SanEvent → RegTable → RegTable × List RegisterDispInfo
unfolding report_cores write_register
do_register_info (sanitizer_control_event kernel_finish) e table =
    (table, report_cores max_core_num 0 table)
do_register_info (register_event r) e table = (write_register e r table, [])
do_register_info _ e table = (table, [])

-- `Do`
unfoldable pub do_registers : List SanEvent → RegTable → RegTable × List RegisterDispInfo
unfolding do_register_info
do_registers [] table = (table, [])
do_registers (e ∷ es) table =
    let first = do_register_info e.info e table in
    let rest = do_registers es first.0 in (rest.0, first.1 ++ rest.1)
