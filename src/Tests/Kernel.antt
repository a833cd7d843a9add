-- ===== src/Tests/Kernel.antt =====
-- Runs of the checks of set/wait pairs (csrc/sync_sanitizer) and of registers (csrc/register_sanitizer).
use ascend_mssanitizer.Event.{
  sanitizer_control_event, set_flag, pipe_s, pipe_v, mem_invalid, wait_flag, register_event,
  quant_pre, sync_event, fpc, SanEvent, RegisterType, pipe_mte2, SyncOpInfo, kernel_finish,
  SyncType,
}
use ascend_mssanitizer.Tests.Data.{event_on}
use ascend_mssanitizer.Registers.{
  do_register_info, max_core_num, do_registers, init_registers, kept_val,
}
use ascend_mssanitizer.SyncCheck.{SyncSanitizer, init_sync, do_each}
use ascend_mssanitizer.Base.{◌≡◌, ℕ, ◌∷◌, List, ◌&&◌, false, [], refl, true, ltb}
use ascend_mssanitizer.SyncCheck.Balance.{sets, waits, Balanced}
use ascend_mssanitizer.Base.Int.{negsuc}
use ascend_mssanitizer.SyncCheck.Surplus.{do_each-Balanced, seen}
use ascend_mssanitizer.Registers.Last.{
  value_of, do_registers-Reported, is_listed, is_left, last_value,
}

abbrev flag_pair : SyncType → SyncOpInfo
flag_pair t = record {
  op_type = t;
  src_pipe = pipe_v;
  dst_pipe = pipe_mte2;
  event_id = 3;
  mem_type = mem_invalid;
  is_retrogress = false;
  is_generated = false;
}

-- A set, its wait, and one set more.
abbrev two_sets : List SanEvent
two_sets =
    event_on pipe_v (sync_event (flag_pair set_flag))
    ∷ event_on pipe_mte2 (sync_event (flag_pair wait_flag))
    ∷ event_on pipe_v (sync_event (flag_pair set_flag))
    ∷ event_on pipe_s (sanitizer_control_event kernel_finish)
    ∷ []

abbrev new_sync : SyncSanitizer
new_sync = record {
  check_block_id = negsuc 0;
  sync_events = [];
  pipe_redundancy_events = [];
  redundancy_info = [];
  is_finished = false;
}

do_each-Balanced_example :
    Balanced
      (do_each two_sets (init_sync new_sync)).sync_events
      (λ k. sets k (seen new_sync two_sets))
      (λ k. waits k (seen new_sync two_sets))
do_each-Balanced_example = do_each-Balanced two_sets new_sync

abbrev write_of : RegisterType → ℕ → SanEvent
write_of t v = event_on pipe_s (register_event (record { reg_type = t; reg_val = v; reg_idx = 4 }))

-- A register that is changed and put back, and one that is not put back.
abbrev three_writes : List SanEvent
three_writes = write_of fpc 5 ∷ write_of fpc 0 ∷ write_of quant_pre 7 ∷ []

do_registers-Reported_example :
    is_listed 4 quant_pre
      (do_register_info
        (sanitizer_control_event kernel_finish)
        (write_of fpc 0)
        (do_registers three_writes init_registers).0).1
    ≡ (ltb 4 max_core_num && is_left three_writes 4 quant_pre)
do_registers-Reported_example = do_registers-Reported three_writes (write_of fpc 0) 4 quant_pre

quant_pre_left : (ltb 4 max_core_num && is_left three_writes 4 quant_pre) ≡ true
unfolding last_value value_of kept_val
quant_pre_left = refl
