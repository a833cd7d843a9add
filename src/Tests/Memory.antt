-- ===== src/Tests/Memory.antt =====
-- Runs of the memory checker (csrc/address_sanitizer) on concrete inputs.
use ascend_mssanitizer.Asan.Pm.{set_bits, Pm, get_bits}
use ascend_mssanitizer.Asan.Heap.Free.{free_heap_block}
use ascend_mssanitizer.Base.{
  true, false, none, refl, [], arith, max, if◌then◌else◌, ◌≡◌, ◌≤◌, ltb, ℕ, ◌+◌, ◌&&◌, ◌↔◌, ◌==◌,
  ◌∷◌, List, leb,
}
use ascend_mssanitizer.Asan.Bounds.Refines.{
  run_bounds-Refines, run_bounds, BoundsOp, replay_bounds, remove_op, add_op,
}
use ascend_mssanitizer.Asan.Shadow.Bytewise.{Walked, store_in_range-Walked}
use ascend_mssanitizer.Asan.Heap.Refused.{
  Answers, is_held, is_addr_in_range_iff, free_heap_block-Answers,
}
use ascend_mssanitizer.Event.{space_gm, aicore, MemOpInfo}
use ascend_mssanitizer.Tests.Data.{no_mem_info}
use ascend_mssanitizer.Asan.Heap.{heap_rt, heap_block, new_manager, is_addr_in_range, heap_type}
use ascend_mssanitizer.Asan.Bounds.{
  add, around, absorb, check, add_at, trim, bad_bytes, remove, remove_at, upper_bound, Range,
  check_overflow, overflow_bytes,
}
use ascend_mssanitizer.Asan.Msg.{host, bad_range, no_error}
use ascend_mssanitizer.Asan.Bounds.Cover.{IsOrdered, covered}
use ascend_mssanitizer.Asan.Heap.Tables.{
  HeapOp, release_op, run_heap, replay_heap, Agrees, alloc_op, no_tables,
}
use ascend_mssanitizer.Asan.Fixed.{check_union-check}
use ascend_mssanitizer.Asan.Bounds.Check.{check-Counts, counted, uncovered}
use ascend_mssanitizer.Asan.Record.{
  src_bypass, src_mstx_heap, src_rt, MemOpRecord, MemInfoSrc, op_malloc, op_free, MemOpType,
  op_load, op_store,
}
use ascend_mssanitizer.Asan.Shadow.Undefined.{is_undefined, undefined_bytes-counted}
use ascend_mssanitizer.Asan.Pm.Flat.{get_bits-set_bits}
use ascend_mssanitizer.Asan.Shadow.{store_in_range, undefined_bytes}
use ascend_mssanitizer.Base.Int.{pos}
use ascend_mssanitizer.Asan.Pm.Unified.{pm_memory}
use ascend_mssanitizer.Asan.Spaces.{check_union}
use ascend_mssanitizer.Asan.Heap.Refines.{run_heap-Refines}
use ascend_mssanitizer.Asan.Convert.{
  store_each, convert_mem_event, convert_muti_record_repeats, stored, convert_single_record_repeats,
}
use ascend_mssanitizer.Asan.Convert.Strided.{held, convert_single_record_repeats-held, accessed}
use ascend_mssanitizer.Asan.Convert.Missed.{block_at, convert_muti_record_repeats-missed}
use ascend_mssanitizer.Asan.Merge.{merge_from, merge_records}
use ascend_mssanitizer.Asan.Merge.Held.{touched, merge_records-touched, Fit}

-- A block in two parts, of which the middle is released again.
abbrev three_calls : List BoundsOp
three_calls = add_op 0 16 ∷ add_op 16 16 ∷ remove_op 8 8 ∷ []

run_bounds-Refines_example :
    IsOrdered 0 (run_bounds three_calls [])
    × ((x : ℕ) → covered x (run_bounds three_calls []) ≡ replay_bounds three_calls (λ x. false) x)
run_bounds-Refines_example =
    run_bounds-Refines three_calls (omega arith, (omega arith, (omega arith, tt)))

-- The ranges that are left.
three_calls_ranges :
    run_bounds three_calls []
    ≡ record { addr_l = 0; addr_r = 8 } ∷ record { addr_l = 16; addr_r = 32 } ∷ []
unfolding run_bounds add remove check_overflow overflow_bytes upper_bound add_at remove_at absorb
    trim around
three_calls_ranges = refl

abbrev two_ranges : List Range
two_ranges = record { addr_l = 0; addr_r = 8 } ∷ record { addr_l = 16; addr_r = 32 } ∷ []

check-Counts_example : check 4 16 two_ranges ≡ (
    if uncovered 4 (max 16 1) two_ranges == 0
    then no_error
    else bad_range 4 (uncovered 4 (max 16 1) two_ranges))
check-Counts_example =
    check-Counts 4 16 two_ranges ((omega arith), (omega arith), ((omega arith), (omega arith), tt))
      (omega arith)

eight_uncovered : check 4 16 two_ranges ≡ bad_range 4 8
unfolding check upper_bound bad_bytes
eight_uncovered = refl

check_union-check_example :
    check_union 60 8 (record { addr_l = 0; addr_r = 64 })
    ≡ check 60 8 (record { addr_l = 0; addr_r = 64 } ∷ [])
check_union-check_example =
    check_union-check 60 8 (record { addr_l = 0; addr_r = 64 }) (omega arith) (omega arith)

-- A record of the given source.
abbrev host_record : MemOpType → MemInfoSrc → ℕ → ℕ → MemOpRecord
host_record op src addr size = record {
  serial_no = 1;
  op_type = op;
  core_id = pos 0;
  module_id = pos 0;
  src_addr = 0;
  dst_addr = addr;
  src_space = space_gm;
  dst_space = space_gm;
  mem_size = size;
  line_no = 1;
  file_name = "main.cpp";
  block_type = aicore;
  pc = 0;
  info_src = src;
  side = host;
  root_addr = 0;
  ignore_illegal_check = false;
}

-- A runtime block that is released, and a bypass block that stays.
abbrev heap_calls : List HeapOp
heap_calls =
    alloc_op (host_record op_malloc src_rt 100 50)
    ∷ alloc_op (host_record op_malloc src_bypass 200 50)
    ∷ release_op (host_record op_free src_rt 100 0)
    ∷ []

run_heap-Refines_example :
    Agrees (run_heap heap_calls new_manager) (replay_heap heap_calls no_tables)
run_heap-Refines_example = run_heap-Refines heap_calls

free_heap_block-Answers_example :
    Answers
      (is_held heap_rt (host_record op_free src_rt 100 0) new_manager)
      (host_record op_free src_rt 100 0)
      7
      new_manager
      (free_heap_block (host_record op_free src_rt 100 0) 7 new_manager)
unfolding heap_type
free_heap_block-Answers_example =
    free_heap_block-Answers (host_record op_free src_rt 100 0) 7 new_manager

is_addr_in_range_iff_example :
    (is_addr_in_range (heap_block (host_record op_malloc src_mstx_heap 120 30)) 100 50 ≡ true)
    ↔ ((100 ≤ 120) × (120 + 30 ≤ 100 + 50))
is_addr_in_range_iff_example =
    is_addr_in_range_iff (heap_block (host_record op_malloc src_mstx_heap 120 30)) 100 50

-- A memory of two blocks, of which nothing was written.
abbrev two_blocks : Pm
two_blocks = record { sm_num = 2; sm_list = λ i. none; common_bits_list = λ i. 253 }

get_bits-set_bits_example :
    get_bits (set_bits two_blocks 65530 10 2) 65536
    ≡ (if leb 65530 65536 && ltb 65536 (65530 + 10) then 2 else get_bits two_blocks 65536)
get_bits-set_bits_example =
    get_bits-set_bits two_blocks 65530 10 2 65536 (omega arith) (omega arith) (omega arith)

store_in_range-Walked_example :
    Walked pm_memory true false 3 two_blocks 65530
      (65530 + 10)
      (store_in_range pm_memory 10 true false 3 two_blocks 65530 10 65530)
store_in_range-Walked_example =
    store_in_range-Walked pm_memory true false 3 two_blocks 65530 10 (omega arith)

undefined_bytes-counted_example :
    undefined_bytes pm_memory 10 two_blocks 65530 10 65530
    ≡ counted (is_undefined pm_memory two_blocks) 65530 10
undefined_bytes-counted_example =
    undefined_bytes-counted pm_memory two_blocks 65530 10 (omega arith)

-- Three repeats of two blocks, two repeat strides apart.
abbrev apart_access : MemOpInfo
apart_access = record no_mem_info {
  addr = 4096;
  block_num = 2;
  block_size = 32;
  block_stride = 1;
  repeat_times = 3;
  repeat_stride = 4;
}

convert_single_record_repeats-held_example :
    held 4230 (convert_single_record_repeats apart_access (host_record op_load src_rt 0 0))
    ≡ accessed apart_access 4230
convert_single_record_repeats-held_example =
    convert_single_record_repeats-held apart_access (host_record op_load src_rt 0 0) 4230
      (omega arith) (omega arith) (omega arith) (omega arith) (omega arith) (omega arith)
      (omega arith)

-- Two repeats of two blocks, with the same stride of two blocks.
abbrev even_access : MemOpInfo
even_access = record no_mem_info {
  addr = 4096;
  block_num = 2;
  block_size = 32;
  block_stride = 2;
  repeat_times = 2;
  repeat_stride = 2;
}

convert_muti_record_repeats-missed_example :
    held
      (block_at even_access 1 1)
      (convert_muti_record_repeats even_access (host_record op_load src_rt 0 0))
    ≡ false
convert_muti_record_repeats-missed_example =
    convert_muti_record_repeats-missed even_access (host_record op_load src_rt 0 0) refl
      (omega arith) (omega arith) (omega arith) (omega arith)

-- The records of this access, of which the last block of the last repeat, at 4224, is none.
even_access_records :
    convert_mem_event even_access (host_record op_load src_rt 0 0)
    ≡ host_record op_load src_rt 4096 32 ∷ host_record op_load src_rt 4160 32 ∷ []
unfolding convert_mem_event convert_muti_record_repeats store_each stored
even_access_records = refl

-- Two adjacent loads, and a store after them.
abbrev three_accesses : List MemOpRecord
three_accesses =
    host_record op_load src_rt 4096 32
    ∷ host_record op_load src_rt 4128 32
    ∷ host_record op_store src_rt 4160 32
    ∷ []

merge_records-touched_example :
    touched op_load space_gm 4140 (merge_records three_accesses)
    ≡ touched op_load space_gm 4140 three_accesses
unfolding Fit
merge_records-touched_example =
    merge_records-touched three_accesses op_load space_gm 4140
      (omega arith, (omega arith, (omega arith, tt)))

-- The loads are one record.
three_accesses_merged :
    merge_records three_accesses
    ≡ host_record op_load src_rt 4096 64 ∷ host_record op_store src_rt 4160 32 ∷ []
unfolding merge_records merge_from
three_accesses_merged = refl
