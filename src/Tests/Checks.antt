-- ===== src/Tests/Checks.antt =====
-- Runs of the checker (csrc/race_sanitizer/alg_framework/mem_event_checker.cpp) on concrete inputs.
use ascend_mssanitizer.Base.{◌++◌, All, ◌∷◌, length, replicate, ◌≡◌, refl, [], arith}
use ascend_mssanitizer.Checker.Series.{
  top_of, blocks_left, next_itv, extend, move_to_next_itv, repeats, mem_series, cur_itv,
}
use ascend_mssanitizer.Checker.Pairs.{
  are_ordered, is_inner_core_race_event, is_mem_space_overlap, is_atomic_against, same_pipe,
  check_pair,
}
use ascend_mssanitizer.Checker.State.{
  MemEventChecker, pipe_idx_by_mem_event, init_checker, event_expand_block_index, event_block_index,
  need_expand_block_dim,
}
use ascend_mssanitizer.Checker.Scanline.{
  scan_all, scan_start, scan_event, events_meta_data, end_addr, check_exist, scan_end,
  compare_event, mem_max_length, scanline,
}
use ascend_mssanitizer.Checker.NoRepeats.{run_algorithm-NoRepeats, IsIn, NoRepeats}
use ascend_mssanitizer.Checker.Reports.{scanline-Reported, Reported}
use ascend_mssanitizer.Checker.Overlap.{
  is_memory_overlap, walk_series, is_mixed_overlap, is_dynamic_overlap,
}
use ascend_mssanitizer.Checker.Report.{report_pair, run_algorithm}
use ascend_mssanitizer.Event.{
  single_block_check, has_sub_blocks, pipe_index, single_pipe_check, aivec_kernel, is_ascend95,
  pipe_s, pipe_v, cross_block_check,
}
use ascend_mssanitizer.Tests.Data.{access_at, test_loc, no_names, test_write}
use ascend_mssanitizer.Checker.PipeRaces.{AdjacentPair, scanline-AdjacentPair}
use ascend_mssanitizer.Clock.{is_not_happens_before}
use ascend_mssanitizer.Base.Sort.{sort_by, insert_by}
use ascend_mssanitizer.Checker.Bytes.{IsPlainOp, IsPlain}

-- Two writes to one place, on two pipes that do not know of one another.
abbrev two_writes : MemEventChecker
unfolding init_checker
two_writes = record (init_checker aivec_kernel 0 single_block_check) {
  events = access_at pipe_s (2 ∷ 1 ∷ []) ∷ access_at pipe_v (1 ∷ 2 ∷ []) ∷ [];
}

scanline-Reported_example : All (Reported no_names two_writes) (scanline no_names two_writes)
scanline-Reported_example = scanline-Reported no_names two_writes

test_write-IsPlainOp : IsPlainOp test_write
test_write-IsPlainOp = (omega arith, omega arith, omega arith, omega arith)

-- Two unsynchronised writes are reported once.
two_writes-scanline : length (scanline no_names two_writes) ≡ 1
unfolding two_writes init_checker scanline scan_all scan_event scan_start scan_end check_exist
    check_pair is_inner_core_race_event same_pipe are_ordered is_not_happens_before
    pipe_idx_by_mem_event event_block_index need_expand_block_dim has_sub_blocks is_ascend95
    pipe_index is_atomic_against is_mem_space_overlap is_memory_overlap is_mixed_overlap
    is_dynamic_overlap mem_series repeats next_itv extend top_of cur_itv move_to_next_itv
    blocks_left walk_series sort_by insert_by compare_event events_meta_data mem_max_length end_addr
    event_expand_block_index
two_writes-scanline = refl

abbrev pipe_writes : MemEventChecker
unfolding init_checker
pipe_writes = record (init_checker aivec_kernel 0 single_pipe_check) {
  events = access_at pipe_v [] ∷ record (access_at pipe_v []) { serial_no = 1 } ∷ [];
}

pipe_kind : pipe_writes.check_type ≡ single_pipe_check
unfolding pipe_writes init_checker
pipe_kind = refl

pipe_writes-IsPlain : All IsPlain pipe_writes.events
unfolding pipe_writes
pipe_writes-IsPlain = (test_write-IsPlainOp, (test_write-IsPlainOp, tt))

scanline-AdjacentPair_example : All (AdjacentPair pipe_writes) (scanline no_names pipe_writes)
scanline-AdjacentPair_example =
    scanline-AdjacentPair no_names pipe_writes pipe_kind pipe_writes-IsPlain

abbrev core_writes : MemEventChecker
unfolding init_checker
core_writes = record (init_checker aivec_kernel 0 cross_block_check) {
  events =
      access_at pipe_v (0 ∷ 1 ∷ replicate 12 0)
      ∷ record (access_at pipe_v (replicate 13 0 ++ 1 ∷ [])) {
        loc = record test_loc { core_id = 1 };
      }
      ∷ [];
}

run_algorithm-NoRepeats_example :
    NoRepeats (run_algorithm no_names two_writes)
    × All
        (λ p. IsIn (run_algorithm no_names two_writes) (report_pair two_writes p))
        (scanline no_names two_writes)
run_algorithm-NoRepeats_example = run_algorithm-NoRepeats no_names two_writes
