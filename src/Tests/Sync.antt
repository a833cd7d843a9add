-- ===== src/Tests/Sync.antt =====
-- Runs of the clocks, the databases and the synchronisation of cores
-- (csrc/race_sanitizer/alg_framework) on concrete inputs.
use ascend_mssanitizer.Base.Assoc.{nat_eq, lookup, insert}
use ascend_mssanitizer.Base.{
  true, ◌++◌, some, ℕ, if◌then◌else◌, List, ◌+◌, false, All, ◌↔◌, inl, arith, ◌≡◌, ◌^◌, ◌==◌, ◌∷◌,
  length, refl, ◌<◌, [], ◌||◌, none,
}
use ascend_mssanitizer.SyncDb.{set_event, get_event, SyncEvent}
use ascend_mssanitizer.Event.{
  mstx_wait_cross, MstxCrossInfo, pipe_mte3, aivec_kernel, mix, mode2, VectorTime, MstxSignalSet,
  MstxSignalWait, cmp_lt,
}
use ascend_mssanitizer.Base.Int.{pos, negsuc}
use ascend_mssanitizer.CrossCore.Groups.{waiting, IsSized, waiting-set_mode2_cube}
use ascend_mssanitizer.SyncDb.Queues.{Taken, get_event-Taken}
use ascend_mssanitizer.Clock.{is_not_happens_before, update_vector_time}
use ascend_mssanitizer.Barrier.{fresh, wait}
use ascend_mssanitizer.CrossCore.Marks.{
  get_mstx_cross_info-Passed, outcome_time, get_soft-set_soft, NoEmptyMark, Passed,
}
use ascend_mssanitizer.CrossCore.Soft.{
  get_block_soft_sync_info, set_block_soft_sync_info, mstx_key, get_mstx_cross_info,
}
use ascend_mssanitizer.Clock.Laws.{
  AreCausal, is_not_happens_before_iff, update_vector_time_iff, LeTime,
}
use ascend_mssanitizer.CrossCore.Never.{sync_all_calls, Waiting, never_through}
use ascend_mssanitizer.CrossCore.State.{CrossCoreSyncInfoContainer, init_cross_core}
use ascend_mssanitizer.Barrier.Rounds.{fresh-Gathered, arrivals, Waited, wait-Waited}
use ascend_mssanitizer.CrossCore.Flags.{set_block_sync_info}
use ascend_mssanitizer.SyncDb.Runs.{
  run_sync, SyncOp, replay_sync, run_sync-Refines, put_time, take_time,
}
use ascend_mssanitizer.Signal.{signal_wait, signal_compare, signal_set}
use ascend_mssanitizer.Signal.Last.{run_sets, last_set, signal_wait-Answered, Answered}

wait-Waited_example :
    Waited {W = ℕ} 2 1 (arrivals {W = ℕ} fresh 7 (3 ∷ []) []) (wait 2 7 (3 ∷ []) fresh)
wait-Waited_example = wait-Waited {W = ℕ} 2 1 [] fresh 7 (3 ∷ []) refl (fresh-Gathered 2 1)

abbrev three_cores : CrossCoreSyncInfoContainer
unfolding init_cross_core
three_cores = init_cross_core 3 aivec_kernel

three_cores-Waiting : Waiting 3 3 three_cores
unfolding three_cores init_cross_core
three_cores-Waiting = record { sem = inl refl; room = omega arith; blocks = refl }

abbrev three_calls : List (ℕ × ℕ × VectorTime)
three_calls = (0, 0, 1 ∷ []) ∷ (1, 12, 1 ∷ []) ∷ (2, 24, 1 ∷ []) ∷ []

never_through_example : All (λ done. done ≡ false) (sync_all_calls 3 three_calls three_cores)
never_through_example =
    never_through 3 3 three_calls three_cores (λ h. ground (arith, h))
      (omega arith, (omega arith, (omega arith, tt))) three_cores-Waiting

update_vector_time_iff_example :
    LeTime (update_vector_time (1 ∷ 5 ∷ []) (2 ∷ 3 ∷ [])) (4 ∷ 6 ∷ [])
    ↔ (LeTime (1 ∷ 5 ∷ []) (4 ∷ 6 ∷ []) × LeTime (2 ∷ 3 ∷ []) (4 ∷ 6 ∷ []))
update_vector_time_iff_example = update_vector_time_iff (1 ∷ 5 ∷ []) (2 ∷ 3 ∷ []) (4 ∷ 6 ∷ []) refl

apart-AreCausal : AreCausal (2 ∷ 1 ∷ []) (1 ∷ 2 ∷ []) 0 1
apart-AreCausal = record {
  forward = λ h. absurd (omega arith);
  backward = λ h. absurd (omega arith);
}

is_not_happens_before_iff_example :
    (is_not_happens_before (2 ∷ 1 ∷ []) (1 ∷ 2 ∷ []) 0 1 ≡ true)
    ↔ ((¬ LeTime (2 ∷ 1 ∷ []) (1 ∷ 2 ∷ [])) × (¬ LeTime (1 ∷ 2 ∷ []) (2 ∷ 1 ∷ [])))
is_not_happens_before_iff_example =
    is_not_happens_before_iff (2 ∷ 1 ∷ []) (1 ∷ 2 ∷ []) 0 1 apart-AreCausal

abbrev test_pair : SyncEvent
test_pair = record { src_pipe = 4; dst_pipe = 1; event_id = 0; mem_type = 4; retrogress = 0 }

get_event-Taken_example : Taken test_pair [] (get_event test_pair [])
get_event-Taken_example = get_event-Taken test_pair []

-- Two sets, and three gets, of which the last finds nothing.
abbrev five_calls : List SyncOp
five_calls =
    put_time test_pair (1 ∷ [])
    ∷ put_time test_pair (2 ∷ [])
    ∷ take_time test_pair
    ∷ take_time test_pair
    ∷ take_time test_pair
    ∷ []

run_sync-Refines_example : run_sync five_calls [] ≡ replay_sync five_calls (λ f. [])
run_sync-Refines_example = run_sync-Refines five_calls

five_calls_times : run_sync five_calls [] ≡ some (1 ∷ []) ∷ some (2 ∷ []) ∷ none ∷ []
unfolding run_sync set_event get_event lookup insert
five_calls_times = refl

three_cores-NoEmptyMark : NoEmptyMark three_cores
unfolding three_cores init_cross_core
three_cores-NoEmptyMark = tt

abbrev test_mark : MstxCrossInfo
test_mark = record {
  addr = 4096;
  flag_id = 1;
  pipe = pipe_mte3;
  is_more = false;
  is_merge = false;
  op_type = mstx_wait_cross;
}

get_mstx_cross_info-Passed_example :
    Passed
      (mstx_key test_mark)
      (1 ∷ [])
      three_cores
      (get_mstx_cross_info test_mark (1 ∷ []) three_cores)
get_mstx_cross_info-Passed_example =
    get_mstx_cross_info-Passed test_mark (1 ∷ []) three_cores three_cores-NoEmptyMark

three_cores-slots : length three_cores.block_soft_sync_info ≡ three_cores.max_block_num
unfolding three_cores init_cross_core
three_cores-slots = refl

third_core : 2 < three_cores.max_block_num
unfolding three_cores init_cross_core
third_core = omega arith

get_soft-set_soft_example :
    outcome_time (
      get_block_soft_sync_info
        (pos 5)
        2
        (1 ∷ 7 ∷ [])
        (set_block_soft_sync_info (pos 5) 2 (3 ∷ 2 ∷ []) three_cores))
    ≡ some (update_vector_time (3 ∷ 2 ∷ []) (1 ∷ 7 ∷ []))
get_soft-set_soft_example =
    get_soft-set_soft (pos 5) 2 (3 ∷ 2 ∷ []) (1 ∷ 7 ∷ []) three_cores three_cores-slots third_core

-- A group of two vector cores and a cube core.
abbrev one_group : CrossCoreSyncInfoContainer
unfolding init_cross_core
one_group = init_cross_core 3 mix

one_group-IsSized : IsSized one_group
unfolding one_group init_cross_core
one_group-IsSized = record { blocks = refl; slots = (refl, (refl, (refl, tt))) }

one_group-kind : one_group.kernel_type ≡ mix
unfolding one_group init_cross_core
one_group-kind = refl

cube_core : 2 < one_group.max_block_num
unfolding one_group init_cross_core
cube_core = omega arith

few_blocks : one_group.max_block_num < 2 ^ 32
unfolding one_group init_cross_core
few_blocks = omega arith

waiting-set_mode2_cube_example :
    waiting (set_block_sync_info 5 mode2 2 (1 ∷ 2 ∷ []) 2 one_group) 0 5 ≡ (
      if (0 + 1 == 2) || (0 + 2 == 2)
      then waiting one_group 0 5 ++ (1 ∷ 2 ∷ []) ∷ []
      else waiting one_group 0 5)
waiting-set_mode2_cube_example =
    waiting-set_mode2_cube 5 2 0 2 (1 ∷ 2 ∷ []) one_group one_group-IsSized one_group-kind refl
      cube_core few_blocks (omega arith) (omega arith)

abbrev test_signal : MstxSignalSet
test_signal = record { addr = 4096; value = negsuc 1 }

abbrev test_wait : MstxSignalWait
test_wait = record { addr = 4096; cmp_value = pos 1; cmp_op = cmp_lt }

-- The second of two sets leaves -2, which is below 1.
abbrev two_sets : List (MstxSignalSet × VectorTime)
two_sets = (record test_signal { value = pos 5 }, 1 ∷ []) ∷ (test_signal, 2 ∷ []) ∷ []

signal_wait-Answered_example :
    Answered test_wait []
      (last_set 4096 none two_sets)
      (signal_wait test_wait (run_sets two_sets []) [])
signal_wait-Answered_example = signal_wait-Answered two_sets test_wait []

two_sets_answer : signal_wait test_wait (run_sets two_sets []) [] ≡ (true, 2 ∷ [])
unfolding signal_wait run_sets signal_set lookup insert signal_compare
two_sets_answer = refl
