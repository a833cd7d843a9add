-- ===== src/Tests/Machines.antt =====
-- Runs of the pipe line and of the race algorithms (csrc/race_sanitizer/alg_framework/pipe_line.cpp,
-- race_alg_impl.cpp and single_pipe_race_alg_impl.cpp) on concrete inputs.
use native.Mathlib.Nat.{zero-mul}
use ascend_mssanitizer.Container.{
  switch_to_next_pipe, is_need_switch_next_device, front, is_cur_device_empty, is_cur_que_empty,
  is_all_device_stuck, check_cur_device_stuck, switch_to_next_block, switch_to_next_device,
  are_all_empty, init, is_cur_block_empty, is_need_switch_next_block, pop, EventContainer,
  que_index, are_empty, flatten_pipe_idx, head_of,
}
use ascend_mssanitizer.Event.{
  pipe_v, pipe_index, aivec_kernel, IsPipe, sync_event, wait_flag, pipe_mte2, ub, SanEvent,
}
use ascend_mssanitizer.PipeLine.{
  process_ok, process_step, handle, exit, check_cur_device_step, start, check_cur_pipe_step, after,
  step, is_final, process_stalled, run, check_cur_block_step, check_all_device_step,
}
use ascend_mssanitizer.Base.{
  length, All, refl, some, ◌≡◌, ◌∷◌, false, ◌^◌, ◌+◌, replicate, arith, [], ◌<◌, get_or, ◌*◌, zero,
  ◌∙◌, Option, ap, none, suc, ℕ, sym, ◌==◌, true, subst,
}
use ascend_mssanitizer.RaceAlg.Load.{load}
use ascend_mssanitizer.SinglePipe.Run.{run_single, run_single-Ended}
use ascend_mssanitizer.RaceAlg.Run.{init-Good, run_kernel-Ended, run_kernel}
use ascend_mssanitizer.RaceAlg.State.{race_alg_init, RaceState}
use ascend_mssanitizer.RaceAlg.Inner.{process_inner_event, process_sync_event, process_on_pipe}
use ascend_mssanitizer.SinglePipe.{single_pipe_init, PipeCounters, barriers_at, SinglePipeState}
use ascend_mssanitizer.Tests.Data.{test_kernel, event_on}
use ascend_mssanitizer.PipeLine.Progress.{fuel}
use ascend_mssanitizer.PipeLine.Livelock.{Stalls, SecondDrained, run-never_ends, StandsIn}
use ascend_mssanitizer.PipeLine.Position.{Ended}
use ascend_mssanitizer.Base.Words.{u32}
use ascend_mssanitizer.SinglePipe.Barriers.{handle_single-barriers, handle_single, barrier_count}
use ascend_mssanitizer.RaceAlg.Terminates.{IsGood, process_inner_event-Drains}
use ascend_mssanitizer.PipeLine.Termination.{run-Ended}
use ascend_mssanitizer.Base.Assoc.{lookup}
use ascend_mssanitizer.SyncDb.{get_event}

test_kernel-IsPipe : All (λ e. IsPipe e.pipe) test_kernel
unfolding pipe_index
test_kernel-IsPipe = (omega arith, (omega arith, tt))

run_kernel-Ended_example : Ended (run_kernel aivec_kernel 0 1 test_kernel)
run_kernel-Ended_example =
    run_kernel-Ended aivec_kernel 0 1 test_kernel (omega arith) (omega arith) test_kernel-IsPipe

abbrev test_state : RaceState
unfolding race_alg_init
test_state = race_alg_init aivec_kernel 0 1

run-Ended_example : Ended (
    run
      (fuel IsGood load (start (init 1 1) test_state))
      (some process_inner_event)
      (start (init 1 1) test_state))
run-Ended_example =
    run-Ended IsGood load process_inner_event process_inner_event-Drains (init 1 1) test_state
      (init-Good 1 test_state (omega arith) (omega arith)).0
      (init-Good 1 test_state (omega arith) (omega arith)).1

-- A wait on the vector pipe for a flag that nothing sets.
abbrev waiting : SanEvent
waiting = event_on pipe_v (
    sync_event (record {
      op_type = wait_flag;
      src_pipe = pipe_mte2;
      dst_pipe = pipe_v;
      event_id = 0;
      mem_type = ub;
      is_retrogress = false;
      is_generated = false;
    }))

-- Two devices of one block each: an event waits on the first, and the second has none.
abbrev one_waits : EventContainer
one_waits = record {
  ques = [] ∷ (waiting ∷ []) ∷ replicate 22 [];
  device_num = 2;
  max_block_num = 1;
  block_pop_count = 0;
  device_pop_count = 0;
  is_block_stuck = false;
  is_device_stuck = false;
  stuck_device_num = 0;
  cur_pipe = 0;
  cur_block = 0;
  cur_device = 0;
}

one_waits-SecondDrained : SecondDrained one_waits
unfolding are_all_empty are_empty
one_waits-SecondDrained = record { two = refl; left = refl; first = refl; second = refl }

head-replicate : (n k : ℕ) → head_of (get_or (replicate n []) k []) ≡ none
head-replicate zero k = refl
head-replicate (suc n) zero = refl
head-replicate (suc n) (suc k) = head-replicate n k

abbrev or_waiting : Option SanEvent → SanEvent
or_waiting none = waiting
or_waiting (some e) = e

-- The only event of the container waits at its second queue.
only_waiting :
    (k : ℕ) (e : SanEvent) → head_of (get_or one_waits.ques k []) ≡ some e → (k ≡ 1) × (e ≡ waiting)
only_waiting zero e h = absurd (ground (arith, h))
only_waiting (suc zero) e h = (refl, sym (ap or_waiting h))
only_waiting (suc (suc k)) e h = absurd (ground (arith, h, head-replicate 22 k))

queue_of_pipe :
    (c : EventContainer) → StandsIn one_waits c → c.cur_device ≡ 0 → que_index c ≡ c.cur_pipe
unfolding que_index flatten_pipe_idx
queue_of_pipe c p d =
    let first : c.cur_device * c.max_block_num ≡ 0 =
      ap (λ k. k * c.max_block_num) d ∙ zero-mul c.max_block_num in
    let only : c.cur_block ≡ 0 = omega (arith, p.block_in, p.same_blocks) in
    let low : c.cur_pipe < 12 = p.pipe_in in omega (arith, first, only, low)

waiting_stalls :
    (c : EventContainer)
    → c.cur_pipe ≡ 1
    → process_inner_event waiting c test_state
      ≡ record { ret = process_stalled; events = c; rest = test_state }
unfolding process_inner_event process_on_pipe process_sync_event get_event test_state race_alg_init
    lookup pipe_index
waiting_stalls c h = let on : (c.cur_pipe == 1) ≡ true = ground (arith, h) in rw on refl

-- The handler of the algorithm inside a core stalls on it.
inner-Stalls : Stalls process_inner_event one_waits test_state
unfolding front
inner-Stalls = record {
  stalled = λ e c p d fr.
      let at_pipe = queue_of_pipe c p d in
      let here : head_of (get_or one_waits.ques c.cur_pipe []) ≡ some e =
        ap (λ k. head_of (get_or one_waits.ques k [])) (sym at_pipe)
        ∙ ap (λ qs. head_of (get_or qs (que_index c) [])) (sym p.same_ques)
        ∙ fr in
      let (pipe, event) = only_waiting c.cur_pipe e here in
      subst
        (λ x.
          process_inner_event x c test_state
          ≡ record { ret = process_stalled; events = c; rest = test_state })
        (sym event) (waiting_stalls c pipe);
}

run-never_ends_example :
    is_final (run 1000 (some process_inner_event) (start one_waits test_state)).state ≡ false
run-never_ends_example =
    run-never_ends process_inner_event one_waits test_state inner-Stalls 1000
      one_waits-SecondDrained refl refl (omega arith) (omega arith)

-- The first device is drained after one event is handled, and the run ends.
ends_when_handled :
    (run 60
      (some (λ e c r. record { ret = process_ok; events = c; rest = r }))
      (start one_waits tt)).state
    ≡ exit
unfolding run step check_all_device_step check_cur_device_step check_cur_block_step
    check_cur_pipe_step process_step handle after front pop que_index flatten_pipe_idx
    is_cur_que_empty is_need_switch_next_block is_need_switch_next_device is_cur_block_empty
    is_cur_device_empty are_empty are_all_empty check_cur_device_stuck is_all_device_stuck
    switch_to_next_device switch_to_next_block switch_to_next_pipe
ends_when_handled = refl

abbrev zero_counters : PipeCounters
zero_counters = record {
  barriers = replicate 11 0;
  last_serial = replicate 11 0;
  serials = replicate 11 0;
}

run_single-Ended_example : Ended (run_single aivec_kernel 0 zero_counters test_kernel)
run_single-Ended_example = run_single-Ended aivec_kernel 0 zero_counters test_kernel

abbrev single_state : SinglePipeState
unfolding single_pipe_init
single_state = single_pipe_init aivec_kernel 0 zero_counters

counter_there : 0 < length single_state.counters.barriers
unfolding single_state single_pipe_init
counter_there = omega arith

counter_small : barriers_at single_state 0 < 2 ^ 32
unfolding single_state single_pipe_init
counter_small = omega arith

handle_single-barriers_example :
    barriers_at (handle_single test_kernel single_state) 0
    ≡ u32 (barriers_at single_state 0 + barrier_count pipe_v test_kernel)
unfolding pipe_index
handle_single-barriers_example =
    handle_single-barriers pipe_v 0 test_kernel single_state refl counter_there counter_small
