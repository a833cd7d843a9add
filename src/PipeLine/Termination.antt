-- ===== src/PipeLine/Termination.antt =====
-- `Run` of csrc/race_sanitizer/alg_framework/pipe_line.cpp ends on one device, for every handler
-- that makes progress.
use ascend_mssanitizer.Base.{
  ℕ, zero, suc, ◌+◌, ◌*◌, ◌<◌, ◌≡◌, refl, inl, inr, false, Option, none, some, arith, length, ◌∙◌,
  subst, sym,
}
use ascend_mssanitizer.Event.{SanEvent}
use ascend_mssanitizer.Container.{EventContainer, switch_to_next_pipe, front, pop}
use ascend_mssanitizer.PipeLine.{
  ReturnType, process_ok, process_stalled, PipeState, check_all_device, check_cur_device,
  check_cur_block, check_cur_pipe, process_event, exit, exception, Handler, Machine, is_final,
  start, process_step, handle, after, step, run,
}
use ascend_mssanitizer.PipeLine.Measure.{
  pipe_rounds-switch, switch_pipe-Turns, rounds-le, rounds-ques, mul_down, mul_le,
}
use ascend_mssanitizer.PipeLine.Position.{
  at, Queues, IsPlaced, switch_pipe-IsPlaced, pop-IsPlaced, queues-IsPlaced, run_stop, run_go,
  front-ne-none, Ended, Ended-final,
}
use ascend_mssanitizer.PipeLine.Progress.{
  Progress, Drains, work_turn, cost, fuel, Free-running, Ready, Advances, advance_all,
  advance_device, advance_block, advance_pipe,
}

module _ {R : Type 0} (Good : ℕ → Queues → R → Type 0) (load : Queues → ℕ) (f : Handler R)
    (d : Drains Good load f) where
  advance_ok :
      (c : EventContainer) (qs : Queues) (r : R)
      → IsPlaced c
      → length qs ≡ length c.ques
      → c.is_device_stuck ≡ false
      → c.is_block_stuck ≡ false
      → Progress Good load process_ok c qs r
      → Advances Good load (at process_event c r) (after process_ok (record c { ques = qs }) r)
  unfolding after pop
  advance_ok c qs r v len free free' p =
      let c' : EventContainer = record c { ques = qs } in
      inr (
        record {
          placed = pop-IsPlaced (queues-IsPlaced qs len v);
          good = p.0;
          free = (free, free');
        },
        omega (
          arith,
          work_turn Good load c c refl refl,
          work_turn Good load (pop c') (pop c') refl refl,
          rounds-le (pop c'),
          mul_down (load (pop c').ques) (load c.ques) (128 * c.max_block_num + 200) p.1,
        ),
      )

  advance_stalled :
      (c : EventContainer) (qs : Queues) (r : R)
      → IsPlaced c
      → length qs ≡ length c.ques
      → c.is_device_stuck ≡ false
      → c.is_block_stuck ≡ false
      → Progress Good load process_stalled c qs r
      → Advances Good load (at process_event c r) (after process_stalled (record c { ques = qs }) r)
  unfolding after
  advance_stalled c qs r v len free free' p =
      let c' : EventContainer = record c { ques = qs } in
      let turns = switch_pipe-Turns c' in
      inr (
        record {
          placed = switch_pipe-IsPlaced (queues-IsPlaced qs len v);
          good = rw (turns.0, turns.1) p.0;
          free = turns.2 ∙ free;
        },
        omega (
          arith,
          work_turn Good load c c refl refl,
          work_turn Good load c' (switch_to_next_pipe c') turns.0 turns.1,
          turns.3,
          rounds-ques c qs,
          pipe_rounds-switch c' v.pipe_in free',
          mul_le (load qs) (load c.ques) (128 * c.max_block_num + 200) p.1,
        ),
      )

  advance_verdict :
      (v : ReturnType) (c : EventContainer) (qs : Queues) (r : R)
      → IsPlaced c
      → length qs ≡ length c.ques
      → c.is_device_stuck ≡ false
      → c.is_block_stuck ≡ false
      → Progress Good load v c qs r
      → Advances Good load (at process_event c r) (after v (record c { ques = qs }) r)
  advance_verdict process_ok = advance_ok
  advance_verdict process_stalled = advance_stalled

  advance_event :
      (o : Option SanEvent) (c : EventContainer) (r : R)
      → front c ≡ o
      → Ready Good load (at process_event c r)
      → Advances Good load (at process_event c r) (handle o (some f) (at process_event c r))
  unfolding handle
  advance_event none c r e m = absurd (front-ne-none c m.free.2 e)
  advance_event (some e) c r fr m =
      let (qs, left, len, p) = d.handled e c r m.placed fr m.good in
      rw left (advance_verdict (f e c r).ret c qs (f e c r).rest m.placed len m.free.0 m.free.1 p)

  -- A round of a ready machine ends it, or leaves it ready and falls on the cost.
  advance_step :
      (s : PipeState) (c : EventContainer) (r : R)
      → Ready Good load (at s c r)
      → Advances Good load (at s c r) (step (some f) (at s c r))
  unfolding step process_step
  advance_step check_all_device c r m = advance_all Good load c r m.placed m.good
  advance_step check_cur_device c r m = advance_device Good load c r m.placed m.good
  advance_step check_cur_block c r m = advance_block Good load c r m.placed m.good m.free
  advance_step check_cur_pipe c r m = advance_pipe Good load c r m.placed m.good m.free.0 m.free.1
  advance_step process_event c r m = advance_event (front c) c r refl m
  advance_step exit c r m = absurd m.free
  advance_step exception c r m = absurd m.free

  run_ends :
      (n : ℕ) (m : Machine R)
      → Ready Good load m
      → cost Good load m.state m.events < n
      → Ended (run n (some f) m)
  run_ends zero m ready h = absurd (omega arith)
  run_ends (suc n) m ready h =
      let m' : Machine R = step (some f) m in
      let e : is_final m.state ≡ false = Free-running Good load m.state m.events ready.free in
      elim (advance_step m.state m.events m.rest ready) [
        | inl last ↦
            subst Ended (sym (run_go n (some f) m e))
              (subst Ended (sym (run_stop n (some f) m' (Ended-final m' last))) last)
        | inr (next, falls) ↦
            subst Ended (sym (run_go n (some f) m e)) (run_ends n m' next (omega arith))
      ]

  -- `Run` on one device, from its start and with the fuel `fuel`, ends: at the exit with every
  -- queue empty, or at the exception with the device marked as stuck.
  pub run-Ended :
      (c : EventContainer) (r : R)
      → IsPlaced c
      → Good c.max_block_num c.ques r
      → Ended (run (fuel Good load (start c r)) (some f) (start c r))
  unfolding fuel
  run-Ended c r v g =
      run_ends (fuel Good load (start c r)) (start c r) (record { placed = v; good = g; free = tt })
        (omega arith)
