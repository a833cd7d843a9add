-- ===== src/SinglePipe/Run.antt =====
-- A whole kernel through csrc/race_sanitizer/alg_framework/single_pipe_race_alg_impl.cpp: `Do` of its
-- events one by one, and the run that `Do` of the last one starts.
use ascend_mssanitizer.Base.{Bool-cases, inr, ltb, ◌&&◌, some, ◌∷◌, List, inl, refl, [], arith}
use ascend_mssanitizer.Container.{que_index, queue_at, init, front, EventContainer}
use ascend_mssanitizer.PipeLine.{start, Machine, process_ok, run}
use ascend_mssanitizer.RaceAlg.Load.{entries-load_most, load}
use ascend_mssanitizer.SinglePipe.{
  process_single_info, PipeCounters, single_pipe_init, SinglePipeState, process_single_event,
  do_single_event,
}
use ascend_mssanitizer.PipeLine.Progress.{Drains, fuel}
use ascend_mssanitizer.RaceAlg.Terminates.{keep-Progress, IsGood, rest_of_front, push-Pushed}
use ascend_mssanitizer.RaceAlg.Run.{init-Good}
use ascend_mssanitizer.Event.{IsPipe, KernelType, pipe_index, DeviceType, SanEvent, pipe_count}
use ascend_mssanitizer.PipeLine.Position.{queues-IsPlaced, Ended, IsPlaced}
use ascend_mssanitizer.PipeLine.Termination.{run-Ended}

process_single_event-Drains : Drains IsGood load process_single_event
unfolding process_single_event front
process_single_event-Drains = record {
  handled = λ e c r v f g.
      let (rest, q) = rest_of_front (queue_at c (que_index c)) e f in
      (
        c.ques,
        refl,
        refl,
        keep-Progress process_ok c e rest r (process_single_info e.info e r) g q,
      );
}

unfoldable pub do_single_events : List SanEvent → EventContainer → EventContainer
do_single_events [] c = c
do_single_events (e ∷ es) c = do_single_events es (do_single_event e c)

-- `pipeLine.Run()` in `Do` of the last event, with its fuel.
unfoldable pub run_single :
    KernelType → DeviceType → PipeCounters → List SanEvent → Machine SinglePipeState
run_single k d n es =
    let c = do_single_events es (init 1 1) in
    let r = single_pipe_init k d n in
    run (fuel IsGood load (start c r)) (some process_single_event) (start c r)

do_single_event-Good :
    (e : SanEvent) (c : EventContainer) (r : SinglePipeState)
    → IsPlaced c
    → IsGood c.max_block_num c.ques r
    → let c' = do_single_event e c in IsPlaced c' × IsGood c'.max_block_num c'.ques r
unfolding do_single_event
do_single_event-Good e c r v g =
    elim (Bool-cases (ltb 0 (pipe_index e.pipe) && ltb (pipe_index e.pipe) pipe_count)) [
      | inr b ↦ rw b (v, g)
      | inl b ↦
          let h : IsPipe e.pipe = ground (arith, b) in
          let (qs, p) = push-Pushed c e e.pipe 0 8 g.0 g.1 h h (λ i home. entries-load_most i e) in
          rw (b, p.is_push) (queues-IsPlaced qs p.length_is v, (g.0, p.pipes))
    ]

do_single_events-Good :
    (es : List SanEvent) (c : EventContainer) (r : SinglePipeState)
    → IsPlaced c
    → IsGood c.max_block_num c.ques r
    → let c' = do_single_events es c in IsPlaced c' × IsGood c'.max_block_num c'.ques r
unfolding do_single_events
do_single_events-Good [] c r v g = (v, g)
do_single_events-Good (e ∷ es) c r v g =
    let (placed, good) = do_single_event-Good e c r v g in
    do_single_events-Good es (do_single_event e c) r placed good

-- For every kernel and device, every value that the counters may hold at first, and every list of
-- events: the run of the algorithm that looks at one pipe ends, with every queue empty, or at the
-- exception with the device marked as stuck.
pub run_single-Ended :
    (k : KernelType) (d : DeviceType) (n : PipeCounters) (es : List SanEvent)
    → Ended (run_single k d n es)
unfolding run_single
run_single-Ended k d n es =
    let r = single_pipe_init k d n in
    let (placed, good) = init-Good 1 r (omega arith) (omega arith) in
    let (placed', good') = do_single_events-Good es (init 1 1) r placed good in
    run-Ended IsGood load process_single_event process_single_event-Drains
      (do_single_events es (init 1 1)) r placed' good'
