-- ===== src/RaceAlg/Run.antt =====
-- A whole kernel through class RaceAlgImpl of csrc/race_sanitizer/alg_framework/race_alg_impl.cpp: `Do` of
-- its events one by one, and the run that `Do` of the last one starts.
use ascend_mssanitizer.PipeLine.{start, run, Machine}
use ascend_mssanitizer.Base.{
  refl, [], ℕ, replicate, List, length-replicate, ◌<◌, All, some, suc, ◌*◌, zero, ◌∷◌, arith, ◌^◌,
}
use ascend_mssanitizer.PipeLine.Termination.{run-Ended}
use ascend_mssanitizer.PipeLine.Position.{queues-IsPlaced, Ended, IsPlaced}
use ascend_mssanitizer.RaceAlg.Terminates.{process_inner_event-Drains, push-Pushed, IsGood}
use ascend_mssanitizer.Base.Words.{u32}
use ascend_mssanitizer.Checker.State.{event_block_index}
use ascend_mssanitizer.RaceAlg.Load.{load, entries-load_most, AllPipes}
use ascend_mssanitizer.RaceAlg.Inner.{do_event, process_inner_event}
use ascend_mssanitizer.Container.{init, EventContainer}
use ascend_mssanitizer.RaceAlg.State.{RaceState, race_alg_init, total_block_num}
use ascend_mssanitizer.Event.{
  IsPipe, KernelType, pipe_s, pipe_index, pipe_count, single_block_check, SanEvent, DeviceType,
}
use ascend_mssanitizer.PipeLine.Progress.{fuel}

-- `Do` of the events of a kernel before its last.
unfoldable pub do_events : List SanEvent → EventContainer × RaceState → EventContainer × RaceState
do_events [] s = s
do_events (e ∷ es) s = do_events es (do_event e s)

do_event-Good :
    (e : SanEvent) (c : EventContainer) (r : RaceState)
    → IsPipe e.pipe
    → IsPlaced c
    → IsGood c.max_block_num c.ques r
    → let (c', r') = do_event e (c, r) in IsPlaced c' × IsGood c'.max_block_num c'.ques r'
unfolding do_event pipe_index
do_event-Good e c r h v g =
    let block = event_block_index e.loc r.kernel_type r.device_type single_block_check in
    let (qs, p) =
      push-Pushed c e pipe_s block 8 g.0 g.1 h (omega arith) (λ i home. entries-load_most i e) in
    rw (p.is_push) (queues-IsPlaced qs p.length_is v, (g.0, p.pipes))

do_events-Good :
    (es : List SanEvent) (c : EventContainer) (r : RaceState)
    → All (λ e. IsPipe e.pipe) es
    → IsPlaced c
    → IsGood c.max_block_num c.ques r
    → let (c', r') = do_events es (c, r) in IsPlaced c' × IsGood c'.max_block_num c'.ques r'
unfolding do_events
do_events-Good [] c r h v g = (v, g)
do_events-Good (e ∷ es) c r h v g =
    let (placed, good) = do_event-Good e c r h.0 v g in
    let (c', r') = do_event e (c, r) in do_events-Good es c' r' h.1 placed good

All-replicate : (n : ℕ) → AllPipes (replicate n [])
All-replicate zero = tt
All-replicate (suc n) = (tt, All-replicate n)

pub init-Good :
    {R : Type 0} (n : ℕ) (r : R)
    → 0 < n
    → n * pipe_count < 2 ^ 32
    → IsPlaced (init n 1) × IsGood (init n 1).max_block_num (init n 1).ques r
unfolding init
init-Good n r pos_n small =
    let size = u32 (1 * n * pipe_count) in
    let placed : IsPlaced (init n 1) = record {
      one_device = refl;
      device_is = refl;
      unstuck = refl;
      pipe_in = omega arith;
      block_in = pos_n;
      small = omega arith;
      fits = omega (arith, length-replicate {A = List SanEvent} size []);
    } in
    (placed, (small, All-replicate size))

-- The state when `Do` of the last event starts the run.
abbrev pub before_run : KernelType → DeviceType → ℕ → List SanEvent → EventContainer × RaceState
before_run k d n es = do_events es (init (total_block_num k d n) 1, race_alg_init k d n)

-- `pipeLine.Run()` in `Do` of the last event, with its fuel.
unfoldable pub run_kernel : KernelType → DeviceType → ℕ → List SanEvent → Machine RaceState
run_kernel k d n es =
    let (c, r) = before_run k d n es in
    run (fuel IsGood load (start c r)) (some process_inner_event) (start c r)

total-bounds :
    (k : KernelType) (d : DeviceType) (n : ℕ)
    → 0 < n
    → n * 36 < 2 ^ 32
    → (0 < total_block_num k d n) × (total_block_num k d n * pipe_count < 2 ^ 32)
unfolding total_block_num
total-bounds k d n h small = ground arith

-- For every kernel and device, every block dimension from 1 to 119304647 and every list of events for
-- pipes that have a queue: the run of the algorithm that looks for races inside a core ends, with
-- every queue empty, or at the exception with the device marked as stuck.
pub run_kernel-Ended :
    (k : KernelType) (d : DeviceType) (n : ℕ) (es : List SanEvent)
    → 0 < n
    → n * 36 < 2 ^ 32
    → All (λ e. IsPipe e.pipe) es
    → Ended (run_kernel k d n es)
unfolding run_kernel
run_kernel-Ended k d n es h small pipes =
    let r = race_alg_init k d n in
    let (some_blocks, fits) = total-bounds k d n h small in
    let (placed, good) = init-Good (total_block_num k d n) r some_blocks fits in
    let (placed', good') = do_events-Good es (init (total_block_num k d n) 1) r pipes placed good in
    let (c, r') = before_run k d n es in
    run-Ended IsGood load process_inner_event process_inner_event-Drains c r' placed' good'
