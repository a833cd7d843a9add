-- ===== src/RaceAlg/Terminates.antt =====
-- `ProcessEvent` of csrc/race_sanitizer/alg_framework/race_alg_impl.cpp as a handler of `PipeLine`,
-- and the end of the run that `Do` starts on the last event of a kernel.
use ascend_mssanitizer.Base.{
  List, inl, ◌%◌, All-set, ◌≢◌, All-append, pop_front, refl, ◌<◌, length, ap, ℕ, inr, length-set,
  get_or, ◌∷◌, leb, Bool-cases, arith, subst, ◌+◌, ◌*◌, All-get_or, ◌^◌, ◌≡◌, ◌++◌, set, ◌≤◌,
  get_or-set_ne, ◌∙◌, sym, All, [], some, ==_iff, ◌==◌,
}
use ascend_mssanitizer.PipeLine.Position.{IsPlaced, Queues}
use ascend_mssanitizer.RaceAlg.State.{RaceState, tick, time_of}
use ascend_mssanitizer.RaceAlg.Load.{
  load-take, queue_load, load, load-add, event_load, entries-IsPipe, AllPipes, entries-load,
  time_event-load, event_load-away, event_load-pos,
}
use ascend_mssanitizer.Event.{
  PipeType, pipe_count, IsPipe, SanEvent, pipe_index, single_block_check,
}
use ascend_mssanitizer.Container.{
  push, que_index, pop, flatten_pipe_idx, entries, EventContainer, queue_at, head_of, front,
}
use ascend_mssanitizer.PipeLine.{process_ok, process_stalled, ReturnType}
use ascend_mssanitizer.PipeLine.Progress.{Progress, Drains}
use ascend_mssanitizer.Checker.State.{event_block_index}
use ascend_mssanitizer.RaceAlg.Inner.{launch, process_inner_event, time_event_of, process_on_pipe}

-- The machine fits a uint32_t, and every queued event is for a pipe that has a queue.
abbrev pub IsGood : {R : Type 0} → ℕ → Queues → R → Type 0
IsGood n qs r = (n * pipe_count < 2 ^ 32) × AllPipes qs

que_index-mod :
    (c : EventContainer)
    → IsPlaced c
    → c.max_block_num * pipe_count < 2 ^ 32
    → que_index c % pipe_count ≡ c.cur_pipe
unfolding que_index flatten_pipe_idx
que_index-mod c v small =
    let zero_device : c.cur_device * c.max_block_num * pipe_count ≡ 0 =
      rw (v.device_is) (omega arith) in
    omega (arith, v.pipe_in, v.block_in, small, zero_device)

flatten-mod :
    (c : EventContainer) (p : PipeType) (b : ℕ)
    → IsPipe p
    → b < c.max_block_num
    → c.max_block_num * pipe_count < 2 ^ 32
    → flatten_pipe_idx c (pipe_index p) b 0 % pipe_count ≡ pipe_index p
unfolding flatten_pipe_idx
flatten-mod c p b h inside small = omega (arith, h, inside, small)

-- What a push of an event to its own pipe leaves in the queues.
pub record Pushed (c : EventContainer) (p : PipeType) (n : ℕ) (d : EventContainer) (qs : Queues)
    : Type 0 where
  pub is_push : d ≡ record c { ques = qs }
  pub length_is : length qs ≡ length c.ques
  pub load_is : load qs ≤ load c.ques + n
  pub pipes : AllPipes qs
  pub others : (i : ℕ) → i % pipe_count ≢ pipe_index p → get_or qs i [] ≡ get_or c.ques i []

pub push-Pushed :
    (c : EventContainer) (e : SanEvent) (p : PipeType) (b n : ℕ)
    → c.max_block_num * pipe_count < 2 ^ 32
    → AllPipes c.ques
    → IsPipe e.pipe
    → IsPipe p
    → ((i : ℕ) → i % pipe_count ≡ pipe_index p → queue_load i (entries e) ≤ n)
    → (qs : Queues) × Pushed c p n (push e p b 0 c) qs
unfolding push
push-Pushed c e p b n small all h on light = elim (Bool-cases (leb c.max_block_num b)) [
  | inl out ↦ (
    c.ques,
    record {
      is_push = rw out refl;
      length_is = refl;
      load_is = omega arith;
      pipes = all;
      others = λ i ne. refl;
    },
  )
  | inr inside ↦ elim (Bool-cases (leb c.device_num 0)) [
    | inl none_left ↦ (
      c.ques,
      record {
        is_push = rw (inside, none_left) refl;
        length_is = refl;
        load_is = omega arith;
        pipes = all;
        others = λ i ne. refl;
      },
    )
    | inr some_left ↦
        let j = flatten_pipe_idx c (pipe_index p) b 0 in
        let home = flatten-mod c p b on (ground arith) small in
        let new = get_or c.ques j [] ++ entries e in
        (
          set c.ques j new,
          record {
            is_push = rw (inside, some_left) refl;
            length_is = length-set c.ques j new;
            load_is = omega (arith, load-add c.ques j (entries e), light j home);
            pipes = All-set _ c.ques j new all (
                All-append _ (get_or c.ques j []) (entries e) (All-get_or _ c.ques j [] all tt)
                  (entries-IsPipe e h));
            others = λ i ne.
                get_or-set_ne c.ques j i new [] (λ k. ne (ap (λ x. x % pipe_count) (sym k) ∙ home));
          },
        )
  ]
]

-- The event at the front of the current queue is taken off.
pub pop-Progress :
    {R : Type 0} (c : EventContainer) (qs : Queues) (e : SanEvent) (rest : List SanEvent) (r : R)
    → c.max_block_num * pipe_count < 2 ^ 32
    → AllPipes qs
    → get_or qs (que_index c) [] ≡ e ∷ rest
    → load qs < load c.ques + event_load (que_index c) e
    → Progress IsGood load process_ok c qs r
unfolding pop que_index flatten_pipe_idx
pop-Progress c qs e rest r small all h less =
    let i = que_index c in
    let taken = load-take qs i e rest h in
    let tail : pop_front (get_or qs i []) ≡ rest = ap pop_front h in
    (
      (
        small,
        All-set _ qs i (pop_front (get_or qs i [])) all
            (rw tail (subst (All (λ x. IsPipe x.pipe)) h (All-get_or _ qs i [] all tt)).1),
      ),
      rw tail (omega (arith, taken, less)),
    )

pub stall-Progress :
    {R : Type 0} (c : EventContainer) (r r' : R)
    → IsGood c.max_block_num c.ques r
    → Progress IsGood load process_stalled c c.ques r'
stall-Progress c r r' g = (g, omega arith)

pub rest_of_front :
    (q : List SanEvent) (e : SanEvent)
    → head_of q ≡ some e
    → (rest : List SanEvent) × (q ≡ e ∷ rest)
rest_of_front [] e h = ground (arith, h)
rest_of_front (x ∷ xs) e h = (xs, ground (arith, h))

pub keep-Progress :
    {R : Type 0} (v : ReturnType) (c : EventContainer) (e : SanEvent) (rest : List SanEvent)
    (r r' : R)
    → IsGood c.max_block_num c.ques r
    → queue_at c (que_index c) ≡ e ∷ rest
    → Progress IsGood load v c c.ques r'
keep-Progress process_ok c e rest r r' g h =
    pop-Progress c c.ques e rest r' g.0 g.1 h (omega (arith, event_load-pos (que_index c) e))
keep-Progress process_stalled c e rest r r' g h = stall-Progress c r r' g

launch-Pushed :
    (c : EventContainer) (e : SanEvent) (r : RaceState)
    → IsGood c.max_block_num c.ques r
    → IsPipe e.pipe
    → (qs : Queues) × Pushed c e.pipe 3 (launch e c r).events qs
unfolding launch
launch-Pushed c e r g h =
    let p = que_index c in
    let block = event_block_index e.loc r.kernel_type r.device_type single_block_check in
    let t = time_event_of e (time_of (tick p r) p) in
    let (qs, one) =
      push-Pushed c t e.pipe block 1 g.0 g.1 h h
        (λ i home. omega (arith, time_event-load i e (time_of (tick p r) p) home)) in
    let (qs', two) =
      push-Pushed (record c { ques = qs }) e e.pipe block 2 g.0 one.pipes h h
        (λ i home. entries-load i e home) in
    (
      qs',
      record {
        is_push = rw (one.is_push) (two.is_push);
        length_is = two.length_is ∙ one.length_is;
        load_is = omega (arith, one.load_is, two.load_is);
        pipes = two.pipes;
        others = λ i away. two.others i away ∙ one.others i away;
      },
    )

handled_inner :
    (e : SanEvent) (c : EventContainer) (r : RaceState)
    → IsPlaced c
    → head_of (queue_at c (que_index c)) ≡ some e
    → IsGood c.max_block_num c.ques r
    → (qs : Queues) × ((process_inner_event e c r).events ≡ record c { ques = qs })
      × (length qs ≡ length c.ques)
      × Progress IsGood load (process_inner_event e c r).ret c qs (process_inner_event e c r).rest
unfolding process_inner_event launch
handled_inner e c r v f g =
    let i = que_index c in
    let (rest, q) = rest_of_front (queue_at c i) e f in
    let h : IsPipe e.pipe =
      (subst (All (λ x. IsPipe x.pipe)) q (All-get_or _ c.ques i [] g.1 tt)).0 in
    let (qs, p) = launch-Pushed c e r g h in
    let home = que_index-mod c v g.0 in
    let verdict = process_on_pipe e.info e i r in
    elim (Bool-cases (c.cur_pipe == pipe_index e.pipe)) [
      | inl b ↦ rw b (c.ques, refl, refl, keep-Progress verdict.0 c e rest r verdict.1 g q)
      | inr b ↦
          let away : i % pipe_count ≢ pipe_index e.pipe =
            λ k. ground (arith, b, ==_iff c.cur_pipe (pipe_index e.pipe), sym home ∙ k) in
          rw b (
            qs,
            p.is_push,
            p.length_is,
            pop-Progress c qs e rest (tick i r) g.0 p.pipes (p.others i away ∙ q)
                (omega (arith, p.load_is, event_load-away i e away)),
          )
    ]

-- `ProcessEvent` is a handler that makes progress: it keeps the queues well-formed, changes nothing
-- else of the container, and whenever it succeeds on a queued event there is less work left.
pub process_inner_event-Drains : Drains IsGood load process_inner_event
unfolding front
process_inner_event-Drains = record { handled = handled_inner }
