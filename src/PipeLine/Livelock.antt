-- ===== src/PipeLine/Livelock.antt =====
-- Two devices, the second of them drained: `Run` of
-- csrc/race_sanitizer/alg_framework/pipe_line.cpp counts the devices that are stuck one after
-- another, and a drained device puts that count back to zero.
use native.Mathlib.Nat.{mod-lt}
use ascend_mssanitizer.Base.{
  ℕ, zero, suc, ◌+◌, ◌*◌, ◌≤◌, ◌≡◌, refl, sym, subst, ◌⊎◌, inl, inr, true, false, Option, none,
  some, arith, Bool-cases, ◌<◌,
}
use ascend_mssanitizer.Base.Words.{u32}
use ascend_mssanitizer.Event.{SanEvent, pipe_count}
use ascend_mssanitizer.Container.{
  EventContainer, is_need_switch_next_device, is_need_switch_next_block, is_cur_device_empty,
  is_all_device_stuck, check_cur_device_stuck, switch_to_next_device, switch_to_next_block,
  switch_to_next_pipe, is_cur_que_empty, front, are_empty, are_all_empty, flatten_pipe_idx,
}
use ascend_mssanitizer.PipeLine.{
  process_stalled, PipeState, check_all_device, check_cur_device, check_cur_block, check_cur_pipe,
  process_event, exit, exception, Handler, Machine, is_final, start, check_all_device_step,
  check_cur_device_step, check_cur_block_step, check_cur_pipe_step, process_step, handle, after,
  step, run,
}
use ascend_mssanitizer.PipeLine.Position.{at, next_device, run_go, front-ne-none}

-- Two devices that share the queues `qs`: some events are left, all of them on the first.
pub record SecondDrained (c : EventContainer) : Type 0 where
  pub two : c.device_num ≡ 2
  pub left : are_all_empty c.ques ≡ false
  pub first :
      are_empty c.ques
        (u32 (0 * c.max_block_num * pipe_count + 0 * pipe_count + 0))
        (c.max_block_num * pipe_count)
      ≡ false
  pub second :
      are_empty c.ques
        (u32 (1 * c.max_block_num * pipe_count + 0 * pipe_count + 0))
        (c.max_block_num * pipe_count)
      ≡ true

-- A machine at the first device, with no device counted as stuck.
abbrev AtFirst : EventContainer → Type 0
AtFirst c = (c.cur_device ≡ 0) × (c.stuck_device_num ≡ 0)

abbrev AtSecond : EventContainer → Type 0
AtSecond c = (c.cur_device ≡ 1) × (c.stuck_device_num ≤ 1) × (c.is_device_stuck ≡ false)

abbrev pub Circling : PipeState → EventContainer → Type 0
Circling check_all_device c = AtFirst c ⊎ AtSecond c
Circling check_cur_device c = AtFirst c ⊎ AtSecond c
Circling check_cur_block c = AtFirst c
Circling check_cur_pipe c = AtFirst c
Circling process_event c = AtFirst c × (is_cur_que_empty c ≡ false)
Circling exit c = ⊥
Circling exception c = ⊥

Circling-running : (s : PipeState) (c : EventContainer) → Circling s c → is_final s ≡ false
Circling-running exit c h = absurd h
Circling-running exception c h = absurd h
Circling-running _ c h = refl

switch_pipe-SecondDrained :
    {c : EventContainer}
    → SecondDrained c
    → AtFirst c
    → SecondDrained (switch_to_next_pipe c) × AtFirst (switch_to_next_pipe c)
unfolding switch_to_next_pipe
switch_pipe-SecondDrained s a = ground arith

switch_block-SecondDrained :
    {c : EventContainer}
    → SecondDrained c
    → AtFirst c
    → SecondDrained (switch_to_next_block c) × AtFirst (switch_to_next_block c)
unfolding switch_to_next_block
switch_block-SecondDrained s a = ground arith

first_full :
    (c : EventContainer) → SecondDrained c → c.cur_device ≡ 0 → is_cur_device_empty c ≡ false
unfolding is_cur_device_empty flatten_pipe_idx
first_full c s e =
    subst
      (λ d.
        are_empty c.ques (u32 (d * c.max_block_num * pipe_count + 0 * pipe_count + 0))
          (c.max_block_num * pipe_count)
        ≡ false)
      (sym e) s.first

second_empty :
    (c : EventContainer) → SecondDrained c → c.cur_device ≡ 1 → is_cur_device_empty c ≡ true
unfolding is_cur_device_empty flatten_pipe_idx
second_empty c s e =
    subst
      (λ d.
        are_empty c.ques (u32 (d * c.max_block_num * pipe_count + 0 * pipe_count + 0))
          (c.max_block_num * pipe_count)
        ≡ true)
      (sym e) s.second

-- From the first device to the second, with one device counted as stuck.
leave_first :
    (c : EventContainer)
    → SecondDrained c
    → AtFirst c
    → c.is_device_stuck ≡ true
    → (is_all_device_stuck (check_cur_device_stuck c) ≡ false)
      × SecondDrained (next_device c)
      × AtSecond (next_device c)
unfolding is_all_device_stuck check_cur_device_stuck switch_to_next_device
leave_first c s a e = ground arith

-- And back, with the count at zero again.
leave_second :
    (c : EventContainer)
    → SecondDrained c
    → AtSecond c
    → (is_all_device_stuck (check_cur_device_stuck c) ≡ false)
      × SecondDrained (next_device c)
      × AtFirst (next_device c)
unfolding is_all_device_stuck check_cur_device_stuck switch_to_next_device
leave_second c s a = ground arith

first_switch :
    (c : EventContainer)
    → SecondDrained c
    → AtFirst c
    → is_need_switch_next_device c ≡ true
    → c.is_device_stuck ≡ true
unfolding is_need_switch_next_device
first_switch c s a e = ground (arith, first_full c s a.0)

second_switch :
    (c : EventContainer) → SecondDrained c → AtSecond c → is_need_switch_next_device c ≡ true
unfolding is_need_switch_next_device
second_switch c s a = ground (arith, second_empty c s a.0)

-- `Run` stands at a queue of the container `c0`, whose queues are as they were.
pub record StandsIn (c0 c : EventContainer) : Type 0 where
  pub same_ques : c.ques ≡ c0.ques
  pub same_blocks : c.max_block_num ≡ c0.max_block_num
  pub pipe_in : c.cur_pipe < pipe_count
  pub block_in : c.cur_block < c.max_block_num

module _ (c0 : EventContainer) where
  pipe-StandsIn : {c : EventContainer} → StandsIn c0 c → StandsIn c0 (switch_to_next_pipe c)
  unfolding switch_to_next_pipe
  pipe-StandsIn p = ground arith

  block-StandsIn : {c : EventContainer} → StandsIn c0 c → StandsIn c0 (switch_to_next_block c)
  unfolding switch_to_next_block
  block-StandsIn {c} p =
      let some_block : 0 < c.max_block_num = omega (arith, p.block_in) in
      ground (arith, mod-lt (u32 (c.cur_block + 1)) some_block)

  device-StandsIn : {c : EventContainer} → StandsIn c0 c → StandsIn c0 (next_device c)
  unfolding check_cur_device_stuck switch_to_next_device
  device-StandsIn p = ground arith

module _ {R : Type 0} (f : Handler R) (c0 : EventContainer) (r0 : R) where
  -- In the state `r0` the handler stalls on whatever stands at the front of a queue of the first device, and
  -- leaves the container and the state.
  pub record Stalls : Type 0 where
    pub stalled :
        (e : SanEvent) (c : EventContainer)
        → StandsIn c0 c
        → c.cur_device ≡ 0
        → front c ≡ some e
        → f e c r0 ≡ record { ret = process_stalled; events = c; rest = r0 }

  abbrev Circles : Machine R → Type 0
  Circles m =
      (SecondDrained m.events × Circling m.state m.events) × StandsIn c0 m.events × (m.rest ≡ r0)

  module _ (q : Stalls) where
    circle_device :
        (c : EventContainer)
        → SecondDrained c
        → StandsIn c0 c
        → AtFirst c ⊎ AtSecond c
        → Circles (check_cur_device_step (at check_cur_device c r0))
    unfolding check_cur_device_step
    circle_device c s p (inl a) = elim (Bool-cases (is_need_switch_next_device c)) [
      | inr e ↦ rw e ((s, a), p, refl)
      | inl e ↦
          let moved = leave_first c s a (first_switch c s a e) in
          rw (e, moved.0) ((moved.1, inr moved.2), device-StandsIn c0 p, refl)
    ]
    circle_device c s p (inr a) =
        let moved = leave_second c s a in
        rw (second_switch c s a, moved.0) ((moved.1, inl moved.2), device-StandsIn c0 p, refl)

    circle_block :
        (c : EventContainer)
        → SecondDrained c
        → StandsIn c0 c
        → AtFirst c
        → Circles (check_cur_block_step (at check_cur_block c r0))
    unfolding check_cur_block_step
    circle_block c s p a = elim (Bool-cases (is_need_switch_next_block c)) [
      | inr e ↦ rw e ((s, a), p, refl)
      | inl e ↦
          let moved = switch_block-SecondDrained s a in
          rw e ((moved.0, inl moved.1), block-StandsIn c0 p, refl)
    ]

    circle_pipe :
        (c : EventContainer)
        → SecondDrained c
        → StandsIn c0 c
        → AtFirst c
        → Circles (check_cur_pipe_step (at check_cur_pipe c r0))
    unfolding check_cur_pipe_step
    circle_pipe c s p a = elim (Bool-cases (is_cur_que_empty c)) [
      | inr e ↦ rw e ((s, (a, e)), p, refl)
      | inl e ↦ rw e (switch_pipe-SecondDrained s a, pipe-StandsIn c0 p, refl)
    ]

    circle_event :
        (o : Option SanEvent) (c : EventContainer)
        → front c ≡ o
        → SecondDrained c
        → StandsIn c0 c
        → AtFirst c × (is_cur_que_empty c ≡ false)
        → Circles (handle o (some f) (at process_event c r0))
    unfolding handle after
    circle_event none c e s p a = absurd (front-ne-none c a.1 e)
    circle_event (some e) c fr s p a =
        rw (q.stalled e c p a.0.0 fr) (switch_pipe-SecondDrained s a.0, pipe-StandsIn c0 p, refl)

    circle_step :
        (s : PipeState) (c : EventContainer)
        → Circles (at s c r0)
        → Circles (step (some f) (at s c r0))
    unfolding step process_step check_all_device_step
    circle_step check_all_device c ((s, a), p, k) = rw s.left ((s, a), p, refl)
    circle_step check_cur_device c ((s, a), p, k) = circle_device c s p a
    circle_step check_cur_block c ((s, a), p, k) = circle_block c s p a
    circle_step check_cur_pipe c ((s, a), p, k) = circle_pipe c s p a
    circle_step process_event c ((s, a), p, k) = circle_event (front c) c refl s p a
    circle_step exit c ((s, a), p, k) = absurd a
    circle_step exception c ((s, a), p, k) = absurd a

    any_step : (m : Machine R) → Circles m → Circles (step (some f) m)
    any_step m h =
        subst
          (λ r. Circles (at m.state m.events r) → Circles (step (some f) (at m.state m.events r)))
          (sym h.2) (circle_step m.state m.events) h

    circle_run : (n : ℕ) (m : Machine R) → Circles m → is_final (run n (some f) m).state ≡ false
    circle_run zero m h = unfold run in Circling-running m.state m.events h.0.1
    circle_run (suc n) m h =
        subst (λ x. is_final x.state ≡ false)
          (sym (run_go n (some f) m (Circling-running m.state m.events h.0.1)))
          (circle_run n (step (some f) m) (any_step m h))

    -- With two devices, the second of them drained, and a handler that, in the state at the start, stalls on
    -- whatever stands at the front of a queue of the first device: however many rounds `Run` is given from
    -- the first device on, it stands neither at the exit nor at the exception.
    pub run-never_ends :
        (n : ℕ)
        → SecondDrained c0
        → c0.cur_device ≡ 0
        → c0.stuck_device_num ≡ 0
        → c0.cur_pipe < pipe_count
        → c0.cur_block < c0.max_block_num
        → is_final (run n (some f) (start c0 r0)).state ≡ false
    run-never_ends n s d k pipe block = circle_run n (start c0 r0) (
      (s, inl (d, k)),
      record { same_ques = refl; same_blocks = refl; pipe_in = pipe; block_in = block },
      refl,
    )
