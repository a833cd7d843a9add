-- ===== src/PipeLine/Progress.antt =====
-- The interface of a handler that makes progress, `Drains`, and the rounds of
-- csrc/race_sanitizer/alg_framework/pipe_line.cpp that do not call the handler.
use mathlib.Core.Path.{ap₂}
use ascend_mssanitizer.Base.{
  ℕ, suc, ◌+◌, ◌*◌, ◌≤◌, ◌<◌, ◌≡◌, refl, ◌⊎◌, inl, inr, true, false, some, arith, length,
  Bool-cases, if◌then◌else◌, ◌∙◌,
}
use ascend_mssanitizer.Event.{SanEvent}
use ascend_mssanitizer.Container.{
  EventContainer, is_container_empty, is_need_switch_next_device, is_need_switch_next_block,
  is_all_device_stuck, check_cur_device_stuck, switch_to_next_block, switch_to_next_pipe,
  is_cur_que_empty, front, pop,
}
use ascend_mssanitizer.PipeLine.{
  ReturnType, process_ok, process_stalled, PipeState, check_all_device, check_cur_device,
  check_cur_block, check_cur_pipe, process_event, exit, exception, Handler, Machine, is_final,
  check_all_device_step, check_cur_device_step, check_cur_block_step, check_cur_pipe_step,
}
use ascend_mssanitizer.PipeLine.Measure.{
  block_rounds, pipe_rounds, pipe_rounds-switch, block_rounds-switch, switch_pipe-Turns,
  switch_block-Turns,
}
use ascend_mssanitizer.PipeLine.Position.{
  at, Queues, IsPlaced, switch_pipe-IsPlaced, switch_block-IsPlaced, stay_device-free,
  stay_block-free, next_device, next_device-Turns, next_device-IsPlaced, drained, halted_stuck,
  Ended,
}

module _ {R : Type 0} (Good : ℕ → Queues → R → Type 0) (load : Queues → ℕ) where
  -- What a verdict of the handler promises of the queues `qs` that it left in `c`.
  abbrev pub Progress : ReturnType → EventContainer → Queues → R → Type 0
  Progress process_ok c qs r =
      Good c.max_block_num (pop (record c { ques = qs })).ques r
      × (load (pop (record c { ques = qs })).ques < load c.ques)
  Progress process_stalled c qs r = Good c.max_block_num qs r × (load qs ≤ load c.ques)

  -- A handler that touches nothing of the container but its queues, keeps `Good`, and takes work
  -- off whenever it reports success.
  pub record Drains (f : Handler R) : Type 0 where
    pub handled :
        (e : SanEvent) (c : EventContainer) (r : R)
        → IsPlaced c
        → front c ≡ some e
        → Good c.max_block_num c.ques r
        → (qs : Queues) × ((f e c r).events ≡ record c { ques = qs })
          × (length qs ≡ length c.ques)
          × Progress (f e c r).ret c qs (f e c r).rest

  pub work : EventContainer → ℕ
  work c = load c.ques * (128 * c.max_block_num + 200) + block_rounds c * 64 + pipe_rounds c * 4

  pub work_turn :
      (c d : EventContainer)
      → d.ques ≡ c.ques
      → d.max_block_num ≡ c.max_block_num
      → work d
        ≡ load c.ques * (128 * c.max_block_num + 200) + block_rounds d * 64 + pipe_rounds d * 4
  unfolding work
  work_turn c d q b =
      ap₂ (λ x n. load x * (128 * n + 200) + block_rounds d * 64 + pipe_rounds d * 4) q b

  abbrev pub cost : PipeState → EventContainer → ℕ
  cost check_all_device c = if is_container_empty c then 0 else work c + 4
  cost check_cur_device c = work c + 3
  cost check_cur_block c = work c + 2
  cost check_cur_pipe c = work c + 1
  cost _ c = work c

  -- Enough fuel for `Run` from a machine.
  unfoldable pub fuel : Machine R → ℕ
  fuel m = suc (cost m.state m.events)

  abbrev pub Free : PipeState → EventContainer → Type 0
  Free check_cur_block c = c.is_device_stuck ≡ false
  Free check_cur_pipe c = (c.is_device_stuck ≡ false) × (c.is_block_stuck ≡ false)
  Free process_event c =
      (c.is_device_stuck ≡ false) × (c.is_block_stuck ≡ false) × (is_cur_que_empty c ≡ false)
  Free exit c = ⊥
  Free exception c = ⊥
  Free _ c = Unit {0}

  pub Free-running : (s : PipeState) (c : EventContainer) → Free s c → is_final s ≡ false
  Free-running exit c h = absurd h
  Free-running exception c h = absurd h
  Free-running _ c h = refl

  pub record Ready (m : Machine R) : Type 0 where
    pub placed : IsPlaced m.events
    pub good : Good m.events.max_block_num m.events.ques m.rest
    pub free : Free m.state m.events

  abbrev pub Advances : Machine R → Machine R → Type 0
  Advances m m' = Ended m' ⊎ (Ready m' × (cost m'.state m'.events < cost m.state m.events))

  pub advance_all :
      (c : EventContainer) (r : R)
      → IsPlaced c
      → Good c.max_block_num c.ques r
      → Advances (at check_all_device c r) (check_all_device_step (at check_all_device c r))
  unfolding check_all_device_step
  advance_all c r v g = elim (Bool-cases (is_container_empty c)) [
    | inl e ↦ rw e (inl (inl (refl, refl)))
    | inr e ↦ rw e (inr (record { placed = v; good = g; free = tt }, omega arith))
  ]

  pub advance_device :
      (c : EventContainer) (r : R)
      → IsPlaced c
      → Good c.max_block_num c.ques r
      → Advances (at check_cur_device c r) (check_cur_device_step (at check_cur_device c r))
  unfolding check_cur_device_step
  advance_device c r v g = elim (Bool-cases (is_need_switch_next_device c)) [
    | inr e ↦ rw e (inr (record { placed = v; good = g; free = stay_device-free c e }, omega arith))
    | inl e ↦ elim (Bool-cases (is_all_device_stuck (check_cur_device_stuck c))) [
      | inl s ↦ rw (e, s) (inl (inr (refl, halted_stuck c v s)))
      | inr s ↦
          let turns = next_device-Turns c in
          let empty : is_container_empty (next_device c) ≡ true = rw turns.0 (drained c v e s) in
          rw (e, s)
            (inr (
              record {
                placed = next_device-IsPlaced v s;
                good = rw (turns.0, turns.1) g;
                free = tt;
              },
              rw empty (omega arith),
            ))
    ]
  ]

  pub advance_block :
      (c : EventContainer) (r : R)
      → IsPlaced c
      → Good c.max_block_num c.ques r
      → c.is_device_stuck ≡ false
      → Advances (at check_cur_block c r) (check_cur_block_step (at check_cur_block c r))
  unfolding check_cur_block_step
  advance_block c r v g free = elim (Bool-cases (is_need_switch_next_block c)) [
    | inr e ↦
        rw e
          (inr (record { placed = v; good = g; free = (free, stay_block-free c e) }, omega arith))
    | inl e ↦
        let turns = switch_block-Turns c in
        let falls = block_rounds-switch c v.block_in v.small free in
        rw e (
          inr (
            record { placed = switch_block-IsPlaced v; good = rw (turns.0, turns.1) g; free = tt },
            omega (
              arith,
              falls,
              turns.2,
              work_turn c c refl refl,
              work_turn c (switch_to_next_block c) turns.0 turns.1,
            ),
          ))
  ]

  pub advance_pipe :
      (c : EventContainer) (r : R)
      → IsPlaced c
      → Good c.max_block_num c.ques r
      → c.is_device_stuck ≡ false
      → c.is_block_stuck ≡ false
      → Advances (at check_cur_pipe c r) (check_cur_pipe_step (at check_cur_pipe c r))
  unfolding check_cur_pipe_step
  advance_pipe c r v g free free' = elim (Bool-cases (is_cur_que_empty c)) [
    | inr e ↦ rw e (inr (record { placed = v; good = g; free = (free, free', e) }, omega arith))
    | inl e ↦
        let turns = switch_pipe-Turns c in
        let falls = pipe_rounds-switch c v.pipe_in free' in
        rw e (
          inr (
            record {
              placed = switch_pipe-IsPlaced v;
              good = rw (turns.0, turns.1) g;
              free = turns.2 ∙ free;
            },
            omega (
              arith,
              falls,
              turns.3,
              work_turn c c refl refl,
              work_turn c (switch_to_next_pipe c) turns.0 turns.1,
            ),
          ))
  ]
