-- ===== src/PipeLine/Position.antt =====
-- Where the machine of csrc/race_sanitizer/alg_framework/pipe_line.cpp stands on one device, and
-- what its switches keep of that.
use ascend_mssanitizer.Base.{
  ℕ, zero, suc, ◌*◌, ◌^◌, ◌≤◌, ◌<◌, ◌≡◌, refl, ◌⊎◌, inl, inr, true, false, Option, none, List,
  arith, length, length-set, pop_front, ◌≢◌, subst, sym,
}
use ascend_mssanitizer.Event.{SanEvent, pipe_count}
use ascend_mssanitizer.Container.{
  EventContainer, is_container_empty, is_need_switch_next_device, is_need_switch_next_block,
  is_all_device_stuck, check_cur_device_stuck, switch_to_next_device, switch_to_next_block,
  switch_to_next_pipe, is_cur_que_empty, front, pop, que_index, queue_at,
}
use ascend_mssanitizer.PipeLine.{exit, exception, Handler, Machine, is_final, step, run, PipeState}
use ascend_mssanitizer.PipeLine.Measure.{is_container_empty_of_device, next_mod}

abbrev pub Queues : Type 0
Queues = List (List SanEvent)

-- The one device, with the machine's position in range.
pub record IsPlaced (c : EventContainer) : Type 0 where
  pub one_device : c.device_num ≡ 1
  pub device_is : c.cur_device ≡ 0
  pub unstuck : c.stuck_device_num ≡ 0
  pub pipe_in : c.cur_pipe < pipe_count
  pub block_in : c.cur_block < c.max_block_num
  pub small : c.max_block_num < 2 ^ 32
  pub fits : length c.ques ≤ c.max_block_num * pipe_count

pub switch_pipe-IsPlaced : {c : EventContainer} → IsPlaced c → IsPlaced (switch_to_next_pipe c)
unfolding switch_to_next_pipe
switch_pipe-IsPlaced v = ground arith

pub switch_block-IsPlaced : {c : EventContainer} → IsPlaced c → IsPlaced (switch_to_next_block c)
unfolding switch_to_next_block
switch_block-IsPlaced {c} v = ground (arith, next_mod c.cur_block c.max_block_num)

pub pop-IsPlaced : {c : EventContainer} → IsPlaced c → IsPlaced (pop c)
unfolding pop
pop-IsPlaced {c} v =
    ground (arith, length-set c.ques (que_index c) (pop_front (queue_at c (que_index c))))

pub queues-IsPlaced :
    {c : EventContainer} (qs : Queues)
    → length qs ≡ length c.ques
    → IsPlaced c
    → IsPlaced (record c { ques = qs })
queues-IsPlaced qs e v = ground arith

pub stay_device-free :
    (c : EventContainer) → is_need_switch_next_device c ≡ false → c.is_device_stuck ≡ false
unfolding is_need_switch_next_device
stay_device-free c e = ground arith

pub stay_block-free :
    (c : EventContainer) → is_need_switch_next_block c ≡ false → c.is_block_stuck ≡ false
unfolding is_need_switch_next_block
stay_block-free c e = ground arith

abbrev pub next_device : EventContainer → EventContainer
next_device c = switch_to_next_device (check_cur_device_stuck c)

pub next_device-Turns :
    (c : EventContainer)
    → ((next_device c).ques ≡ c.ques) × ((next_device c).max_block_num ≡ c.max_block_num)
unfolding switch_to_next_device check_cur_device_stuck
next_device-Turns c = ground arith

pub next_device-IsPlaced :
    {c : EventContainer}
    → IsPlaced c
    → is_all_device_stuck (check_cur_device_stuck c) ≡ false
    → IsPlaced (next_device c)
unfolding switch_to_next_device check_cur_device_stuck is_all_device_stuck
next_device-IsPlaced v e = ground arith

-- The only device is left unstuck just when it is drained.
pub drained :
    (c : EventContainer)
    → IsPlaced c
    → is_need_switch_next_device c ≡ true
    → is_all_device_stuck (check_cur_device_stuck c) ≡ false
    → is_container_empty c ≡ true
unfolding is_need_switch_next_device is_all_device_stuck check_cur_device_stuck
drained c v e s = is_container_empty_of_device c v.device_is v.fits (ground arith)

-- `Run` is over: every queue is empty, or the machine gave up with the device marked as stuck,
-- after a round over its blocks in which no event was taken off.
abbrev pub Ended : {R : Type 0} → Machine R → Type 0
Ended m =
    ((m.state ≡ exit) × (is_container_empty m.events ≡ true))
    ⊎ ((m.state ≡ exception) × (m.events.is_device_stuck ≡ true))

pub Ended-final : {R : Type 0} (m : Machine R) → Ended m → is_final m.state ≡ true
Ended-final m (inl e) = rw (e.0)
Ended-final m (inr e) = rw (e.0)

-- A machine in a given state.
abbrev pub at : {R : Type 0} → PipeState → EventContainer → R → Machine R
at s c r = record { events = c; rest = r; state = s }

module _ {R : Type 0} where
  pub run_stop :
      (n : ℕ) (f : Option (Handler R)) (m : Machine R) → is_final m.state ≡ true → run n f m ≡ m
  unfolding run
  run_stop zero f m e = refl
  run_stop (suc n) f m e =
      subst (λ b. (elim b as (λ _. Machine R) [ true ↦ m | false ↦ run n f (step f m) ]) ≡ m)
        (sym e) refl

  pub run_go :
      (n : ℕ) (f : Option (Handler R)) (m : Machine R)
      → is_final m.state ≡ false
      → run (suc n) f m ≡ run n f (step f m)
  unfolding run
  run_go n f m e =
      subst
        (λ b.
          (elim b as (λ _. Machine R) [ true ↦ m | false ↦ run n f (step f m) ])
          ≡ run n f (step f m))
        (sym e) refl

-- What an exception means on the only device.
pub halted_stuck :
    (c : EventContainer)
    → IsPlaced c
    → is_all_device_stuck (check_cur_device_stuck c) ≡ true
    → (check_cur_device_stuck c).is_device_stuck ≡ true
unfolding is_all_device_stuck check_cur_device_stuck
halted_stuck c v s = ground arith

pub front-ne-none : (c : EventContainer) → is_cur_que_empty c ≡ false → front c ≢ none
unfolding is_cur_que_empty front
front-ne-none c e h = ground arith
