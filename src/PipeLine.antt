-- ===== src/PipeLine.antt =====
-- csrc/race_sanitizer/alg_framework/pipe_line.cpp: class PipeLine, the round-robin machine that
-- takes events off the queues of an `EventContainer` and hands them to a handler. The handler is
-- a method of a race algorithm; it may push events and change the rest of that algorithm's state,
-- which is the `R` of this module.
pub mod Measure
pub mod Position
pub mod Progress
pub mod Termination
pub mod Livelock
use ascend_mssanitizer.Base.{ℕ, zero, suc, Bool, true, false, Option, none, some, if◌then◌else◌}
use ascend_mssanitizer.Event.{SanEvent}
use ascend_mssanitizer.Container.{
  EventContainer, is_container_empty, is_need_switch_next_device, check_cur_device_stuck,
  is_all_device_stuck, switch_to_next_device, is_need_switch_next_block, switch_to_next_block,
  is_cur_que_empty, switch_to_next_pipe, front, pop,
}

pub data ReturnType : Type 0 where
  process_ok process_stalled : ReturnType

pub data PipeState : Type 0 where
  check_all_device check_cur_device check_cur_block check_cur_pipe process_event : PipeState
  exit exception : PipeState

-- What a handler leaves: its verdict, the container, and the rest of the state.
pub record Handled (R : Type 0) : Type 0 where
  pub ret : ReturnType
  pub events : EventContainer
  pub rest : R

abbrev pub Handler : Type 0 → Type 0
Handler R = SanEvent → EventContainer → R → Handled R

pub record Machine (R : Type 0) : Type 0 where
  pub events : EventContainer
  pub rest : R
  pub state : PipeState

abbrev pub is_final : PipeState → Bool
is_final exit = true
is_final exception = true
is_final _ = false

abbrev pub start : {R : Type 0} → EventContainer → R → Machine R
start c r = record { events = c; rest = r; state = check_all_device }

module _ {R : Type 0} where
  unfoldable pub check_all_device_step : Machine R → Machine R
  check_all_device_step m = record m {
    state = if is_container_empty m.events then exit else check_cur_device;
  }

  unfoldable pub check_cur_device_step : Machine R → Machine R
  check_cur_device_step m =
      let checked = check_cur_device_stuck m.events in
      if is_need_switch_next_device m.events
      then (if is_all_device_stuck checked
          then record m { events = checked; state = exception }
          else record m { events = switch_to_next_device checked; state = check_all_device })
      else record m { state = check_cur_block }

  unfoldable pub check_cur_block_step : Machine R → Machine R
  check_cur_block_step m =
      if is_need_switch_next_block m.events
      then record m { events = switch_to_next_block m.events; state = check_cur_device }
      else record m { state = check_cur_pipe }

  unfoldable pub check_cur_pipe_step : Machine R → Machine R
  check_cur_pipe_step m =
      if is_cur_que_empty m.events
      then record m { events = switch_to_next_pipe m.events; state = check_cur_block }
      else record m { state = process_event }

  -- After the handler: its event leaves the queue, or the machine turns to the next pipe.
  unfoldable pub after : ReturnType → EventContainer → R → Machine R
  after process_ok c r = record { events = pop c; rest = r; state = check_cur_pipe }
  after process_stalled c r = record {
    events = switch_to_next_pipe c;
    rest = r;
    state = check_cur_block;
  }

  unfoldable pub handle : Option SanEvent → Option (Handler R) → Machine R → Machine R
  unfolding after
  handle (some e) (some f) m = let h = f e m.events m.rest in after h.ret h.events h.rest
  handle _ _ m = record m { state = exception }

  -- `Process`. Its `Front` is of a queue that is not empty.
  unfoldable pub process_step : Option (Handler R) → Machine R → Machine R
  unfolding handle
  process_step f m = handle (front m.events) f m

  abbrev dispatch : PipeState → Option (Handler R) → Machine R → Machine R
  dispatch check_all_device f m = check_all_device_step m
  dispatch check_cur_device f m = check_cur_device_step m
  dispatch check_cur_block f m = check_cur_block_step m
  dispatch check_cur_pipe f m = check_cur_pipe_step m
  dispatch process_event f m = process_step f m
  dispatch _ f m = record m { state = exception }

  -- One round of the loop of `Run`.
  unfoldable pub step : Option (Handler R) → Machine R → Machine R
  step f m = dispatch m.state f m

  -- `Run` with fuel: at most `n` rounds.
  unfoldable pub run : ℕ → Option (Handler R) → Machine R → Machine R
  unfolding step
  run zero f m = m
  run (suc n) f m = elim (is_final m.state) [ true ↦ m | false ↦ run n f (step f m) ]
