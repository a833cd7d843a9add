-- ===== src/Container.antt =====
-- csrc/race_sanitizer/alg_framework/event_container.cpp: class EventContainer. `ques_` has a queue
-- for each pipe of each block of each device.
use ascend_mssanitizer.Base.{
  ℕ, zero, suc, ◌+◌, ◌*◌, ◌%◌, Bool, true, false, ◌&&◌, ◌||◌, Option, none, some, List, [], ◌∷◌,
  ◌++◌, ◌==◌, leb, if◌then◌else◌, get_or, set, replicate, is_empty, pop_front, length,
}
use ascend_mssanitizer.Base.Words.{u32}
use ascend_mssanitizer.Event.{
  PipeType, pipe_index, pipe_count, AccessType, read, write, memcpy_blocks, EventInfo, mem_event,
  MemOpInfo, SanEvent,
}

pub record EventContainer : Type 0 where
  pub ques : List (List SanEvent)
  pub device_num : ℕ
  pub max_block_num : ℕ
  pub block_pop_count : ℕ
  pub device_pop_count : ℕ
  pub is_block_stuck : Bool
  pub is_device_stuck : Bool
  pub stuck_device_num : ℕ
  pub cur_pipe : ℕ
  pub cur_block : ℕ
  pub cur_device : ℕ

-- `Init` on a new container.
unfoldable pub init : ℕ → ℕ → EventContainer
init block_num device_num = record {
  ques = replicate (u32 (device_num * block_num * pipe_count)) [];
  device_num = device_num;
  max_block_num = block_num;
  block_pop_count = 0;
  device_pop_count = 0;
  is_block_stuck = false;
  is_device_stuck = false;
  stuck_device_num = 0;
  cur_pipe = 0;
  cur_block = 0;
  cur_device = 0;
}

unfoldable pub flatten_pipe_idx : EventContainer → ℕ → ℕ → ℕ → ℕ
flatten_pipe_idx c pipe block device =
    u32 (device * c.max_block_num * pipe_count + block * pipe_count + pipe)

abbrev pub with_op : SanEvent → MemOpInfo → AccessType → SanEvent
with_op e m a = record e { info = mem_event (record m { op_type = a }) }

abbrev pub entries_of_mem : SanEvent → MemOpInfo → AccessType → List SanEvent
entries_of_mem e m memcpy_blocks = with_op e m read ∷ with_op e m write ∷ []
entries_of_mem e m _ = e ∷ []

abbrev pub entries_of_info : SanEvent → EventInfo → List SanEvent
entries_of_info e (mem_event m) = entries_of_mem e m m.op_type
entries_of_info e _ = e ∷ []

-- What `Push` queues for an event: a block copy becomes a read and a write.
abbrev pub entries : SanEvent → List SanEvent
entries e = entries_of_info e e.info

-- `ques_[i]`
abbrev pub queue_at : EventContainer → ℕ → List SanEvent
queue_at c i = get_or c.ques i []

unfoldable pub push : SanEvent → PipeType → ℕ → ℕ → EventContainer → EventContainer
unfolding flatten_pipe_idx
push e pipe block device c =
    if leb c.max_block_num block
    then c
    else if leb c.device_num device
    then c
    else record c { ques = set c.ques i (queue_at c i ++ entries e) }
  where
    i : ℕ
    i = flatten_pipe_idx c (pipe_index pipe) block device

-- `GetQueIndex`
unfoldable pub que_index : EventContainer → ℕ
que_index c = flatten_pipe_idx c c.cur_pipe c.cur_block c.cur_device

abbrev pub head_of : List SanEvent → Option SanEvent
head_of [] = none
head_of (e ∷ _) = some e

-- `Front`, which the source calls on a queue that is not empty.
unfoldable pub front : EventContainer → Option SanEvent
front c = head_of (queue_at c (que_index c))

unfoldable pub pop : EventContainer → EventContainer
pop c = record c {
  block_pop_count = u32 (c.block_pop_count + 1);
  device_pop_count = u32 (c.device_pop_count + 1);
  ques = set c.ques (que_index c) (pop_front (queue_at c (que_index c)));
}

unfoldable pub is_cur_que_empty : EventContainer → Bool
is_cur_que_empty c = is_empty (queue_at c (que_index c))

-- The loop over the `n` queues from number `i` on.
unfoldable pub are_empty : List (List SanEvent) → ℕ → ℕ → Bool
are_empty qs i zero = true
are_empty qs i (suc n) = is_empty (get_or qs i []) && are_empty qs (suc i) n

unfoldable pub is_cur_block_empty : EventContainer → Bool
unfolding are_empty
is_cur_block_empty c = are_empty c.ques (flatten_pipe_idx c 0 c.cur_block c.cur_device) pipe_count

unfoldable pub is_cur_device_empty : EventContainer → Bool
unfolding are_empty
is_cur_device_empty c =
    are_empty c.ques (flatten_pipe_idx c 0 0 c.cur_device) (c.max_block_num * pipe_count)

unfoldable pub is_need_switch_next_block : EventContainer → Bool
is_need_switch_next_block c = if c.is_block_stuck then true else is_cur_block_empty c

unfoldable pub is_need_switch_next_device : EventContainer → Bool
is_need_switch_next_device c = c.is_device_stuck || is_cur_device_empty c

unfoldable pub are_all_empty : List (List SanEvent) → Bool
are_all_empty [] = true
are_all_empty (q ∷ qs) = is_empty q && are_all_empty qs

-- `IsEmpty`
abbrev pub is_container_empty : EventContainer → Bool
is_container_empty c = are_all_empty c.ques

unfoldable pub check_cur_device_stuck : EventContainer → EventContainer
check_cur_device_stuck c =
    if c.is_device_stuck
    then record c { stuck_device_num = u32 (c.stuck_device_num + 1) }
    else record c { stuck_device_num = 0 }

unfoldable pub is_all_device_stuck : EventContainer → Bool
is_all_device_stuck c = c.stuck_device_num == c.device_num

unfoldable pub switch_to_next_device : EventContainer → EventContainer
switch_to_next_device c = record c {
  cur_device = u32 (c.cur_device + 1) % c.device_num;
  cur_block = 0;
  cur_pipe = 0;
  block_pop_count = 0;
  device_pop_count = 0;
  is_block_stuck = false;
  is_device_stuck = false;
}

unfoldable pub switch_to_next_block : EventContainer → EventContainer
switch_to_next_block c =
    let next = u32 (c.cur_block + 1) % c.max_block_num in
    let stuck = c.device_pop_count == 0 in
    let moved = record c {
      cur_block = next;
      cur_pipe = 0;
      block_pop_count = 0;
      is_block_stuck = false;
    } in
    if next == 0
    then record moved {
      is_device_stuck = stuck;
      stuck_device_num = if stuck then c.stuck_device_num else 0;
      device_pop_count = 0;
    }
    else moved

unfoldable pub switch_to_next_pipe : EventContainer → EventContainer
switch_to_next_pipe c =
    let next = u32 (c.cur_pipe + 1) % pipe_count in
    let moved = record c { cur_pipe = next } in
    if next == 0
    then record moved { is_block_stuck = c.block_pop_count == 0; block_pop_count = 0 }
    else moved

-- `GetAllQueSize`
unfoldable pub all_que_size : List (List SanEvent) → ℕ
all_que_size [] = 0
all_que_size (q ∷ qs) = length q + all_que_size qs
