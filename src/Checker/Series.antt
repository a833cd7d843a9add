-- ===== src/Checker/Series.antt =====
-- csrc/race_sanitizer/alg_framework/mem_series.cpp: the blocks of a strided access, handed out from
-- left to right with touching ones merged. The priority queue is a list, whose least element is its
-- top.
use ascend_mssanitizer.Base.{
  ◌-◌, List, ℕ, none, ◌==◌, ◌&&◌, some, suc, Option, ltb, leb, [], false, Bool, zero, if◌then◌else◌,
  true, ◌+◌, ◌∷◌, ◌*◌, ◌||◌,
}
use ascend_mssanitizer.Event.{MemOpInfo}
use ascend_mssanitizer.Base.Words.{u64, u32}

pub record Interval : Type 0 where
  pub start : ℕ
  pub end : ℕ

pub record BlkSeries : Type 0 where
  pub addr : ℕ
  pub block_size : ℕ
  pub last_block_size : ℕ
  pub block_stride : ℕ
  pub block_num : ℕ
  pub cur_block_idx : ℕ

-- `UpdateCurItv` and `GetCurItv`. `blockNum_ - 1` wraps on 0, where no index meets it.
unfoldable pub cur_itv : BlkSeries → Interval
cur_itv b =
    let start = u64 (b.addr + b.cur_block_idx * b.block_size * b.block_stride) in
    let last = b.cur_block_idx + 1 == b.block_num in
    record { start = start; end = u64 (start + (if last then b.last_block_size else b.block_size)) }

-- `Move2NextItv`: `none` for its `false`.
unfoldable pub move_to_next_itv : BlkSeries → Option BlkSeries
move_to_next_itv b =
    if leb b.block_num (b.cur_block_idx + 1)
    then none
    else some (record b { cur_block_idx = b.cur_block_idx + 1 })

-- What the queue holds for a repeat: its series, at the block whose interval is queued. The `idx` of
-- the source leads to that series.
abbrev pub MemSeries : Type 0
MemSeries = List BlkSeries

-- `Greater`, turned round.
abbrev pub itv_before : Interval → Interval → Bool
itv_before a b = ltb a.start b.start || ((a.start == b.start) && ltb a.end b.end)

-- The top of the queue, and the rest of it.
unfoldable pub top_of : BlkSeries → MemSeries → BlkSeries × MemSeries
top_of b [] = (b, [])
top_of b (c ∷ cs) =
    let (d, ds) = top_of c cs in
    if itv_before (cur_itv d) (cur_itv b) then (d, b ∷ ds) else (b, c ∷ cs)

-- The repeats from number `i` on, `n` of them.
unfoldable pub repeats : MemOpInfo → ℕ → ℕ → MemSeries
repeats m i zero = []
repeats m i (suc n) =
    record {
      addr = u64 (m.addr + i * u32 (m.repeat_stride * m.block_size));
      block_size = m.block_size;
      last_block_size = m.block_size;
      block_stride = m.block_stride;
      block_num = m.block_num;
      cur_block_idx = 0;
    }
    ∷ repeats m (suc i) n

-- The constructor of MemSeries.
unfoldable pub mem_series : MemOpInfo → MemSeries
unfolding repeats
mem_series m = repeats m 0 m.repeat_times

abbrev pub push_next : Option BlkSeries → MemSeries → MemSeries
push_next none s = s
push_next (some b) s = b ∷ s

-- The loop of `GetNextItv`: the end of the merged interval, and what is left. A round takes one block
-- off, so a number of rounds that is not below the number of blocks is enough.
unfoldable pub extend : ℕ → ℕ → MemSeries → ℕ × MemSeries
unfolding top_of cur_itv move_to_next_itv
extend zero ext s = (ext, s)
extend (suc n) ext [] = (ext, [])
extend (suc n) ext (b ∷ bs) =
    let (t, ts) = top_of b bs in
    elim (leb (cur_itv t).start ext) [
      | true ↦ extend n (cur_itv t).end (push_next (move_to_next_itv t) ts)
      | false ↦ (ext, b ∷ bs)
    ]

-- The blocks that a series has still to hand out.
unfoldable pub blocks_left : MemSeries → ℕ
blocks_left [] = 0
blocks_left (b ∷ bs) = (suc (b.block_num - (b.cur_block_idx + 1))) + blocks_left bs

-- `GetNextItv`: `none` for its `false`.
unfoldable pub next_itv : MemSeries → Option (Interval × MemSeries)
unfolding extend blocks_left
next_itv [] = none
next_itv (b ∷ bs) =
    let left_most = (cur_itv (top_of b bs).0).start in
    let (ext, left) = extend (blocks_left (b ∷ bs)) left_most (b ∷ bs) in
    some (record { start = left_most; end = ext }, left)
