-- ===== src/PipeLine/Measure.antt =====
-- A number that falls with every round of csrc/race_sanitizer/alg_framework/pipe_line.cpp on one
-- device: the work in the queues, then the block switches and the pipe switches that are left
-- before a stall is noticed.
use native.Mathlib.Nat.{mod-eq_of_lt, mod_self}
use ascend_mssanitizer.Base.{
  ℕ, zero, suc, ◌+◌, ◌-◌, ◌*◌, ◌%◌, ◌^◌, ◌≤◌, ◌<◌, ◌≡◌, refl, ◌∙◌, ap, ◌⊎◌, inl, inr, Bool, true,
  false, List, [], ◌∷◌, arith, ◌==◌, if◌then◌else◌, length, Bool-cases, ltb, ltb→lt, subst,
}
use ascend_mssanitizer.Base.Words.{u32, u32-small}
use ascend_mssanitizer.Event.{SanEvent, pipe_count}
use ascend_mssanitizer.Container.{
  EventContainer, is_container_empty, switch_to_next_block, switch_to_next_pipe, are_empty,
  are_all_empty, is_cur_device_empty, flatten_pipe_idx,
}

-- Rounds over `n` places, now at `i`, before a round with no event taken off is noticed.
pub rounds_left : Bool → ℕ → ℕ → ℕ → ℕ
rounds_left stuck i n pops = if stuck then 0 else (n - i) + (if pops == 0 then 0 else n)

pub block_rounds : EventContainer → ℕ
unfolding rounds_left
block_rounds c = rounds_left c.is_device_stuck c.cur_block c.max_block_num c.device_pop_count

pub pipe_rounds : EventContainer → ℕ
unfolding rounds_left
pipe_rounds c = rounds_left c.is_block_stuck c.cur_pipe pipe_count c.block_pop_count

pub rounds_left-le : (b : Bool) (i n p : ℕ) → rounds_left b i n p ≤ n + n
unfolding rounds_left
rounds_left-le b i n p = ground arith

pub next_mod :
    (b n : ℕ)
    → b < n
    → n < 2 ^ 32
    → ((u32 (b + 1) % n ≡ b + 1) × (b + 1 < n)) ⊎ ((u32 (b + 1) % n ≡ 0) × (b + 1 ≡ n))
next_mod b n h small = elim (Bool-cases (ltb (b + 1) n)) [
  | inl more ↦ inl (
    ap (λ (x : ℕ). x % n) (u32-small (b + 1) (ground arith)) ∙ mod-eq_of_lt (ltb→lt _ _ more),
    ltb→lt _ _ more,
  )
  | inr last ↦
      let wrap : b + 1 ≡ n = ground arith in
      inr (ap (λ (x : ℕ). x % n) (u32-small (b + 1) (omega arith)) ∙ rw wrap (mod_self n), wrap)
]

pub pipe_rounds-switch :
    (c : EventContainer)
    → c.cur_pipe < pipe_count
    → c.is_block_stuck ≡ false
    → pipe_rounds (switch_to_next_pipe c) < pipe_rounds c
unfolding pipe_rounds switch_to_next_pipe
pipe_rounds-switch c h stuck = ground arith

pub cur_pipe-switch : (c : EventContainer) → (switch_to_next_pipe c).cur_pipe < pipe_count
unfolding switch_to_next_pipe
cur_pipe-switch c = ground arith

pub block_rounds-switch :
    (c : EventContainer)
    → c.cur_block < c.max_block_num
    → c.max_block_num < 2 ^ 32
    → c.is_device_stuck ≡ false
    → block_rounds (switch_to_next_block c) < block_rounds c
unfolding block_rounds switch_to_next_block
block_rounds-switch c h small stuck = ground (arith, next_mod c.cur_block c.max_block_num h small)

are_empty-shift :
    (q : List SanEvent) (qs : List (List SanEvent)) (i n : ℕ)
    → are_empty (q ∷ qs) (suc i) n ≡ are_empty qs i n
unfolding are_empty
are_empty-shift q qs i zero = refl
are_empty-shift q qs i (suc n) = rw (are_empty-shift q qs (suc i) n)

are_empty-all :
    (qs : List (List SanEvent)) (n : ℕ)
    → length qs ≤ n
    → are_empty qs 0 n ≡ true
    → are_all_empty qs ≡ true
unfolding are_empty are_all_empty
are_empty-all [] n h e = refl
are_empty-all (q ∷ qs) zero h e = absurd (omega arith)
are_empty-all (q ∷ qs) (suc n) h e =
    ground (arith, are_empty-shift q qs 0 n, are_empty-all qs n (omega arith))

-- On the only device, its queues are all the queues.
pub is_container_empty_of_device :
    (c : EventContainer)
    → c.cur_device ≡ 0
    → length c.ques ≤ c.max_block_num * pipe_count
    → is_cur_device_empty c ≡ true
    → is_container_empty c ≡ true
unfolding is_cur_device_empty flatten_pipe_idx
is_container_empty_of_device c d h e =
    are_empty-all c.ques (c.max_block_num * pipe_count) h
      (subst (λ k. are_empty c.ques k (c.max_block_num * pipe_count) ≡ true) first e)
  where
    first : u32 (c.cur_device * c.max_block_num * pipe_count + 0 * pipe_count + 0) ≡ 0
    first = rw d (omega arith)

-- What the two switches leave alone.
pub switch_pipe-Turns :
    (c : EventContainer)
    → ((switch_to_next_pipe c).ques ≡ c.ques)
      × ((switch_to_next_pipe c).max_block_num ≡ c.max_block_num)
      × ((switch_to_next_pipe c).is_device_stuck ≡ c.is_device_stuck)
      × (block_rounds (switch_to_next_pipe c) ≡ block_rounds c)
unfolding switch_to_next_pipe block_rounds
switch_pipe-Turns c = ground arith

pub switch_block-Turns :
    (c : EventContainer)
    → ((switch_to_next_block c).ques ≡ c.ques)
      × ((switch_to_next_block c).max_block_num ≡ c.max_block_num)
      × (pipe_rounds (switch_to_next_block c) ≡ pipe_count)
unfolding switch_to_next_block pipe_rounds
switch_block-Turns c = ground arith

pub rounds-ques :
    (c : EventContainer) (qs : List (List SanEvent))
    → (block_rounds (record c { ques = qs }) ≡ block_rounds c)
      × (pipe_rounds (record c { ques = qs }) ≡ pipe_rounds c)
unfolding block_rounds pipe_rounds
rounds-ques c qs = (refl, refl)

pub rounds-le :
    (c : EventContainer)
    → (block_rounds c ≤ c.max_block_num + c.max_block_num) × (pipe_rounds c ≤ 24)
unfolding block_rounds pipe_rounds
rounds-le c = ground arith

pub mul_down : (a b w : ℕ) → a < b → a * w + w ≤ b * w
mul_down a b w h = grind arith

pub mul_le : (a b w : ℕ) → a ≤ b → a * w ≤ b * w
mul_le a b w h = grind arith
