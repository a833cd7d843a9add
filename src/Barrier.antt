-- ===== src/Barrier.antt =====
-- csrc/race_sanitizer/alg_framework/barrier_database.hpp: class BarrierEvent, a barrier that first
-- gathers workers and then releases them one by one.
pub mod Rounds
use ascend_mssanitizer.Base.{
  ℕ, Bool, true, false, ◌||◌, Option, none, some, List, [], ◌∷◌, leb, if◌then◌else◌, length,
  is_empty,
}
use ascend_mssanitizer.Base.Assoc.{Eq}
use ascend_mssanitizer.Clock.{update_vector_time}
use ascend_mssanitizer.Event.{VectorTime}

pub record BarrierEvent (W : Type 0) : Type 0 where
  pub all_reach_barrier : Bool
  pub vt_global : VectorTime
  pub reached_workers : List W

-- The member initialisers, and the state to which a barrier returns.
abbrev pub fresh : {W : Type 0} → BarrierEvent W
fresh = record { all_reach_barrier = false; vt_global = []; reached_workers = [] }

-- The first arrival's time is copied to the global one, a later one is joined to it.
abbrev pub join_time : VectorTime → VectorTime → VectorTime
join_time self [] = self
join_time self (x ∷ xs) = update_vector_time self (x ∷ xs)

module _ {W : Type 0} ⦃q : Eq W⦄ where
  unfoldable pub contains : W → List W → Bool
  contains w [] = false
  contains w (x ∷ xs) = q.beq x w || contains w xs

  -- `insert` and `erase` of std::unordered_set.
  unfoldable pub insert_worker : W → List W → List W
  unfolding contains
  insert_worker w ws = if contains w ws then ws else w ∷ ws

  unfoldable pub erase_worker : W → List W → List W
  erase_worker w [] = []
  erase_worker w (x ∷ xs) = let rest = erase_worker w xs in if q.beq x w then xs else x ∷ rest

  -- Step 1: the worker is recorded, and its time joined to the global one.
  unfoldable pub arrive : ℕ → W → VectorTime → BarrierEvent W → BarrierEvent W
  unfolding insert_worker
  arrive rank w self b =
      let ws = insert_worker w b.reached_workers in
      record {
        all_reach_barrier = leb rank (length ws);
        vt_global = join_time self b.vt_global;
        reached_workers = ws;
      }

  -- Steps 2 and 3: a recorded worker leaves with the global time; the last one resets the barrier.
  unfoldable pub consume : W → BarrierEvent W → Option VectorTime × BarrierEvent W
  unfolding contains erase_worker
  consume w b =
      let ws = erase_worker w b.reached_workers in
      if contains w b.reached_workers
      then (some b.vt_global, if is_empty ws then fresh else record b { reached_workers = ws })
      else (none, b)

  -- `Wait`: `none` for its `false`, else the global time.
  unfoldable pub wait : ℕ → W → VectorTime → BarrierEvent W → Option VectorTime × BarrierEvent W
  unfolding arrive consume
  wait rank w self b =
      let arrived = arrive rank w self b in
      if b.all_reach_barrier
      then consume w b
      else if arrived.all_reach_barrier
      then consume w arrived
      else (none, arrived)
