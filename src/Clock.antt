-- ===== src/Clock.antt =====
-- csrc/race_sanitizer/alg_framework/vector_clock.cpp: class VectorClock.
pub mod Laws
use ascend_mssanitizer.Base.{ℕ, ◌+◌, max, Bool, ◌&&◌, ◌||◌, List, [], ◌∷◌, ltb, get_or, set}
use ascend_mssanitizer.Base.Words.{u32}
use ascend_mssanitizer.Event.{VectorTime}

-- `t[pipe]`. An index past the end is undefined in the source, and reads 0 here.
abbrev pub time_at : VectorTime → ℕ → ℕ
time_at t pipe = get_or t pipe 0

-- `t[pipe]++` on a uint32_t.
unfoldable pub update_logic_time : VectorTime → ℕ → VectorTime
update_logic_time t pipe = set t pipe (u32 (time_at t pipe + 1))

-- The loop over the common length; what `out` has beyond it stays.
unfoldable pub update_vector_time : VectorTime → VectorTime → VectorTime
update_vector_time [] out = out
update_vector_time (x ∷ xs) [] = []
update_vector_time (x ∷ xs) (y ∷ ys) = max x y ∷ update_vector_time xs ys

unfoldable pub is_not_happens_before : VectorTime → VectorTime → ℕ → ℕ → Bool
is_not_happens_before t1 t2 p1 p2 =
    (ltb (time_at t1 p1) (time_at t2 p1) && ltb (time_at t2 p2) (time_at t1 p2))
    || (ltb (time_at t1 p2) (time_at t2 p2) && ltb (time_at t2 p1) (time_at t1 p1))
