-- ===== src/Clock/Laws.antt =====
-- What the operations of csrc/race_sanitizer/alg_framework/vector_clock.cpp compute: the join of
-- two times, the step of one counter, and the test for concurrency.
use ascend_mssanitizer.Base.{
  ℕ, zero, suc, ◌≤◌, ◌<◌, max, ◌≡◌, refl, ap, ◌↔◌, true, [], ◌∷◌, arith, length, length-set,
  lt_of_not_le,
}
use ascend_mssanitizer.Event.{VectorTime}
use ascend_mssanitizer.Clock.{time_at, update_logic_time, update_vector_time, is_not_happens_before}

-- `t` knows no more than `u`, at any pipe.
abbrev pub LeTime : VectorTime → VectorTime → Type 0
LeTime t u = (i : ℕ) → time_at t i ≤ time_at u i

pub length-update_vector_time :
    (t out : VectorTime) → length (update_vector_time t out) ≡ length out
unfolding update_vector_time
length-update_vector_time [] out = refl
length-update_vector_time (x ∷ t) [] = refl
length-update_vector_time (x ∷ t) (y ∷ out) = ap suc (length-update_vector_time t out)

pub length-update_logic_time : (t : VectorTime) (p : ℕ) → length (update_logic_time t p) ≡ length t
unfolding update_logic_time
length-update_logic_time t p = length-set t p _

-- Each counter of the result is the larger of the two, where both times have it.
pub time_at-update_vector_time :
    (t out : VectorTime) (i : ℕ)
    → length t ≡ length out
    → time_at (update_vector_time t out) i ≡ max (time_at t i) (time_at out i)
unfolding update_vector_time
time_at-update_vector_time [] [] i h = omega arith
time_at-update_vector_time [] (y ∷ out) i h = absurd (omega arith)
time_at-update_vector_time (x ∷ t) [] i h = absurd (omega arith)
time_at-update_vector_time (x ∷ t) (y ∷ out) zero h = refl
time_at-update_vector_time (x ∷ t) (y ∷ out) (suc i) h =
    time_at-update_vector_time t out i (omega arith)

-- The update never loses time.
pub LeTime-update_vector_time : (t out : VectorTime) → LeTime out (update_vector_time t out)
unfolding update_vector_time
LeTime-update_vector_time [] out i = omega arith
LeTime-update_vector_time (x ∷ t) [] i = omega arith
LeTime-update_vector_time (x ∷ t) (y ∷ out) zero = omega arith
LeTime-update_vector_time (x ∷ t) (y ∷ out) (suc i) = LeTime-update_vector_time t out i

-- For two times of one length the result is their least upper bound: it is above both, and below
-- every time that is above both.
pub update_vector_time-lub :
    (t out : VectorTime)
    → length t ≡ length out
    → LeTime t (update_vector_time t out)
      × LeTime out (update_vector_time t out)
      × ((u : VectorTime) → LeTime t u → LeTime out u → LeTime (update_vector_time t out) u)
update_vector_time-lub t out h = (
  λ i. omega (arith, time_at-update_vector_time t out i h),
  λ i. omega (arith, time_at-update_vector_time t out i h),
  λ u a b i. omega (arith, time_at-update_vector_time t out i h, a i, b i),
)

-- For two times of one length and any third one: the third is above the result exactly when it is
-- above both, so the result is their least upper bound.
pub update_vector_time_iff :
    (t out u : VectorTime)
    → length t ≡ length out
    → LeTime (update_vector_time t out) u ↔ (LeTime t u × LeTime out u)
update_vector_time_iff t out u h =
    let (left, right, least) = update_vector_time-lub t out h in
    (
      λ le. (λ i. omega (arith, left i, le i), λ i. omega (arith, right i, le i)),
      λ both. least u both.0 both.1,
    )

-- The test does not depend on the order of the two events.
pub is_not_happens_before_comm :
    (t u : VectorTime) (p q : ℕ) → is_not_happens_before t u p q ≡ is_not_happens_before u t q p
unfolding is_not_happens_before
is_not_happens_before_comm t u p q = ground arith

-- Times whose own counters are exact: an event at pipe `p` and time `t` is known at time `u` just
-- when all that it knew is known there too.
pub record AreCausal (t u : VectorTime) (p q : ℕ) : Type 0 where
  pub forward : time_at t p ≤ time_at u p → LeTime t u
  pub backward : time_at u q ≤ time_at t q → LeTime u t

-- For such times the test holds exactly when neither event happens before the other.
pub is_not_happens_before_iff :
    (t u : VectorTime) (p q : ℕ)
    → AreCausal t u p q
    → (is_not_happens_before t u p q ≡ true) ↔ ((¬ LeTime t u) × (¬ LeTime u t))
unfolding is_not_happens_before
is_not_happens_before_iff t u p q c = (to, from)
  where
    known : time_at t p ≤ time_at u p → time_at t q ≤ time_at u q
    known h = c.forward h q

    known' : time_at u q ≤ time_at t q → time_at u p ≤ time_at t p
    known' h = c.backward h p

    to : is_not_happens_before t u p q ≡ true → (¬ LeTime t u) × (¬ LeTime u t)
    to e = (
      λ le. ground (arith, le p, le q, known, known'),
      λ le. ground (arith, le p, le q, known, known'),
    )

    from : (¬ LeTime t u) × (¬ LeTime u t) → is_not_happens_before t u p q ≡ true
    from n =
        let below : time_at u p < time_at t p = lt_of_not_le (λ h. n.0 (c.forward h)) in
        let above : time_at t q < time_at u q = lt_of_not_le (λ h. n.1 (c.backward h)) in
        ground (arith, below, above)
