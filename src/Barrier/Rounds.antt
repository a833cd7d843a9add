-- ===== src/Barrier/Rounds.antt =====
-- One generation of the barrier of csrc/race_sanitizer/alg_framework/barrier_database.hpp, told by
-- the list of its arrivals.
use ascend_mssanitizer.Base.{
  ℕ, ◌≤◌, ◌≡◌, ◌⊎◌, true, false, List, [], ◌∷◌, arith, if◌then◌else◌, length, All, inr, Option,
  none, some, is_empty, ap, Bool-cases, inl, ◌∙◌, refl, sym, Bool,
}
use ascend_mssanitizer.Base.Assoc.{Eq}
use ascend_mssanitizer.Clock.Laws.{LeTime, update_vector_time-lub, length-update_vector_time}
use ascend_mssanitizer.Event.{VectorTime}
use ascend_mssanitizer.Barrier.{
  BarrierEvent, insert_worker, join_time, fresh, arrive, contains, erase_worker, wait, consume,
}

le_join :
    (n : ℕ) (x g : VectorTime)
    → length x ≡ n
    → (g ≡ []) ⊎ (length g ≡ n)
    → LeTime x (join_time x g) × LeTime g (join_time x g) × (length (join_time x g) ≡ n)
le_join n x [] len e = (λ i. omega arith, λ i. omega arith, len)
le_join n x (y ∷ g) len (inl e) = ground (arith, e)
le_join n x (y ∷ g) len (inr e) =
    let (left, right, _) = update_vector_time-lub x (y ∷ g) (len ∙ sym e) in
    (left, right, length-update_vector_time x (y ∷ g) ∙ e)

module _ {W : Type 0} ⦃q : Eq W⦄ where
  -- The workers of a list of arrivals, newest first, each once.
  pub workers : List (W × VectorTime) → List W
  workers [] = []
  workers ((w, vt) ∷ past) = insert_worker w (workers past)

  -- Every arrival is of a time of `n` counters that `g` has reached.
  abbrev pub AllBelow : ℕ → List (W × VectorTime) → VectorTime → Type 0
  AllBelow n past g = All (λ a. (length a.1 ≡ n) × LeTime a.1 g) past

  -- The barrier after the arrivals `past` of its generation.
  pub record Gathered (rank n : ℕ) (past : List (W × VectorTime)) (b : BarrierEvent W)
      : Type 0 where
    pub sized : (b.vt_global ≡ []) ⊎ (length b.vt_global ≡ n)
    pub below : AllBelow n past b.vt_global
    pub enough : b.all_reach_barrier ≡ true → rank ≤ length (workers past)
    pub open_workers : b.all_reach_barrier ≡ false → b.reached_workers ≡ workers past

  -- The arrivals after a call of `Wait`: an open barrier records the caller, a closed one does not.
  abbrev pub arrivals :
      BarrierEvent W → W → VectorTime → List (W × VectorTime) → List (W × VectorTime)
  arrivals b w self past = if b.all_reach_barrier then past else (w, self) ∷ past

  AllBelow-mono :
      (n : ℕ) (past : List (W × VectorTime)) (g h : VectorTime)
      → LeTime g h
      → AllBelow n past g
      → AllBelow n past h
  AllBelow-mono n [] g h le a = tt
  AllBelow-mono n (x ∷ past) g h le a =
      ((a.0.0, λ i. omega (arith, a.0.1 i, le i)), AllBelow-mono n past g h le a.1)

  -- What a call of `Wait` did, for the arrivals `past` of the generation with the caller's: it waits;
  -- or it leaves with a time that every arrival is below, after `rank` different workers arrived,
  -- and the barrier is that of the same generation or fresh again.
  pub data Waited (rank n : ℕ) (past : List (W × VectorTime))
      : Option VectorTime × BarrierEvent W → Type 0 where
    waits : (b : BarrierEvent W) → Gathered rank n past b → Waited rank n past (none, b)
    leaves :
        (vt : VectorTime) (b : BarrierEvent W)
        → rank ≤ length (workers past)
        → AllBelow n past vt
        → Gathered rank n past b ⊎ (b ≡ fresh)
        → Waited rank n past (some vt, b)

  arrive-Gathered :
      (rank n : ℕ) (past : List (W × VectorTime)) (b : BarrierEvent W) (w : W) (self : VectorTime)
      → length self ≡ n
      → b.all_reach_barrier ≡ false
      → Gathered rank n past b
      → Gathered rank n ((w, self) ∷ past) (arrive rank w self b)
  unfolding arrive workers
  arrive-Gathered rank n past b w self len o g =
      let (mine, older, size) = le_join n self b.vt_global len g.sized in
      let same : insert_worker w b.reached_workers ≡ insert_worker w (workers past) =
        ap (insert_worker w) (g.open_workers o) in
      record {
        sized = inr size;
        below = (
          (len, mine),
          AllBelow-mono n past b.vt_global (join_time self b.vt_global) older g.below,
        );
        enough = λ e. ground (arith, e, ap length same);
        open_workers = λ e. same;
      }

  consume-Waited :
      (rank n : ℕ) (past : List (W × VectorTime)) (b : BarrierEvent W) (w : W)
      → b.all_reach_barrier ≡ true
      → Gathered rank n past b
      → Waited rank n past (consume w b)
  unfolding consume
  consume-Waited rank n past b w closed g = elim (Bool-cases (contains w b.reached_workers)) [
    | inr c ↦ rw c (waits b g)
    | inl c ↦ elim (Bool-cases (is_empty (erase_worker w b.reached_workers))) [
      | inl e ↦ rw (c, e) (leaves b.vt_global fresh (g.enough closed) g.below (inr refl))
      | inr e ↦
          let left = record b { reached_workers = erase_worker w b.reached_workers } in
          rw (c, e)
            (leaves b.vt_global left (g.enough closed) g.below (
              inl (record {
                sized = g.sized;
                below = g.below;
                enough = g.enough;
                open_workers = λ o. ground (arith, o, closed);
              })))
    ]
  ]

  pick-Waited :
      (rank n : ℕ) (t : Bool) (p0 p1 : List (W × VectorTime))
      (x y : Option VectorTime × BarrierEvent W)
      → (t ≡ true → Waited rank n p0 x)
      → (t ≡ false → Waited rank n p1 y)
      → Waited rank n (if t then p0 else p1) (if t then x else y)
  pick-Waited rank n true p0 p1 x y f h = f refl
  pick-Waited rank n false p0 p1 x y f h = h refl

  same-Waited :
      (rank n : ℕ) (t : Bool) (p : List (W × VectorTime)) (x y : Option VectorTime × BarrierEvent W)
      → (t ≡ true → Waited rank n p x)
      → Waited rank n p y
      → Waited rank n p (if t then x else y)
  same-Waited rank n true p x y f h = f refl
  same-Waited rank n false p x y f h = h

  -- For a barrier in a generation with the arrivals `past`, and a caller whose time has `n` counters
  -- like theirs: `Wait` records the caller if the barrier is open, and either answers `false` and
  -- leaves the barrier in that generation; or lets the caller go, which happens only once `rank`
  -- different workers have arrived, with a time that has everything that any of them knew on arrival.
  pub wait-Waited :
      (rank n : ℕ) (past : List (W × VectorTime)) (b : BarrierEvent W) (w : W) (self : VectorTime)
      → length self ≡ n
      → Gathered rank n past b
      → Waited rank n (arrivals b w self past) (wait rank w self b)
  unfolding wait
  wait-Waited rank n past b w self len g =
      pick-Waited rank n b.all_reach_barrier past ((w, self) ∷ past) (consume w b) _
        (λ c. consume-Waited rank n past b w c g)
        (λ o.
          let here = arrive-Gathered rank n past b w self len o g in
          let arrived = arrive rank w self b in
          same-Waited rank n arrived.all_reach_barrier ((w, self) ∷ past) (consume w arrived)
            (none, arrived) (λ c. consume-Waited rank n ((w, self) ∷ past) arrived w c here)
            (waits arrived here))

  -- A new barrier has no arrivals.
  pub fresh-Gathered : (rank n : ℕ) → Gathered rank n [] fresh
  unfolding workers
  fresh-Gathered rank n = record {
    sized = inl refl;
    below = tt;
    enough = λ e. ground (arith, e);
    open_workers = λ e. refl;
  }
