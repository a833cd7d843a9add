-- ===== src/RaceAlg/Load.antt =====
-- The work that the queues of csrc/race_sanitizer/alg_framework/race_alg_impl.cpp hold: an event on
-- its own pipe is one step of work, an event that has still to be sent to its pipe is four.
use ascend_mssanitizer.Base.{
  refl, zero, inl, length, suc, ◌∷◌, All, ℕ, set, ◌%◌, ◌≡◌, ap, List, inr, ◌≤◌, ◌+◌, arith, ◌++◌,
  if◌then◌else◌, get_or, ◌<◌, ◌==◌, [], lt_or_le, ==_self, ◌∙◌, subst, ◌≢◌,
}
use ascend_mssanitizer.Event.{
  memcpy_blocks, mem_event, IsPipe, EventInfo, MemOpInfo, VectorTime, AccessType, pipe_count,
  SanEvent, pipe_index, read, write,
}
use ascend_mssanitizer.Base.Sums.{weigh-set, sum_of-append, weigh, sum_of}
use ascend_mssanitizer.Container.{entries_of_info, entries_of_mem, entries, with_op}
use ascend_mssanitizer.RaceAlg.Inner.{time_event_of}
use ascend_mssanitizer.PipeLine.Position.{Queues}

unfoldable pub event_load : ℕ → SanEvent → ℕ
unfolding pipe_index
event_load i e = if (i % pipe_count) == pipe_index e.pipe then 1 else 4

pub queue_load : ℕ → List SanEvent → ℕ
queue_load i q = sum_of (event_load i) q

pub load : Queues → ℕ
load qs = weigh queue_load 0 qs

-- Every queued event is for a pipe that has a queue.
abbrev pub AllPipes : Queues → Type 0
AllPipes qs = All (λ q. All (λ e. IsPipe e.pipe) q) qs

event_load_home : (i : ℕ) (e : SanEvent) → i % pipe_count ≡ pipe_index e.pipe → event_load i e ≡ 1
unfolding event_load
event_load_home i e h = rw (h, ==_self (pipe_index e.pipe)) refl

one_home : (i : ℕ) (e : SanEvent) → i % pipe_count ≡ pipe_index e.pipe → queue_load i (e ∷ []) ≡ 1
unfolding queue_load sum_of
one_home i e h = rw (event_load_home i e h) refl

two_home :
    (i : ℕ) (e f : SanEvent)
    → i % pipe_count ≡ pipe_index e.pipe
    → i % pipe_count ≡ pipe_index f.pipe
    → queue_load i (e ∷ f ∷ []) ≡ 2
unfolding queue_load sum_of
two_home i e f h k = rw (event_load_home i e h, event_load_home i f k) refl

entries_of_mem-load :
    (i : ℕ) (e : SanEvent) (m : MemOpInfo) (a : AccessType)
    → i % pipe_count ≡ pipe_index e.pipe
    → queue_load i (entries_of_mem e m a) ≤ 2
entries_of_mem-load i e m memcpy_blocks h =
    omega (arith, two_home i (with_op e m read) (with_op e m write) h h)
entries_of_mem-load i e m read h = omega (arith, one_home i e h)
entries_of_mem-load i e m write h = omega (arith, one_home i e h)

entries_of_info-load :
    (i : ℕ) (e : SanEvent) (x : EventInfo)
    → i % pipe_count ≡ pipe_index e.pipe
    → queue_load i (entries_of_info e x) ≤ 2
entries_of_info-load i e (mem_event m) h = entries_of_mem-load i e m m.op_type h
entries_of_info-load i e _ h = omega (arith, one_home i e h)

pub entries-load :
    (i : ℕ) (e : SanEvent) → i % pipe_count ≡ pipe_index e.pipe → queue_load i (entries e) ≤ 2
entries-load i e h = entries_of_info-load i e e.info h

pub time_event-load :
    (i : ℕ) (e : SanEvent) (vt : VectorTime)
    → i % pipe_count ≡ pipe_index e.pipe
    → queue_load i (entries (time_event_of e vt)) ≡ 1
time_event-load i e vt h = one_home i (time_event_of e vt) h

entries_of_mem-IsPipe :
    (e : SanEvent) (m : MemOpInfo) (a : AccessType)
    → IsPipe e.pipe
    → All (λ x. IsPipe x.pipe) (entries_of_mem e m a)
entries_of_mem-IsPipe e m memcpy_blocks h = (h, (h, tt))
entries_of_mem-IsPipe e m _ h = (h, tt)

entries_of_info-IsPipe :
    (e : SanEvent) (x : EventInfo) → IsPipe e.pipe → All (λ x. IsPipe x.pipe) (entries_of_info e x)
entries_of_info-IsPipe e (mem_event m) h = entries_of_mem-IsPipe e m m.op_type h
entries_of_info-IsPipe e _ h = (h, tt)

pub entries-IsPipe : (e : SanEvent) → IsPipe e.pipe → All (λ x. IsPipe x.pipe) (entries e)
entries-IsPipe e h = entries_of_info-IsPipe e e.info h

set_past : {A : Type 0} (xs : List A) (i : ℕ) (v : A) → length xs ≤ i → set xs i v ≡ xs
set_past [] i v h = refl
set_past (x ∷ xs) zero v h = elim h [ ]
set_past (x ∷ xs) (suc i) v h = ap (λ t. x ∷ t) (set_past xs i v (omega arith))

-- A queue is written anew.
load-set :
    (qs : Queues) (i : ℕ) (q : List SanEvent)
    → i < length qs
    → load (set qs i q) + queue_load i (get_or qs i []) ≡ load qs + queue_load i q
unfolding load
load-set qs i q h =
    let zero_first : 0 + i ≡ i = omega arith in
    subst (λ j. load (set qs i q) + queue_load j (get_or qs i []) ≡ load qs + queue_load j q)
      zero_first (weigh-set queue_load 0 i qs q h)

queue_load-append :
    (i : ℕ) (q es : List SanEvent) → queue_load i (q ++ es) ≡ queue_load i q + queue_load i es
unfolding queue_load sum_of
queue_load-append i q es = sum_of-append (event_load i) q es

queue_load-cons :
    (i : ℕ) (e : SanEvent) (q : List SanEvent)
    → queue_load i (e ∷ q) ≡ event_load i e + queue_load i q
unfolding queue_load sum_of
queue_load-cons i e q = refl

-- More events at the end of a queue.
pub load-add :
    (qs : Queues) (i : ℕ) (es : List SanEvent)
    → load (set qs i (get_or qs i [] ++ es)) ≤ load qs + queue_load i es
load-add qs i es = elim (lt_or_le i (length qs)) [
  | inr past ↦ rw (set_past qs i (get_or qs i [] ++ es) past) (omega arith)
  | inl inside ↦
      omega (
        arith,
        load-set qs i (get_or qs i [] ++ es) inside,
        queue_load-append i (get_or qs i []) es,
      )
]

pub inside_of_cons :
    (qs : Queues) (i : ℕ) (e : SanEvent) (rest : List SanEvent)
    → get_or qs i [] ≡ e ∷ rest
    → i < length qs
inside_of_cons [] i e rest h = ground (arith, h)
inside_of_cons (q ∷ qs) zero e rest h = omega arith
inside_of_cons (q ∷ qs) (suc i) e rest h = omega (arith, inside_of_cons qs i e rest h)

-- The oldest event of a queue is taken off.
pub load-take :
    (qs : Queues) (i : ℕ) (e : SanEvent) (rest : List SanEvent)
    → get_or qs i [] ≡ e ∷ rest
    → load (set qs i rest) + event_load i e ≡ load qs
load-take qs i e rest h =
    let moved = load-set qs i rest (inside_of_cons qs i e rest h) in
    let split : queue_load i (get_or qs i []) ≡ event_load i e + queue_load i rest =
      ap (queue_load i) h ∙ queue_load-cons i e rest in
    omega (arith, moved, split)

pub event_load-pos : (i : ℕ) (e : SanEvent) → 0 < event_load i e
unfolding event_load
event_load-pos i e = ground arith

pub event_load-away :
    (i : ℕ) (e : SanEvent) → i % pipe_count ≢ pipe_index e.pipe → event_load i e ≡ 4
unfolding event_load
event_load-away i e h = ground (arith, h)

event_load_most : (i : ℕ) (e : SanEvent) → event_load i e ≤ 4
unfolding event_load
event_load_most i e = ground arith

entries_of_mem-load_most :
    (i : ℕ) (e : SanEvent) (m : MemOpInfo) (a : AccessType)
    → queue_load i (entries_of_mem e m a) ≤ 8
unfolding queue_load sum_of
entries_of_mem-load_most i e m memcpy_blocks =
    omega (arith, event_load_most i (with_op e m read), event_load_most i (with_op e m write))
entries_of_mem-load_most i e m read = omega (arith, event_load_most i e)
entries_of_mem-load_most i e m write = omega (arith, event_load_most i e)

entries_of_info-load_most :
    (i : ℕ) (e : SanEvent) (x : EventInfo) → queue_load i (entries_of_info e x) ≤ 8
unfolding queue_load sum_of
entries_of_info-load_most i e (mem_event m) = entries_of_mem-load_most i e m m.op_type
entries_of_info-load_most i e _ = omega (arith, event_load_most i e)

pub entries-load_most : (i : ℕ) (e : SanEvent) → queue_load i (entries e) ≤ 8
entries-load_most i e = entries_of_info-load_most i e e.info
