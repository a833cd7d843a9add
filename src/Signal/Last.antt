-- ===== src/Signal/Last.antt =====
-- What a wait on a signal of csrc/race_sanitizer/alg_framework/signal_database.cpp answers after a run of
-- sets.
use ascend_mssanitizer.Base.Assoc.{nat_eq, lookup, lookup-insert}
use ascend_mssanitizer.Event.{
  cmp_ge, cmp_gt, CompareOp, MstxSignalWait, cmp_ne, cmp_eq, VectorTime, cmp_lt, MstxSignalSet,
  cmp_le,
}
use ascend_mssanitizer.Base.Int.{ltb_ℤ, negsuc, pos, ℤ, leb_ℤ, eqb_ℤ}
use ascend_mssanitizer.Base.{
  subst, true, ◌↔◌, ◌≡◌, ◌≢◌, some, none, sym, ℕ, refl, Option, false, ◌∷◌, Bool, if◌then◌else◌,
  ◌==◌, ap, arith, [], ◌∙◌, ◌<◌, List, not,
}
use ascend_mssanitizer.Signal.{
  wait_on, SignalValue, signal_compare, signal_wait, signal_set, SignalDatabase,
}

-- The order of the integers, by their constructors.
abbrev pub IsBelow : ℤ → ℤ → Type 0
IsBelow (pos a) (pos b) = a < b
IsBelow (pos a) (negsuc b) = ⊥
IsBelow (negsuc a) (pos b) = Unit
IsBelow (negsuc a) (negsuc b) = b < a

-- What a comparison stands for, with the signal's value first.
abbrev pub Compares : CompareOp → ℤ → ℤ → Type 0
Compares cmp_eq v w = v ≡ w
Compares cmp_ne v w = v ≢ w
Compares cmp_gt v w = IsBelow w v
Compares cmp_ge v w = ¬ IsBelow v w
Compares cmp_lt v w = IsBelow v w
Compares cmp_le v w = ¬ IsBelow w v

ltb_ℤ_iff : (v w : ℤ) → (ltb_ℤ v w ≡ true) ↔ IsBelow v w
ltb_ℤ_iff (pos a) (pos b) = ground arith
ltb_ℤ_iff (pos a) (negsuc b) = ground arith
ltb_ℤ_iff (negsuc a) (pos b) = (λ h. tt, λ h. ground arith)
ltb_ℤ_iff (negsuc a) (negsuc b) = ground arith

leb_ℤ-ltb_ℤ : (v w : ℤ) → leb_ℤ v w ≡ not (ltb_ℤ w v)
leb_ℤ-ltb_ℤ v w = ground arith

eqb_ℤ_iff : (v w : ℤ) → (eqb_ℤ v w ≡ true) ↔ (v ≡ w)
eqb_ℤ_iff (pos a) (pos b) = ground arith
eqb_ℤ_iff (pos a) (negsuc b) = ground arith
eqb_ℤ_iff (negsuc a) (pos b) = ground arith
eqb_ℤ_iff (negsuc a) (negsuc b) = ground arith

not_iff : {P : Type 0} (b : Bool) → ((b ≡ true) ↔ P) → (not b ≡ true) ↔ (¬ P)
not_iff true h = (λ e p. ground (arith, e), λ n. absurd (n (h.0 refl)))
not_iff false h = (λ e p. ground (arith, h.1 p), λ n. refl)

signal_compare_iff : (op : CompareOp) (v w : ℤ) → (signal_compare op v w ≡ true) ↔ Compares op v w
unfolding signal_compare
signal_compare_iff cmp_eq v w = eqb_ℤ_iff v w
signal_compare_iff cmp_ne v w = not_iff (eqb_ℤ v w) (eqb_ℤ_iff v w)
signal_compare_iff cmp_gt v w = ltb_ℤ_iff w v
signal_compare_iff cmp_ge v w = rw (leb_ℤ-ltb_ℤ w v) (not_iff (ltb_ℤ v w) (ltb_ℤ_iff v w))
signal_compare_iff cmp_lt v w = ltb_ℤ_iff v w
signal_compare_iff cmp_le v w = rw (leb_ℤ-ltb_ℤ v w) (not_iff (ltb_ℤ w v) (ltb_ℤ_iff w v))

-- Sets with their times, one after another.
unfoldable pub run_sets : List (MstxSignalSet × VectorTime) → SignalDatabase → SignalDatabase
run_sets [] db = db
run_sets (s ∷ ss) db = run_sets ss (signal_set s.0 s.1 db)

-- The last set on an address, or what stands there before.
unfoldable pub last_set :
    ℕ → Option SignalValue → List (MstxSignalSet × VectorTime) → Option SignalValue
last_set a o [] = o
last_set a o (s ∷ ss) =
    last_set a (if s.0.addr == a then some (record { value = s.0.value; vt = s.1 }) else o) ss

lookup-run_sets :
    (ss : List (MstxSignalSet × VectorTime)) (a : ℕ) (db : SignalDatabase)
    → lookup a (run_sets ss db) ≡ last_set a (lookup a db) ss
unfolding run_sets last_set signal_set
lookup-run_sets [] a db = refl
lookup-run_sets (s ∷ ss) a db =
    lookup-run_sets ss a (signal_set s.0 s.1 db)
    ∙ ap (λ o. last_set a o ss)
        (lookup-insert s.0.addr a (record { value = s.0.value; vt = s.1 }) db)

-- The answer of a wait where the signal has, or has not, a value.
abbrev pub Answered : MstxSignalWait → VectorTime → Option SignalValue → Bool × VectorTime → Type 0
Answered w out none r = r ≡ (false, out)
Answered w out (some s) r = ((r.0 ≡ true) ↔ Compares w.cmp_op s.value w.cmp_value) × (r.1 ≡ s.vt)

wait_on-Answered :
    (w : MstxSignalWait) (out : VectorTime) (o : Option SignalValue)
    → Answered w out o (wait_on w o out)
wait_on-Answered w out none = refl
wait_on-Answered w out (some s) = (signal_compare_iff w.cmp_op s.value w.cmp_value, refl)

-- After any sets on a new database: a wait on an address that none of them set answers false and leaves the
-- caller's time; else it hands out the time of the last set on its address, and answers true exactly when the
-- value of that set and the given one are, as integers, in the relation that the wait asks for.
pub signal_wait-Answered :
    (ss : List (MstxSignalSet × VectorTime)) (w : MstxSignalWait) (out : VectorTime)
    → Answered w out (last_set w.addr none ss) (signal_wait w (run_sets ss []) out)
unfolding signal_wait lookup
signal_wait-Answered ss w out =
    subst (λ o. Answered w out (last_set w.addr none ss) (wait_on w o out))
      (sym (lookup-run_sets ss w.addr [])) (wait_on-Answered w out (last_set w.addr none ss))
