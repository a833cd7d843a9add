-- ===== src/Signal.antt =====
-- csrc/race_sanitizer/alg_framework/signal_database.cpp: class SignalDatabase, a value and a vector
-- time for each signal address.
pub mod Last
use ascend_mssanitizer.Base.Assoc.{nat_eq, insert, lookup}
use ascend_mssanitizer.Base.{not, Bool, none, List, ℕ, false, Option, some}
use ascend_mssanitizer.Base.Int.{ℤ, ltb_ℤ, leb_ℤ, eqb_ℤ}
use ascend_mssanitizer.Event.{
  cmp_ge, cmp_gt, cmp_lt, MstxSignalSet, MstxSignalWait, CompareOp, cmp_ne, VectorTime, cmp_eq,
  cmp_le,
}

pub record SignalValue : Type 0 where
  pub value : ℤ
  pub vt : VectorTime

abbrev pub SignalDatabase : Type 0
SignalDatabase = List (ℕ × SignalValue)

-- `Set`
unfoldable pub signal_set : MstxSignalSet → VectorTime → SignalDatabase → SignalDatabase
signal_set e vt db = insert e.addr (record { value = e.value; vt = vt }) db

-- The switch of `Wait`.
unfoldable pub signal_compare : CompareOp → ℤ → ℤ → Bool
signal_compare cmp_eq v w = eqb_ℤ v w
signal_compare cmp_ne v w = not (eqb_ℤ v w)
signal_compare cmp_gt v w = ltb_ℤ w v
signal_compare cmp_ge v w = leb_ℤ w v
signal_compare cmp_lt v w = ltb_ℤ v w
signal_compare cmp_le v w = leb_ℤ v w

abbrev pub wait_on : MstxSignalWait → Option SignalValue → VectorTime → Bool × VectorTime
wait_on e none vt = (false, vt)
wait_on e (some s) vt = (signal_compare e.cmp_op s.value e.cmp_value, s.vt)

-- `Wait`: its result, and what it leaves in the caller's `vt`.
unfoldable pub signal_wait : MstxSignalWait → SignalDatabase → VectorTime → Bool × VectorTime
unfolding signal_compare
signal_wait e db vt = wait_on e (lookup e.addr db) vt
