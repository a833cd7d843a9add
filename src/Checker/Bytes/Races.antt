-- ===== src/Checker/Bytes/Races.antt =====
-- What the guards of the pair checks of csrc/race_sanitizer/alg_framework/mem_event_checker.cpp mean.
use ascend_mssanitizer.Base.{
  zero, ◌≢◌, some, subst, ◌==◌, ℕ, not, inr, Bool-cases, ◌∷◌, arith, true, suc, refl, ==_iff, false,
  List, [], ◌≡◌, All, inl, ap, Option, none,
}
use ascend_mssanitizer.Checker.Pairs.{is_mem_space_overlap, is_atomic_against}
use ascend_mssanitizer.Checker.Bytes.Shared.{is_mem_space_overlap-ShareByte, ShareByte}
use ascend_mssanitizer.Event.{
  is_write, pipe_index_inj, MemEvent, pipe_s, AccessType, PipeType, pipe_index, VectorTime, write,
}
use ascend_mssanitizer.Checker.Scanline.{nth_event, event_at}
use ascend_mssanitizer.Checker.Overlap.{EventIdxInfo}
use ascend_mssanitizer.Checker.Bytes.{IsPlain}
use ascend_mssanitizer.Clock.{is_not_happens_before}
use ascend_mssanitizer.Checker.State.{MemEventChecker}
use ascend_mssanitizer.Clock.Laws.{LeTime}

-- Both are kept as writes in atomic mode, neither of them on the scalar pipe.
abbrev pub AreAtomicWrites : MemEvent → MemEvent → Type 0
AreAtomicWrites e1 e2 =
    (e1.is_atomic_mode ≡ true)
    × (e2.is_atomic_mode ≡ true)
    × (e1.mem_info.op_type ≡ write)
    × (e2.mem_info.op_type ≡ write)
    × (e1.pipe ≢ pipe_s)
    × (e2.pipe ≢ pipe_s)

not_scalar : (p : PipeType) → p ≢ pipe_s → (pipe_index p == 0) ≡ false
unfolding pipe_index
not_scalar p h = elim (Bool-cases (pipe_index p == 0)) [
  | inl e ↦ absurd (h (pipe_index_inj p pipe_s ((==_iff _ _).0 e)))
  | inr e ↦ e
]

as_write : (a : AccessType) → a ≡ write → is_write a ≡ true
as_write a h = rw h refl

pub is_atomic_against-not :
    (e1 e2 : MemEvent) → is_atomic_against e1 e2 ≡ false → ¬ AreAtomicWrites e1 e2
unfolding is_atomic_against
is_atomic_against-not e1 e2 h w = ground (
  arith,
  h,
  w.0,
  w.1,
  as_write e1.mem_info.op_type w.2,
  as_write e2.mem_info.op_type w.3,
  not_scalar e1.pipe w.4,
  not_scalar e2.pipe w.5,
)

-- Neither time is below the other.
abbrev pub AreUnordered : VectorTime → VectorTime → Type 0
AreUnordered t u = (¬ LeTime t u) × (¬ LeTime u t)

pub not_ordered-AreUnordered :
    (t u : VectorTime) (p q : ℕ) → not (is_not_happens_before t u p q) ≡ false → AreUnordered t u
unfolding is_not_happens_before
not_ordered-AreUnordered t u p q h =
    (λ le. ground (arith, h, le p, le q), λ le. ground (arith, h, le p, le q))

abbrev or_event : MemEvent → Option MemEvent → MemEvent
or_event x none = x
or_event x (some e) = e

nth_event-All :
    (P : MemEvent → Type 0) (es : List MemEvent) (i : ℕ) (e : MemEvent)
    → All P es
    → nth_event es i ≡ some e
    → P e
nth_event-All P [] i e h k = absurd (ground (arith, k))
nth_event-All P (x ∷ es) zero e h k = subst P (ap (or_event x) k) h.0
nth_event-All P (x ∷ es) (suc i) e h k = nth_event-All P es i e h.1 k

-- Two accesses of a checker, all plain, on which the overlap test answered true share a byte.
pub checked-ShareByte :
    (m : MemEventChecker) (i j : ℕ) (e1 e2 : MemEvent) (i1 i2 : EventIdxInfo)
    → All IsPlain m.events
    → event_at m i ≡ some e1
    → event_at m j ≡ some e2
    → (is_mem_space_overlap e1 e2 i1 i2).0 ≡ true
    → ShareByte e1 e2
checked-ShareByte m i j e1 e2 i1 i2 h at1 at2 =
    is_mem_space_overlap-ShareByte e1 e2 i1 i2 (nth_event-All IsPlain m.events i e1 h at1)
      (nth_event-All IsPlain m.events j e2 h at2)
