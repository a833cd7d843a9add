-- ===== src/Checker/Bytes/Shared.antt =====
-- `IsMemSpaceOverlap` of csrc/race_sanitizer/alg_framework/mem_event_checker.cpp answers true only for two
-- accesses that share a byte.
use ascend_mssanitizer.Base.{
  none, true, ℕ, ap, arith, Bool-cases, Option, some, ◌&&◌, ◌∙◌, suc, ◌+◌, inr, length, sym, inl,
  false, ◌≡◌, All, Bool, if◌then◌else◌, refl, not,
}
use ascend_mssanitizer.Checker.Bytes.{
  IsPlain, IsByte, ByteBy, IsPlainOp, IsPlainRecord, IsStridedByte, PlainBy, in_records,
}
use ascend_mssanitizer.Checker.Overlap.{
  split_mem, EventIdxInfo, is_memory_overlap, Found, is_mixed_overlap, trans_to_records,
  walk_series, is_dynamic_overlap, same_mem_type,
}
use ascend_mssanitizer.Checker.Bytes.Strided.{SoundNext, next_itv-Sound}
use ascend_mssanitizer.Checker.Series.{MemSeries, blocks_left, Interval, next_itv, mem_series}
use ascend_mssanitizer.Checker.Pairs.{is_mem_space_overlap}
use ascend_mssanitizer.Checker.Bytes.Blocks.{
  mem_series-IsSound, trans_to_records-Spans, split_mem-Spans,
}
use ascend_mssanitizer.Checker.Bytes.Walks.{
  walk_series-IsShared, IsShared, walk_records-IsShared, walk_mixed-FoundShared, FoundShared,
}
use ascend_mssanitizer.Event.{MemEvent, MemOpInfo, DynamicOpInfo}

-- There is a byte that both accesses touch.
abbrev pub ShareByte : MemEvent → MemEvent → Type 0
ShareByte e1 e2 = IsShared (IsByte e1) (IsByte e2)

swapped : (P Q : ℕ → Type 0) → IsShared P Q → IsShared Q P
swapped P Q h = (h.0, h.2, h.1)

abbrev series_walk :
    MemOpInfo → MemOpInfo → Option (Interval × MemSeries) → Option (Interval × MemSeries) → Bool
series_walk m1 m2 u v = elim u [
  | none ↦ false
  | some a ↦ elim v [
    | none ↦ false
    | some b ↦
        walk_series (suc (blocks_left (mem_series m1) + blocks_left (mem_series m2))) a.0 a.1 b.0
          b.1
  ]
]

series_walk-IsShared :
    (P Q : ℕ → Type 0) (m1 m2 : MemOpInfo) (u v : Option (Interval × MemSeries))
    → SoundNext P u
    → SoundNext Q v
    → series_walk m1 m2 u v ≡ true
    → IsShared P Q
series_walk-IsShared P Q m1 m2 none v p q h = absurd (ground (arith, h))
series_walk-IsShared P Q m1 m2 (some u) none p q h = absurd (ground (arith, h))
series_walk-IsShared P Q m1 m2 (some u) (some v) p q h =
    walk_series-IsShared P Q (suc (blocks_left (mem_series m1) + blocks_left (mem_series m2))) u.0
      v.0 u.1 v.1 p.0 q.0 p.1 q.1 h

unguarded : (c b : Bool) → (if not c then false else b) ≡ true → b ≡ true
unguarded c b h = ground (arith, h)

as_series_walk :
    (m1 m2 : MemOpInfo)
    → is_memory_overlap m1 m2 ≡ (
        if not (same_mem_type m1.mem_type m2.mem_type)
        then false
        else series_walk m1 m2 (next_itv (mem_series m1)) (next_itv (mem_series m2)))
unfolding is_memory_overlap
as_series_walk m1 m2 = refl

strided-IsShared :
    (m1 m2 : MemOpInfo)
    → IsPlainOp m1
    → IsPlainOp m2
    → is_memory_overlap m1 m2 ≡ true
    → IsShared (IsStridedByte m1) (IsStridedByte m2)
strided-IsShared m1 m2 p q h =
    let walked : series_walk m1 m2 (next_itv (mem_series m1)) (next_itv (mem_series m2)) ≡ true =
      unguarded _ _ (sym (as_series_walk m1 m2) ∙ h) in
    series_walk-IsShared (IsStridedByte m1) (IsStridedByte m2) m1 m2 _ _
      (next_itv-Sound _ _ (mem_series-IsSound m1 p)) (next_itv-Sound _ _ (mem_series-IsSound m2 q))
      walked

abbrev IsRecordByte : DynamicOpInfo → ℕ → Type 0
IsRecordByte d x = in_records d.buffer x ≡ true

dynamic-IsShared :
    (d1 d2 : DynamicOpInfo) (i1 i2 : EventIdxInfo)
    → All IsPlainRecord d1.buffer
    → All IsPlainRecord d2.buffer
    → (is_dynamic_overlap d1 d2 i1 i2).0 ≡ true
    → IsShared (IsRecordByte d1) (IsRecordByte d2)
unfolding is_dynamic_overlap
dynamic-IsShared d1 d2 i1 i2 p q =
    let found =
      walk_records-IsShared (IsRecordByte d1) (IsRecordByte d2)
        (length d1.buffer + length d2.buffer) (trans_to_records d1.buffer)
        (trans_to_records d2.buffer) (false, i1, i2)
        (trans_to_records-Spans (IsRecordByte d1) d1.buffer p (λ x h. h))
        (trans_to_records-Spans (IsRecordByte d2) d2.buffer q (λ x h. h))
        (λ h. absurd (ground (arith, h))) in
    elim (Bool-cases (d1.is_shadow_memory && d2.is_shadow_memory)) [
      | inl b ↦ rw b found
      | inr b ↦ rw b (λ h. absurd (ground (arith, h)))
    ]

abbrev mixed_of : EventIdxInfo → Option ℕ → Bool × EventIdxInfo
mixed_of i none = (false, i)
mixed_of i (some k) = (true, record i { dynamic_error_idx = k })

mixed_of-IsShared :
    (P Q : ℕ → Type 0) (i : EventIdxInfo) (o : Option ℕ)
    → FoundShared P Q o
    → (mixed_of i o).0 ≡ true
    → IsShared P Q
mixed_of-IsShared P Q i none f h = absurd (ground (arith, h))
mixed_of-IsShared P Q i (some k) f h = f

mixed-IsShared :
    (m : MemOpInfo) (d : DynamicOpInfo) (i : EventIdxInfo)
    → IsPlainOp m
    → All IsPlainRecord d.buffer
    → (is_mixed_overlap m d i).0 ≡ true
    → IsShared (IsStridedByte m) (IsRecordByte d)
unfolding is_mixed_overlap
mixed-IsShared m d i p q =
    let found =
      walk_mixed-FoundShared (IsStridedByte m) (IsRecordByte d)
        (length (split_mem m) + length d.buffer) m.op_type (split_mem m) (trans_to_records d.buffer)
        (split_mem-Spans m p) (trans_to_records-Spans (IsRecordByte d) d.buffer q (λ x h. h)) in
    elim (Bool-cases d.is_shadow_memory) [
      | inl b ↦ rw b (mixed_of-IsShared _ _ i _ found)
      | inr b ↦ rw b (λ h. absurd (ground (arith, h)))
    ]

module _ (e1 e2 : MemEvent) (i1 i2 : EventIdxInfo) where
  -- The answer for the two kinds of access.
  abbrev Answer : Bool → Bool → Found
  Answer true true = is_dynamic_overlap e1.dynamic_mem_info e2.dynamic_mem_info i1 i2
  Answer true false =
      let (left, i1') = is_mixed_overlap e2.mem_info e1.dynamic_mem_info i1 in (left, i1', i2)
  Answer false true =
      let (right, i2') = is_mixed_overlap e1.mem_info e2.dynamic_mem_info i2 in (right, i1, i2')
  Answer false false = (is_memory_overlap e1.mem_info e2.mem_info, i1, i2)

  answer-IsShared :
      (b c : Bool)
      → PlainBy b e1
      → PlainBy c e2
      → (Answer b c).0 ≡ true
      → IsShared (ByteBy b e1) (ByteBy c e2)
  answer-IsShared true true p q h =
      dynamic-IsShared e1.dynamic_mem_info e2.dynamic_mem_info i1 i2 p q h
  answer-IsShared true false p q h =
      swapped _ _ (mixed-IsShared e2.mem_info e1.dynamic_mem_info i1 q p h)
  answer-IsShared false true p q h = mixed-IsShared e1.mem_info e2.dynamic_mem_info i2 p q h
  answer-IsShared false false p q h = strided-IsShared e1.mem_info e2.mem_info p q h

  as_answer : is_mem_space_overlap e1 e2 i1 i2 ≡ Answer e1.is_dynamic e2.is_dynamic
  unfolding is_mem_space_overlap
  as_answer = elim (Bool-cases e1.is_dynamic) [
    | inl a ↦ elim (Bool-cases e2.is_dynamic) [ inl b ↦ rw (a, b) refl | inr b ↦ rw (a, b) refl ]
    | inr a ↦ elim (Bool-cases e2.is_dynamic) [ inl b ↦ rw (a, b) refl | inr b ↦ rw (a, b) refl ]
  ]

  pub is_mem_space_overlap-ShareByte :
      IsPlain e1 → IsPlain e2 → (is_mem_space_overlap e1 e2 i1 i2).0 ≡ true → ShareByte e1 e2
  is_mem_space_overlap-ShareByte p q h =
      answer-IsShared e1.is_dynamic e2.is_dynamic p q (sym (ap (λ f. f.0) as_answer) ∙ h)
