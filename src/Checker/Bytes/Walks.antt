-- ===== src/Checker/Bytes/Walks.antt =====
-- The loops of csrc/race_sanitizer/alg_framework/mem_event_checker.cpp over the intervals of two accesses
-- find only intervals that share a byte.
use ascend_mssanitizer.Base.{
  if◌then◌else◌, suc, inr, not, Bool, ◌==◌, ℕ, [], List, ◌∙◌, ◌&&◌, none, ◌≡◌, true, sym, All, zero,
  some, false, Option, inl, arith, ◌∷◌, ltb, refl, Bool-cases,
}
use ascend_mssanitizer.Checker.Overlap.{
  sm_itv, walk_series, walk_mixed, both_read, meets, Found, walk_records, CompareShadowMemoryRecord,
}
use ascend_mssanitizer.Event.{AccessType}
use ascend_mssanitizer.Checker.Series.{Interval, MemSeries, next_itv}
use ascend_mssanitizer.Checker.Bytes.{Spans, common_byte}
use ascend_mssanitizer.Checker.Bytes.Strided.{next_itv-Sound, IsSound, SoundNext}
use ascend_mssanitizer.Checker.Bytes.Blocks.{RecordSpans}

module _ (P Q : ℕ → Type 0) where
  -- There is a byte with both properties.
  abbrev pub IsShared : Type 0
  IsShared = (x : ℕ) × P x × Q x

  abbrev left_walk : ℕ → Interval → MemSeries → Option (Interval × MemSeries) → Bool
  left_walk n b t none = false
  left_walk n b t (some u) = walk_series n u.0 u.1 b t

  abbrev right_walk : ℕ → Interval → MemSeries → Option (Interval × MemSeries) → Bool
  right_walk n a s none = false
  right_walk n a s (some u) = walk_series n a s u.0 u.1

  walk_left :
      (n : ℕ) (a b : Interval) (s t : MemSeries)
      → meets a b ≡ false
      → ltb a.end b.end ≡ true
      → walk_series (suc n) a s b t ≡ left_walk n b t (next_itv s)
  unfolding walk_series
  walk_left n a b s t e k = rw (walk_series, e, k) refl

  walk_right :
      (n : ℕ) (a b : Interval) (s t : MemSeries)
      → meets a b ≡ false
      → ltb a.end b.end ≡ false
      → walk_series (suc n) a s b t ≡ right_walk n a s (next_itv t)
  unfolding walk_series
  walk_right n a b s t e k = rw (walk_series, e, k) refl

  -- The same for the walk with fewer rounds, from any place.
  abbrev WalkFinds : ℕ → Type 0
  WalkFinds n =
      (a b : Interval) (s t : MemSeries)
      → Spans P a
      → Spans Q b
      → All (IsSound P) s
      → All (IsSound Q) t
      → walk_series n a s b t ≡ true
      → IsShared

  left-IsShared :
      (n : ℕ) (b : Interval) (t : MemSeries) (o : Option (Interval × MemSeries))
      → WalkFinds n
      → SoundNext P o
      → Spans Q b
      → All (IsSound Q) t
      → left_walk n b t o ≡ true
      → IsShared
  left-IsShared n b t none f u q ts h = absurd (ground (arith, h))
  left-IsShared n b t (some o) f u q ts h = f o.0 b o.1 t u.0 q u.1 ts h

  right-IsShared :
      (n : ℕ) (a : Interval) (s : MemSeries) (o : Option (Interval × MemSeries))
      → WalkFinds n
      → SoundNext Q o
      → Spans P a
      → All (IsSound P) s
      → right_walk n a s o ≡ true
      → IsShared
  right-IsShared n a s none f u p ss h = absurd (ground (arith, h))
  right-IsShared n a s (some o) f u p ss h = f a o.0 s o.1 p u.0 ss u.1 h

  pub walk_series-IsShared : (n : ℕ) → WalkFinds n
  walk_series-IsShared zero a b s t p q ss ts h = absurd (unfold walk_series in ground (arith, h))
  walk_series-IsShared (suc n) a b s t p q ss ts h = elim (Bool-cases (meets a b)) [
    | inl e ↦ common_byte P Q a b p q e
    | inr e ↦ elim (Bool-cases (ltb a.end b.end)) [
      | inl k ↦
          left-IsShared n b t (next_itv s) (walk_series-IsShared n) (next_itv-Sound P s ss) q ts
            (sym (walk_left n a b s t e k) ∙ h)
      | inr k ↦
          right-IsShared n a s (next_itv t) (walk_series-IsShared n) (next_itv-Sound Q t ts) p ss
            (sym (walk_right n a b s t e k) ∙ h)
    ]
  ]

  pub walk_records-IsShared :
      (n : ℕ) (rs1 rs2 : List CompareShadowMemoryRecord) (f : Found)
      → All (RecordSpans P) rs1
      → All (RecordSpans Q) rs2
      → (f.0 ≡ true → IsShared)
      → (walk_records n rs1 rs2 f).0 ≡ true
      → IsShared
  unfolding walk_records
  walk_records-IsShared zero rs1 rs2 f ps qs k = k
  walk_records-IsShared (suc n) [] rs2 f ps qs k = k
  walk_records-IsShared (suc n) (a ∷ rs1) [] f ps qs k = k
  walk_records-IsShared (suc n) (a ∷ rs1) (b ∷ rs2) (race, j1, j2) ps qs k =
      let ia = sm_itv a.sm_record in
      let ib = sm_itv b.sm_record in
      let hit = meets ia ib && not (both_read a.sm_record.access_type b.sm_record.access_type) in
      let found : Found =
        if hit
        then (
          true,
          record j1 { dynamic_error_idx = a.idx },
          record j2 { dynamic_error_idx = b.idx },
        )
        else (race, j1, j2) in
      let kept : found.0 ≡ true → IsShared = elim (Bool-cases hit) [
        | inl e ↦ λ h. common_byte P Q ia ib ps.0 qs.0 (ground (arith, e))
        | inr e ↦ rw e k
      ] in
      let far = walk_records-IsShared n rs1 (b ∷ rs2) found ps.1 qs kept in
      let both = walk_records-IsShared n rs1 rs2 found ps.1 qs.1 kept in
      let near = walk_records-IsShared n (a ∷ rs1) rs2 found ps qs.1 kept in
      elim (Bool-cases (hit && not (a.sm_record.pc == b.sm_record.pc))) [
        | inl x ↦ rw (walk_records, x) kept
        | inr x ↦ elim (Bool-cases (ltb ia.end ib.end)) [
          | inl y ↦ rw (walk_records, x, y) far
          | inr y ↦ elim (Bool-cases (ia.end == ib.end)) [
            | inl z ↦ rw (walk_records, x, y, z) both
            | inr z ↦ rw (walk_records, x, y, z) near
          ]
        ]
      ]

  -- The loop answers with a record only when it has found a byte.
  abbrev pub FoundShared : Option ℕ → Type 0
  FoundShared none = Unit
  FoundShared (some i) = IsShared

  pub walk_mixed-FoundShared :
      (n : ℕ) (op : AccessType) (rs1 : List Interval) (rs2 : List CompareShadowMemoryRecord)
      → All (Spans P) rs1
      → All (RecordSpans Q) rs2
      → FoundShared (walk_mixed n op rs1 rs2)
  unfolding walk_mixed
  walk_mixed-FoundShared zero op rs1 rs2 ps qs = tt
  walk_mixed-FoundShared (suc n) op [] rs2 ps qs = tt
  walk_mixed-FoundShared (suc n) op (a ∷ rs1) [] ps qs = tt
  walk_mixed-FoundShared (suc n) op (a ∷ rs1) (b ∷ rs2) ps qs =
      let ib = sm_itv b.sm_record in
      let far = walk_mixed-FoundShared n op rs1 (b ∷ rs2) ps.1 qs in
      let both = walk_mixed-FoundShared n op rs1 rs2 ps.1 qs.1 in
      let near = walk_mixed-FoundShared n op (a ∷ rs1) rs2 ps qs.1 in
      elim (Bool-cases (meets a ib && not (both_read b.sm_record.access_type op))) [
        | inl x ↦ rw (walk_mixed, x) (common_byte P Q a ib ps.0 qs.0 (ground (arith, x)))
        | inr x ↦ elim (Bool-cases (ltb a.end ib.end)) [
          | inl y ↦ rw (walk_mixed, x, y) far
          | inr y ↦ elim (Bool-cases (a.end == ib.end)) [
            | inl z ↦ rw (walk_mixed, x, y, z) both
            | inr z ↦ rw (walk_mixed, x, y, z) near
          ]
        ]
      ]
