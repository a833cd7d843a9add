-- ===== src/Checker/Bytes/Blocks.antt =====
-- The intervals that csrc/race_sanitizer/alg_framework/mem_event_checker.cpp makes of an access stand for its
-- bytes: those of a series, those of `SplitMem`, and those of shadow memory records.
use ascend_mssanitizer.Base.{
  ◌*◌, ◌<◌, [], ◌+◌, ℕ, ◌==◌, if◌then◌else◌, Bool, List, All-append, false, ◌∷◌, arith, suc, ◌∙◌,
  zero, ◌≤◌, ◌≡◌, ap, ◌^◌, All, refl, true,
}
use ascend_mssanitizer.Checker.Bytes.{
  in_records, IsPlainRecord, IsPlainOp, block_start, Spans, IsStridedByte,
}
use ascend_mssanitizer.Checker.Series.{mem_series, Interval, repeats, cur_itv, itv_before}
use ascend_mssanitizer.Checker.Overlap.{
  sm_itv, split_mem, number_from, trans_to_records, CompareShadowMemoryRecord, split_repeat,
  compare_sm_record, split_from,
}
use ascend_mssanitizer.Event.{ShadowMemoryRecord, MemOpInfo}
use ascend_mssanitizer.Base.Words.{u32, u64}
use native.Mathlib.Nat.{mul-le-mul_right, mul_assoc, mul_comm}
use ascend_mssanitizer.Base.Sort.{sort_by-All}
use ascend_mssanitizer.Checker.Bytes.Strided.{IsSound}

module _ (m : MemOpInfo) (plain : IsPlainOp m) where
  abbrev IsBlock : ℕ → ℕ → Interval → Type 0
  IsBlock i j a = (a.start ≡ block_start m i j) × (a.end ≡ block_start m i j + m.block_size)

  block_small :
      (i j : ℕ)
      → i < m.repeat_times
      → j < m.block_num
      → (i * (m.repeat_stride * m.block_size) ≤ m.repeat_times * (m.repeat_stride * m.block_size))
        × (block_start m i j + m.block_size < 2 ^ 64)
  block_small i j hi hj =
      let rep : i * (m.repeat_stride * m.block_size)
          ≤ m.repeat_times * (m.repeat_stride * m.block_size) =
        mul-le-mul_right (m.repeat_stride * m.block_size) (omega (arith, hi)) in
      let blk : j * (m.block_size * m.block_stride)
          ≤ m.block_num * (m.block_size * m.block_stride) =
        mul-le-mul_right (m.block_size * m.block_stride) (omega (arith, hj)) in
      (rep, omega (arith, rep, blk, plain.3))

  block-Spans :
      (i j : ℕ) (a : Interval)
      → i < m.repeat_times
      → j < m.block_num
      → IsBlock i j a
      → Spans (IsStridedByte m) a
  block-Spans i j a hi hj b = (
    omega (arith, b.0, b.1, plain.0),
    λ x from to. (i, j, hi, hj, omega (arith, b.0, from), omega (arith, b.1, to)),
  )

  either : (c : Bool) (k : ℕ) → (if c then k else k) ≡ k
  either true k = refl
  either false k = refl

  -- The block `j` of a repeat of a series.
  series_itv :
      (i j : ℕ) (last : Bool)
      → i < m.repeat_times
      → j < m.block_num
      → let start = u64 (
          u64 (m.addr + i * u32 (m.repeat_stride * m.block_size))
          + j * m.block_size * m.block_stride) in
        IsBlock i j (record {
          start = start;
          end = u64 (start + (if last then m.block_size else m.block_size));
        })
  series_itv i j last hi hj =
      let small = block_small i j hi hj in
      let no_wrap : u32 (m.repeat_stride * m.block_size) ≡ m.repeat_stride * m.block_size =
        omega (arith, plain.2) in
      rw (no_wrap, mul_assoc j m.block_size m.block_stride, either last m.block_size)
        (omega (arith, small.1), omega (arith, small.1))

  repeats-IsSound :
      (n i : ℕ) → i + n ≤ m.repeat_times → All (IsSound (IsStridedByte m)) (repeats m i n)
  unfolding repeats cur_itv
  repeats-IsSound zero i h = tt
  repeats-IsSound (suc n) i h =
      let here : i < m.repeat_times = omega (arith, h) in
      (
        record {
          more = plain.1;
          spans = λ j k. block-Spans i j _ here k (series_itv i j (j + 1 == m.block_num) here k);
          in_order = λ j k le top.
              let low = series_itv i j (j + 1 == m.block_num) here (omega (arith, le, top)) in
              let up = series_itv i k (k + 1 == m.block_num) here top in
              let order : j * (m.block_size * m.block_stride)
                  ≤ k * (m.block_size * m.block_stride) =
                mul-le-mul_right (m.block_size * m.block_stride) le in
              omega (arith, low.0, up.0, order);
        },
        repeats-IsSound n (suc i) (omega (arith, h)),
      )

  pub mem_series-IsSound : All (IsSound (IsStridedByte m)) (mem_series m)
  unfolding mem_series
  mem_series-IsSound = repeats-IsSound m.repeat_times 0 (omega arith)

  split_itv :
      (i j : ℕ)
      → i < m.repeat_times
      → j < m.block_num
      → let start =
          u64 (
            u64 (m.addr + i * m.repeat_stride * m.block_size)
            + j * m.block_stride * m.block_size) in
        IsBlock i j (record { start = start; end = u64 (start + m.block_size) })
  split_itv i j hi hj =
      let small = block_small i j hi hj in
      let turned : j * m.block_stride * m.block_size ≡ j * (m.block_size * m.block_stride) =
        mul_assoc j m.block_stride m.block_size
        ∙ ap (λ k. j * k) (mul_comm m.block_stride m.block_size) in
      rw (mul_assoc i m.repeat_stride m.block_size, turned)
        (omega (arith, small.1), omega (arith, small.1))

  split_repeat-Spans :
      (n i j : ℕ)
      → i < m.repeat_times
      → j + n ≤ m.block_num
      → All
          (Spans (IsStridedByte m))
          (split_repeat m (u64 (m.addr + i * m.repeat_stride * m.block_size)) j n)
  unfolding split_repeat
  split_repeat-Spans zero i j h k = tt
  split_repeat-Spans (suc n) i j h k = (
    block-Spans i j _ h (omega (arith, k)) (split_itv i j h (omega (arith, k))),
    split_repeat-Spans n i (suc j) h (omega (arith, k)),
  )

  split_from-Spans :
      (n i : ℕ) → i + n ≤ m.repeat_times → All (Spans (IsStridedByte m)) (split_from m i n)
  unfolding split_from
  split_from-Spans zero i h = tt
  split_from-Spans (suc n) i h =
      All-append (Spans (IsStridedByte m))
        (split_repeat m (u64 (m.addr + i * m.repeat_stride * m.block_size)) 0 m.block_num)
        (split_from m (suc i) n)
        (split_repeat-Spans m.block_num i 0 (omega (arith, h)) (omega arith))
        (split_from-Spans n (suc i) (omega (arith, h)))

  pub split_mem-Spans : All (Spans (IsStridedByte m)) (split_mem m)
  unfolding split_mem
  split_mem-Spans =
      sort_by-All itv_before (Spans (IsStridedByte m)) (split_from m 0 m.repeat_times)
        (split_from-Spans m.repeat_times 0 (omega arith))

module _ (P : ℕ → Type 0) where
  -- The record's range holds bytes with the property.
  abbrev pub RecordSpans : CompareShadowMemoryRecord → Type 0
  RecordSpans c = Spans P (sm_itv c.sm_record)

  number_from-Spans :
      (rs : List ShadowMemoryRecord) (i : ℕ)
      → All IsPlainRecord rs
      → ((x : ℕ) → in_records rs x ≡ true → P x)
      → All RecordSpans (number_from i rs)
  unfolding number_from in_records
  number_from-Spans [] i h p = tt
  number_from-Spans (r ∷ rs) i h p =
      let end : u64 (r.addr + r.size) ≡ r.addr + r.size = omega (arith, h.0.1) in
      (
        (omega (arith, end, h.0.0), λ x from to. p x (ground (arith, from, to, end))),
        number_from-Spans rs (suc i) h.1 (λ x here. p x (ground (arith, here))),
      )

  pub trans_to_records-Spans :
      (rs : List ShadowMemoryRecord)
      → All IsPlainRecord rs
      → ((x : ℕ) → in_records rs x ≡ true → P x)
      → All RecordSpans (trans_to_records rs)
  unfolding trans_to_records
  trans_to_records-Spans rs h p =
      sort_by-All compare_sm_record RecordSpans (number_from 0 rs) (number_from-Spans rs 0 h p)
