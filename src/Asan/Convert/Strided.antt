-- ===== src/Asan/Convert/Strided.antt =====
-- The bytes that the records of an access cover.
use ascend_mssanitizer.Base.{
  ◌<◌, ◌&&◌, Bool, ◌∷◌, ◌≡◌, ◌||◌, ℕ, refl, false, List, ◌+◌, zero, ltb, suc, leb, [], ◌^◌, ◌*◌,
  Bool-cases, inr, arith, ◌≤◌, ◌-◌, ◌==◌, inl, sym, ==_iff, subst, ◌∙◌, min, ap,
}
use ascend_mssanitizer.Asan.Convert.{store_each, stored, convert_single_record_repeats, repeat_size}
use ascend_mssanitizer.Asan.Record.{MemOpRecord}
use native.Mathlib.Nat.{
  add-mul, suc-mul, one-mul, zero-mul, mul-zero, mul-suc, mul_comm, mul-le-mul_left,
  mul-le-mul_right, mul-one,
}
use ascend_mssanitizer.Base.Words.{u64, u32}
use ascend_mssanitizer.Event.{MemOpInfo}

-- Some record holds the byte.
unfoldable pub held : ℕ → List MemOpRecord → Bool
held x [] = false
held x (r ∷ rs) = (leb r.dst_addr x && ltb x (r.dst_addr + r.mem_size)) || held x rs

-- The byte lies in one of `n` ranges of one size, `step` apart.
unfoldable pub strided : ℕ → ℕ → ℕ → ℕ → ℕ → Bool
strided x base step size zero = false
strided x base step size (suc n) =
    (leb base x && ltb x (base + size)) || strided x (base + step) step size n

next_index : (i n step : ℕ) → (i + suc n) * step ≡ i * step + step + n * step
next_index i n step = omega (arith, add-mul i (suc n) step, suc-mul n step)

after_one : (i step : ℕ) → (i + 1) * step ≡ i * step + step
after_one i step = omega (arith, add-mul i 1 step, one-mul step)

pub store_each-held :
    (n i : ℕ) (r : MemOpRecord) (addr step size x : ℕ)
    → addr + (i + n) * step < 2 ^ 64
    → held x (store_each n i r addr step size) ≡ strided x (addr + i * step) step size n
unfolding store_each stored held strided
store_each-held zero i r addr step size x h = refl
store_each-held (suc n) i r addr step size x h =
    let total = next_index i n step in
    let low : u64 (i * step) ≡ i * step = omega arith in
    let small : u64 (addr + i * step) ≡ addr + i * step = omega arith in
    let shift : addr + (i + 1) * step ≡ addr + i * step + step = omega (arith, after_one i step) in
    let rest =
      store_each-held n (i + 1) r addr step size x
        (omega (arith, after_one i step, add-mul (i + 1) n step)) in
    rw (low, small, rest, shift) refl

only_one :
    (x base size : ℕ)
    → ((leb base x && ltb x (base + size)) || false) ≡ (leb base x && ltb x (base + 0 + size))
only_one x base size = ground arith

merge_step :
    (x base step size p : ℕ)
    → step ≤ size
    → ((leb base x && ltb x (base + size))
        || (leb (base + step) x && ltb x (base + step + p + size)))
      ≡ (leb base x && ltb x (base + (p + step) + size))
merge_step x base step size p h = ground arith

-- Ranges that are not further apart than their size make one range.
merged :
    (n x base step size : ℕ)
    → step ≤ size
    → strided x base step size (suc n) ≡ (leb base x && ltb x (base + step * n + size))
unfolding strided
merged zero x base step size h =
    let none : step * 0 ≡ 0 = mul-zero step in rw none (only_one x base size)
merged (suc n) x base step size h =
    rw (merged n x (base + step) step size h, mul-suc step n)
      (merge_step x base step size (step * n) h)

-- The bytes of an access whose blocks follow one another: a range for each repeat.
abbrev pub single_bytes : MemOpInfo → ℕ → Bool
single_bytes m x = strided x m.addr (m.repeat_stride * m.block_size) (repeat_size m) m.repeat_times

one_record :
    (x addr size : ℕ) (r : MemOpRecord)
    → held x (stored r addr size ∷ []) ≡ (leb addr x && ltb x (addr + size))
unfolding held stored
one_record x addr size r = ground arith

no_index : (n : ℕ) → n ≡ 0 + n
no_index n = omega arith

same_end :
    (x addr p size : ℕ)
    → p ≡ 0
    → (leb addr x && ltb x (addr + size)) ≡ (leb addr x && ltb x (addr + p + size))
same_end x addr p size h = ground arith

regrouped :
    (x addr p size : ℕ)
    → (leb addr x && ltb x (addr + (p + size))) ≡ (leb addr x && ltb x (addr + p + size))
regrouped x addr p size = ground arith

as_merged :
    (x base step size times : ℕ)
    → 0 < times
    → step ≤ size
    → strided x base step size times ≡ (leb base x && ltb x (base + step * (times - 1) + size))
as_merged x base step size times h k =
    let one_less : suc (times - 1) ≡ times = omega arith in
    subst
      (λ n. strided x base step size n ≡ (leb base x && ltb x (base + step * (times - 1) + size)))
      one_less (merged (times - 1) x base step size k)

single_records :
    (m : MemOpInfo) (r : MemOpRecord) (x : ℕ)
    → 0 < m.repeat_times
    → m.repeat_times ≤ 0x7FFF
    → m.repeat_stride * m.block_size < 2 ^ 32
    → m.addr + m.repeat_stride * m.block_size * m.repeat_times + repeat_size m < 2 ^ 64
    → held x (convert_single_record_repeats m r) ≡ single_bytes m x
unfolding convert_single_record_repeats
single_records m r x once most no32 no64 =
    let small : u32 (m.repeat_stride * m.block_size) ≡ m.repeat_stride * m.block_size =
      omega arith in
    elim (Bool-cases (m.repeat_stride == 0)) [
      | inl z ↦
          let still : m.repeat_stride * m.block_size ≡ 0 =
            ap (λ k. k * m.block_size) ((==_iff _ _).0 z) ∙ zero-mul m.block_size in
          let none : m.repeat_stride * m.block_size * (m.repeat_times - 1) ≡ 0 =
            ap (λ k. k * (m.repeat_times - 1)) still ∙ zero-mul (m.repeat_times - 1) in
          rw z (
            one_record x m.addr (repeat_size m) r
            ∙ same_end x m.addr _ (repeat_size m) none
            ∙ sym (
                as_merged x m.addr (m.repeat_stride * m.block_size) (repeat_size m) m.repeat_times
                  once (omega arith)))
      | inr z ↦ elim (Bool-cases (leb (m.repeat_stride * m.block_size) (repeat_size m))) [
        | inl c ↦
            let last : m.repeat_stride * m.block_size * (m.repeat_times - 1)
                ≤ m.repeat_stride * m.block_size * m.repeat_times =
              mul-le-mul_left (m.repeat_stride * m.block_size) (omega arith) in
            let inner : u64 (m.repeat_stride * m.block_size * (m.repeat_times - 1))
                ≡ m.repeat_stride * m.block_size * (m.repeat_times - 1) =
              omega arith in
            let outer : u64 (m.repeat_stride * m.block_size * (m.repeat_times - 1) + repeat_size m)
                ≡ m.repeat_stride * m.block_size * (m.repeat_times - 1) + repeat_size m =
              omega arith in
            rw (z, small, c, inner, outer)
              (one_record x m.addr _ r
                ∙ regrouped x m.addr _ (repeat_size m)
                ∙ sym (
                    as_merged x m.addr (m.repeat_stride * m.block_size) (repeat_size m)
                      m.repeat_times once (ground arith)))
        | inr c ↦
            let times : min m.repeat_times 0x7FFF ≡ m.repeat_times = omega arith in
            let first : m.addr + 0 * (m.repeat_stride * m.block_size) ≡ m.addr =
              omega (arith, zero-mul (m.repeat_stride * m.block_size)) in
            rw (z, small, c, times)
              (store_each-held m.repeat_times 0 r m.addr (m.repeat_stride * m.block_size)
                  (repeat_size m) x
                  (omega (
                    arith,
                    mul_comm (0 + m.repeat_times) (m.repeat_stride * m.block_size),
                    ap (λ k. m.repeat_stride * m.block_size * k) (sym (no_index m.repeat_times)),
                  ))
                ∙ ap
                    (λ k.
                      strided x k (m.repeat_stride * m.block_size) (repeat_size m) m.repeat_times)
                    first)
      ]
    ]

-- The byte lies in one of the blocks of the repeats from `base` on.
unfoldable pub repeat_bytes : MemOpInfo → ℕ → ℕ → ℕ → Bool
unfolding strided
repeat_bytes m x base zero = false
repeat_bytes m x base (suc n) =
    strided x base (m.block_stride * m.block_size) m.block_size m.block_num
    || repeat_bytes m x (base + m.repeat_stride * m.block_size) n

-- The byte lies in a block of the access: each repeat has `block_num` blocks, `block_stride` blocks apart.
unfoldable pub accessed : MemOpInfo → ℕ → Bool
unfolding repeat_bytes
accessed m x = repeat_bytes m x m.addr m.repeat_times

in_span :
    (x base p size span : ℕ)
    → p + size ≡ span
    → (leb base x && ltb x (base + p + size)) ≡ (leb base x && ltb x (base + span))
in_span x base p size span h = ground arith

module _ (m : MemOpInfo) (narrow : m.block_stride ≤ 1) (some_block : 0 < m.block_num)
    (no32 : m.block_size * m.block_num < 2 ^ 32) where
  -- What the blocks of a repeat reach over.
  repeat_span : m.block_stride * m.block_size * (m.block_num - 1) + m.block_size ≡ repeat_size m
  repeat_span = elim (Bool-cases (m.block_stride == 1)) [
    | inl e ↦
        let one : m.block_stride ≡ 1 = (==_iff _ _).0 e in
        let blocks = mul-suc m.block_size (m.block_num - 1) in
        let whole : suc (m.block_num - 1) ≡ m.block_num = omega arith in
        let all : m.block_size * suc (m.block_num - 1) ≡ m.block_size * m.block_num =
          ap (λ k. m.block_size * k) whole in
        let first : m.block_stride * m.block_size * (m.block_num - 1)
            ≡ m.block_size * (m.block_num - 1) =
          ap (λ k. k * m.block_size * (m.block_num - 1)) one
          ∙ ap (λ k. k * (m.block_num - 1)) (one-mul m.block_size) in
        rw e (omega (arith, blocks, all, first))
    | inr e ↦
        let none : m.block_stride ≡ 0 = ground (arith, e, narrow) in
        let still : m.block_stride * m.block_size * (m.block_num - 1) ≡ 0 =
          ap (λ k. k * m.block_size * (m.block_num - 1)) none
          ∙ ap (λ k. k * (m.block_num - 1)) (zero-mul m.block_size)
          ∙ zero-mul (m.block_num - 1) in
        rw e (omega (arith, still))
  ]

  repeat_small : repeat_size m ≤ m.block_size * m.block_num
  repeat_small = elim (Bool-cases (m.block_stride == 1)) [
    | inl e ↦ rw e (omega (arith, no32))
    | inr e ↦
        let least : m.block_size * 1 ≤ m.block_size * m.block_num =
          mul-le-mul_left m.block_size some_block in
        rw e (omega (arith, mul-one m.block_size, least))
  ]

  stride_small : m.block_stride * m.block_size ≤ m.block_size
  stride_small = omega (arith, one-mul m.block_size, mul-le-mul_right m.block_size narrow)

  one_repeat :
      (x base : ℕ)
      → strided x base (m.block_stride * m.block_size) m.block_size m.block_num
        ≡ (leb base x && ltb x (base + repeat_size m))
  one_repeat x base =
      as_merged x base (m.block_stride * m.block_size) m.block_size m.block_num some_block
        stride_small
      ∙ in_span x base _ _ _ repeat_span

  repeats-accessed :
      (n x base : ℕ)
      → strided x base (m.repeat_stride * m.block_size) (repeat_size m) n ≡ repeat_bytes m x base n
  unfolding strided repeat_bytes
  repeats-accessed zero x base = refl
  repeats-accessed (suc n) x base =
      rw (one_repeat x base, repeats-accessed n x (base + m.repeat_stride * m.block_size)) refl

-- For an access of blocks at one place or one after another, at least one, with 1 to 0x7FFF repeats, where
-- no product and no address wraps: the records that `ConvertSingleRecordRepeats` makes hold exactly the
-- bytes of the blocks of all repeats.
pub convert_single_record_repeats-held :
    (m : MemOpInfo) (r : MemOpRecord) (x : ℕ)
    → m.block_stride ≤ 1
    → 0 < m.block_num
    → 0 < m.repeat_times
    → m.repeat_times ≤ 0x7FFF
    → m.block_size * m.block_num < 2 ^ 32
    → m.repeat_stride * m.block_size < 2 ^ 32
    → m.addr + m.repeat_stride * m.block_size * m.repeat_times + m.block_size * m.block_num < 2 ^ 64
    → held x (convert_single_record_repeats m r) ≡ accessed m x
unfolding accessed
convert_single_record_repeats-held m r x narrow blocks once most size32 no32 no64 =
    single_records m r x once most no32 (omega (arith, repeat_small m narrow blocks size32))
    ∙ repeats-accessed m narrow blocks size32 m.repeat_times x m.addr
