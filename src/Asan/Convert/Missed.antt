-- ===== src/Asan/Convert/Missed.antt =====
-- A branch of the conversion that leaves out bytes.
use native.Mathlib.Nat.{
  add-mul, suc-mul, mul_comm, mul-le-mul_left, mul-le-mul_right, zero-mul, mul-one,
}
use ascend_mssanitizer.Base.{
  refl, leb, max, ◌==◌, ◌≡◌, ◌≤◌, ◌∙◌, ◌&&◌, ℕ, arith, ◌<◌, ◌*◌, false, true, suc, ◌+◌, subst, ap,
  zero, ltb, ◌^◌, ◌-◌,
}
use ascend_mssanitizer.Asan.Convert.Strided.{held, store_each-held, strided}
use ascend_mssanitizer.Asan.Record.{MemOpRecord}
use ascend_mssanitizer.Event.{MemOpInfo}
use ascend_mssanitizer.Asan.Convert.{convert_muti_record_repeats}

-- The first byte of a block of a repeat.
abbrev pub block_at : MemOpInfo → ℕ → ℕ → ℕ
block_at m rep blk =
    m.addr + rep * (m.repeat_stride * m.block_size) + blk * (m.block_stride * m.block_size)

strided_past :
    (n x base step size : ℕ)
    → size ≤ step
    → base + n * step ≤ x
    → strided x base step size n ≡ false
unfolding strided
strided_past zero x base step size h k = refl
strided_past (suc n) x base step size h k =
    let split = suc-mul n step in
    let after : (leb base x && ltb x (base + size)) ≡ false = ground arith in
    rw (after, strided_past n x (base + step) step size h (omega (arith, split))) refl

-- For an access of at least two repeats of at least two blocks, where the repeats are as far apart as the
-- blocks, more than one block, and nothing wraps, no record that `ConvertMutiRecordRepeats` makes holds the
-- first byte of the last block of the last repeat.
pub convert_muti_record_repeats-missed :
    (m : MemOpInfo) (r : MemOpRecord)
    → m.repeat_stride ≡ m.block_stride
    → 2 ≤ m.block_stride
    → 2 ≤ m.block_num
    → 2 ≤ m.repeat_times
    → m.addr + (m.block_num + m.repeat_times) * (m.block_size * m.block_stride) < 2 ^ 64
    → held (block_at m (m.repeat_times - 1) (m.block_num - 1)) (convert_muti_record_repeats m r)
      ≡ false
unfolding convert_muti_record_repeats
convert_muti_record_repeats-missed m r same wide blocks times no64 =
    let step : ℕ = m.block_size * m.block_stride in
    let n : ℕ = max m.block_num m.repeat_times in
    let x : ℕ = block_at m (m.repeat_times - 1) (m.block_num - 1) in
    let z0 : (m.repeat_stride == 0) ≡ false = ground arith in
    let z1 : (m.repeat_stride == 1) ≡ false = ground arith in
    let eq : (m.repeat_stride == m.block_stride) ≡ true = ground arith in
    let turned = mul_comm m.block_stride m.block_size in
    let turned' : m.repeat_stride * m.block_size ≡ step =
      ap (λ k. k * m.block_size) same ∙ turned in
    let far : x ≡ m.addr + ((m.repeat_times - 1) + (m.block_num - 1)) * step = omega (
      arith,
      add-mul (m.repeat_times - 1) (m.block_num - 1) step,
      ap (λ k. (m.repeat_times - 1) * k) turned',
      ap (λ k. (m.block_num - 1) * k) turned,
    ) in
    let most : n * step ≤ ((m.repeat_times - 1) + (m.block_num - 1)) * step =
      mul-le-mul_right step (omega arith) in
    let room : (0 + n) * step ≤ (m.block_num + m.repeat_times) * step =
      mul-le-mul_right step (omega arith) in
    let fits : m.block_size ≤ step =
      subst (λ k. k ≤ step) (mul-one m.block_size) (mul-le-mul_left m.block_size (omega arith)) in
    rw (z0, z1, eq)
      (store_each-held n 0 r m.addr step m.block_size x (omega arith)
        ∙ strided_past n x (m.addr + 0 * step) step m.block_size fits
            (omega (arith, far, most, zero-mul step)))
