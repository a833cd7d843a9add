-- ===== src/Asan/Shadow/Undefined.antt =====
-- The walk that looks for bytes without a value.
use ascend_mssanitizer.Base.{
  ◌≤◌, ltb, ℕ, suc, arith, inl, subst, ltb→lt, if◌then◌else◌, zero, Bool-cases, inr, ◌≡◌, ◌+◌, ◌==◌,
  ◌<◌, refl, ◌-◌, Bool, ap,
}
use ascend_mssanitizer.Asan.Shadow.Bytewise.{counted-alike, counted-split}
use ascend_mssanitizer.Asan.Shadow.{get_mem_status, undefined_bytes, undefined}
use ascend_mssanitizer.PipeLine.Progress.{fuel}
use ascend_mssanitizer.Asan.Bounds.Check.{counted}
use ascend_mssanitizer.Asan.Bounds.Refines.{fits}
use ascend_mssanitizer.Asan.Memory.{Memory}

counted-over : (p : ℕ → Bool) (it end : ℕ) → end ≤ it → 0 ≡ counted p it (end - it)
unfolding counted
counted-over p it end h = let none : end - it ≡ 0 = omega arith in rw none refl

module _ (mem : Memory) where
  open mem use {
    Map, get, put_range, unified, limit, same_limit, reads, unified_pos, unified_fits, unified_same,
  }

  -- A byte that was allocated and never written.
  abbrev pub is_undefined : Map → ℕ → Bool
  is_undefined m x = get_mem_status (get m x) == undefined

  scan :
      (fuel : ℕ) (m : Map) (base size it : ℕ)
      → base + size ≤ limit m
      → base + size ≤ it + fuel
      → undefined_bytes mem fuel m base size it ≡ counted (is_undefined m) it (base + size - it)
  unfolding undefined_bytes
  scan zero m base size it fits enough =
      counted-over (is_undefined m) it (base + size) (omega arith)
  scan (suc fuel) m base size it fits enough = elim (Bool-cases (ltb it (base + size))) [
    | inr over ↦ rw over (counted-over (is_undefined m) it (base + size) (ground arith))
    | inl c ↦
        let inside : it < base + size = ltb→lt _ _ c in
        let n : ℕ = unified m base size it in
        let pos : 0 < n = unified_pos m base size it inside fits in
        let within : it + n ≤ base + size = unified_fits m base size it inside fits in
        let p : ℕ → Bool = is_undefined m in
        let run = counted-alike p it n (p it) (λ k l.
          ap (λ b. get_mem_status b == undefined) (unified_same m base size it k inside fits l)) in
        let rest = scan fuel m base size (it + n) fits (omega arith) in
        let whole : n + (base + size - (it + n)) ≡ base + size - it = omega arith in
        rw c (
          subst
            (λ k.
              (if p it then n else 0) + undefined_bytes mem fuel m base size (it + n)
              ≡ counted p it k)
            whole (omega (arith, run, rest, counted-split p it n (base + size - (it + n)))))
  ]

  -- On a range below the limit of any memory, the walk by runs of equal bytes counts exactly the bytes of
  -- the range that were never written, with a turn for each byte of the range at most.
  pub undefined_bytes-counted :
      (m : Map) (base size : ℕ)
      → base + size ≤ limit m
      → undefined_bytes mem size m base size base ≡ counted (is_undefined m) base size
  undefined_bytes-counted m base size fits =
      let whole : base + size - base ≡ size = omega arith in
      subst (λ k. undefined_bytes mem size m base size base ≡ counted (is_undefined m) base k) whole
        (scan size m base size base fits (omega arith))
