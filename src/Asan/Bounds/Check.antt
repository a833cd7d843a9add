-- ===== src/Asan/Bounds/Check.antt =====
-- `DiscreteBounds::Check` counts the bytes of an access that no range covers.
use ascend_mssanitizer.Asan.Bounds.Cover.{
  IsOrdered, covered, in_range, Parts, covered_below, covered_above, upper_bound-Parts, HeadIs,
}
use ascend_mssanitizer.Base.{
  ℕ, ◌≤◌, ◌∙◌, Bool, refl, ◌||◌, suc, zero, ◌≡◌, false, ◌&&◌, List, ◌+◌, ap, ◌∷◌, ◌<◌, not, arith,
  if◌then◌else◌, ◌==◌, lt_or_le, Bool-cases, [], max, ltb, ◌^◌, ◌-◌, inr, inl, leb, subst, ltb→lt,
  true,
}
use ascend_mssanitizer.Asan.Bounds.{
  overlap_size, Range, bad_bytes, check, check_addr_only, upper_bound,
}
use ascend_mssanitizer.Asan.Bounds.Remove.{lower}
use ascend_mssanitizer.Asan.Msg.{no_error, bad_range}
use ascend_mssanitizer.Base.Words.{u64}

-- The number of addresses of a block that a test accepts.
unfoldable pub counted : (ℕ → Bool) → ℕ → ℕ → ℕ
counted p addr zero = 0
counted p addr (suc n) = (if p (addr + n) then 1 else 0) + counted p addr n

-- The bytes of the block [addr, addr + size) outside the ranges.
unfoldable pub uncovered : ℕ → ℕ → List Range → ℕ
unfolding counted covered
uncovered addr size rs = counted (λ x. not (covered x rs)) addr size

pub counted-ext :
    (p q : ℕ → Bool) (addr n : ℕ)
    → ((x : ℕ) → addr ≤ x → x < addr + n → p x ≡ q x)
    → counted p addr n ≡ counted q addr n
unfolding counted
counted-ext p q addr zero h = refl
counted-ext p q addr (suc n) h =
    rw
      (
        h (addr + n) (omega arith) (omega arith),
        counted-ext p q addr n (λ x k l. h x k (omega arith)),
      )
      refl

counted-none : (addr n : ℕ) → counted (λ x. false) addr n ≡ 0
unfolding counted
counted-none addr zero = refl
counted-none addr (suc n) = omega (arith, counted-none addr n)

pub counted-not :
    (p : ℕ → Bool) (addr n : ℕ) → counted (λ x. not (p x)) addr n + counted p addr n ≡ n
unfolding counted
counted-not p addr zero = refl
counted-not p addr (suc n) = ground (arith, counted-not p addr n)

counted-or :
    (p q : ℕ → Bool) (addr n : ℕ)
    → ((x : ℕ) → (p x && q x) ≡ false)
    → counted (λ x. p x || q x) addr n ≡ counted p addr n + counted q addr n
unfolding counted
counted-or p q addr zero h = refl
counted-or p q addr (suc n) h = ground (arith, h (addr + n), counted-or p q addr n h)

-- One range covers as many bytes of the block as the two overlap.
counted-in_range :
    (r : Range) (addr n : ℕ)
    → r.addr_l ≤ r.addr_r
    → counted (λ x. in_range x r) addr n
      ≡ overlap_size (record { addr_l = addr; addr_r = addr + n }) r
unfolding counted
counted-in_range r addr zero h = ground arith
counted-in_range r addr (suc n) h = ground (arith, counted-in_range r addr n h)

disjoint :
    (x : ℕ) (r : Range) (rs : List Range)
    → IsOrdered r.addr_r rs
    → (in_range x r && covered x rs) ≡ false
disjoint x r rs o = elim (lt_or_le x r.addr_r) [
  | inl h ↦ rw (covered_below x r.addr_r rs o h) (ground arith)
  | inr h ↦ ground arith
]

pub counted-covered :
    (r : Range) (rs : List Range) (addr n : ℕ)
    → r.addr_l ≤ r.addr_r
    → IsOrdered r.addr_r rs
    → counted (λ x. covered x (r ∷ rs)) addr n
      ≡ overlap_size (record { addr_l = addr; addr_r = addr + n }) r
        + counted (λ x. covered x rs) addr n
unfolding covered
counted-covered r rs addr n h o =
    counted-or (λ x. in_range x r) (λ x. covered x rs) addr n (λ x. disjoint x r rs o)
    ∙ ap (λ k. k + counted (λ x. covered x rs) addr n) (counted-in_range r addr n h)

pub counted-nil : (addr n : ℕ) → counted (λ x. covered x []) addr n ≡ 0
unfolding covered
counted-nil addr n = counted-none addr n

counted-past :
    (addr n : ℕ) (rs : List Range) (lo : ℕ)
    → IsOrdered lo rs
    → addr + n ≤ lo
    → counted (λ x. covered x rs) addr n ≡ 0
counted-past addr n rs lo o h =
    counted-ext (λ x. covered x rs) (λ x. false) addr n
      (λ x k l. covered_below x lo rs o (omega arith))
    ∙ counted-none addr n

counted-most : (p : ℕ → Bool) (addr n : ℕ) → counted p addr n ≤ n
counted-most p addr n = omega (arith, counted-not p addr n)

sub_wrap : (bad o c : ℕ) → bad < 2 ^ 64 → o + c ≤ bad → u64 (bad + (2 ^ 64 - o)) ≡ bad - o
sub_wrap bad o c h k = omega arith

-- The loop subtracts what the ranges cover.
bad_bytes-counted :
    (addr n bad : ℕ) (rs : List Range) (lo : ℕ)
    → IsOrdered lo rs
    → bad < 2 ^ 64
    → counted (λ x. covered x rs) addr n ≤ bad
    → bad_bytes (record { addr_l = addr; addr_r = addr + n }) bad rs
      ≡ bad - counted (λ x. covered x rs) addr n
unfolding bad_bytes
bad_bytes-counted addr n bad [] lo o h k = omega (arith, counted-nil addr n)
bad_bytes-counted addr n bad (r ∷ rs) lo o h k = elim (Bool-cases (leb (addr + n) r.addr_l)) [
  | inl c ↦
      rw c (
        omega (arith, counted-past addr n (r ∷ rs) r.addr_l (omega arith, o.1, o.2) (ground arith)))
  | inr c ↦ rw c (
      let e = counted-covered r rs addr n o.1 o.2 in
      let w =
        sub_wrap bad (overlap_size (record { addr_l = addr; addr_r = addr + n }) r)
          (counted (λ x. covered x rs) addr n) h (subst (λ m. m ≤ bad) e k) in
      rw w (
        bad_bytes-counted addr n
          (bad - overlap_size (record { addr_l = addr; addr_r = addr + n }) r) rs r.addr_r o.2
          (omega arith) (omega arith)
        ∙ omega arith))
]

-- The ranges from the place on cover of the block what all of them do.
from_place :
    (addr n : ℕ) (rs : List Range) (z : List Range × List Range)
    → Parts (λ b. ltb addr b.addr_r) [] rs z
    → (x : ℕ) → addr ≤ x
    → covered x z.1 ≡ covered x rs
unfolding covered
from_place addr n rs z p x h =
    let e = covered_above x addr z.0 (lower addr p.border z.0 p.below p.before_fails) h in
    subst (λ b. (b || covered x z.1) ≡ covered x rs) e (p.same x)

report_cases :
    (addr n : ℕ)
    → (if ltb 0 n then bad_range addr n else no_error)
      ≡ (if n == 0 then no_error else bad_range addr n)
report_cases addr zero = refl
report_cases addr (suc n) = ground arith

positive_or_none :
    (addr n m : ℕ)
    → n ≡ m
    → (if ltb 0 n then bad_range addr n else no_error)
      ≡ (if m == 0 then no_error else bad_range addr m)
positive_or_none addr n m e =
    subst
      (λ k.
        (if ltb 0 n then bad_range addr n else no_error)
        ≡ (if k == 0 then no_error else bad_range addr k))
      e (report_cases addr n)

loop_uncovered :
    (addr size : ℕ) (rs : List Range) (z : List Range × List Range)
    → Parts (λ b. ltb addr b.addr_r) [] rs z
    → addr + size < 2 ^ 64
    → bad_bytes (record { addr_l = addr; addr_r = u64 (addr + size) }) size z.1
      ≡ uncovered addr size rs
unfolding uncovered
loop_uncovered addr size rs z p h =
    let same =
      counted-ext (λ x. covered x z.1) (λ x. covered x rs) addr size
        (λ x k l. from_place addr size rs z p x k) in
    let small : u64 (addr + size) ≡ addr + size = omega arith in
    rw small (
      bad_bytes-counted addr size size z.1 p.border p.above (omega arith)
        (counted-most (λ x. covered x z.1) addr size)
      ∙ omega (arith, same, counted-not (λ x. covered x rs) addr size))

only_head :
    (addr : ℕ) (rs : List Range) (lo : ℕ)
    → IsOrdered lo rs
    → HeadIs (λ b. ltb addr b.addr_r) true rs
    → check_addr_only addr rs ≡ (if covered addr rs then no_error else bad_range addr 1)
unfolding check_addr_only covered
only_head addr [] lo o h = refl
only_head addr (r ∷ rs) lo o h =
    rw (covered_below addr r.addr_r rs o.2 (ltb→lt _ _ h)) (ground arith)

add_zero : (n : ℕ) → n + 0 ≡ n
add_zero n = omega arith

one_byte :
    (addr : ℕ) (rs : List Range)
    → (if covered addr rs then no_error else bad_range addr 1)
      ≡ (if uncovered addr 1 rs == 0 then no_error else bad_range addr (uncovered addr 1 rs))
unfolding uncovered counted
one_byte addr rs = elim (Bool-cases (covered addr rs)) [
  | inl h ↦ rw (add_zero addr, h) refl
  | inr h ↦ rw (add_zero addr, h) refl
]

-- On sorted ranges, `Check` of a block that does not wrap reports exactly the bytes that no range
-- covers, with their number and the address; an empty block counts as the byte at its address.
pub check-Counts :
    (addr size : ℕ) (rs : List Range)
    → IsOrdered 0 rs
    → addr + size < 2 ^ 64
    → check addr size rs ≡ (
        if uncovered addr (max size 1) rs == 0
        then no_error
        else bad_range addr (uncovered addr (max size 1) rs))
unfolding check
check-Counts addr zero rs o h =
    let p = upper_bound-Parts (λ b. ltb addr b.addr_r) 0 [] rs tt o tt in
    let z = upper_bound (λ b. ltb addr b.addr_r) [] rs in
    only_head addr z.1 p.border p.above p.after_holds
    ∙ ap (λ b. if b then no_error else bad_range addr 1)
        (from_place addr 1 rs z p addr (omega arith))
    ∙ one_byte addr rs
check-Counts addr (suc n) rs o h =
    let p = upper_bound-Parts (λ b. ltb addr b.addr_r) 0 [] rs tt o tt in
    let z = upper_bound (λ b. ltb addr b.addr_r) [] rs in
    let nonempty : (suc n == 0) ≡ false = ground arith in
    let most : max (suc n) 1 ≡ suc n = omega arith in
    rw (nonempty, most) (positive_or_none addr _ _ (loop_uncovered addr (suc n) rs z p h))
