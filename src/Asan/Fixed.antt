-- ===== src/Asan/Fixed.antt =====
-- A fixed range answers like allocated memory that consists of it.
use ascend_mssanitizer.Base.{
  inl, ◌∷◌, refl, ℕ, ◌∙◌, ◌||◌, zero, leb, [], sym, ◌-◌, ap, arith, max, ◌≡◌, inr, true, ◌^◌, ◌==◌,
  suc, ◌+◌, ltb, ◌<◌, Bool-cases, if◌then◌else◌, ◌≤◌, false, subst,
}
use ascend_mssanitizer.Asan.Msg.{no_error, bad_range}
use ascend_mssanitizer.Asan.Bounds.Check.{
  counted-covered, counted-nil, counted-not, uncovered, check-Counts,
}
use ascend_mssanitizer.Asan.Bounds.{check_addr_only, check, Range, upper_bound, overlap_size}
use ascend_mssanitizer.Base.Words.{u64}
use ascend_mssanitizer.Asan.Spaces.{check_union_addr, check_union}
use ascend_mssanitizer.Asan.Bounds.Cover.{covered}

overlap_comm : (a b : Range) → overlap_size a b ≡ overlap_size b a
overlap_comm a b = ground arith

empty_access : (addr : ℕ) (r : Range) → check_union addr 0 r ≡ check addr 0 (r ∷ [])
unfolding check_union check_union_addr check upper_bound check_addr_only
empty_access addr r = elim (Bool-cases (ltb addr r.addr_r)) [
  | inl h ↦ rw h refl
  | inr h ↦
      let past : (ltb addr r.addr_l || leb r.addr_r addr) ≡ true = ground arith in rw (h, past) refl
]

left_over :
    (addr size o u : ℕ)
    → u ≡ size - o
    → (if ltb o size then bad_range addr (size - o) else no_error)
      ≡ (if u == 0 then no_error else bad_range addr u)
left_over addr size o u h = elim (Bool-cases (ltb o size)) [
  | inl e ↦
      let some_left : (u == 0) ≡ false = ground arith in
      rw (e, some_left) (ap (bad_range addr) (sym h))
  | inr e ↦ let none_left : (u == 0) ≡ true = ground arith in rw (e, none_left) refl
]

uncovered-one :
    (addr size : ℕ) (r : Range)
    → r.addr_l ≤ r.addr_r
    → uncovered addr size (r ∷ [])
      ≡ size - overlap_size (record { addr_l = addr; addr_r = addr + size }) r
unfolding uncovered
uncovered-one addr size r h = omega (
  arith,
  counted-not (λ x. covered x (r ∷ [])) addr size,
  counted-covered r [] addr size h tt,
  counted-nil addr size,
)

-- `UnionBounds::Check` of a block that does not wrap answers like `DiscreteBounds::Check` with the fixed
-- range as the only allocated one, an empty block included.
pub check_union-check :
    (addr size : ℕ) (r : Range)
    → r.addr_l ≤ r.addr_r
    → addr + size < 2 ^ 64
    → check_union addr size r ≡ check addr size (r ∷ [])
unfolding check_union
check_union-check addr zero r h k = empty_access addr r
check_union-check addr (suc n) r h k =
    let nonempty : (suc n == 0) ≡ false = ground arith in
    let most : max (suc n) 1 ≡ suc n = omega arith in
    let small : u64 (addr + suc n) ≡ addr + suc n = omega arith in
    rw (nonempty, small, overlap_comm r (record { addr_l = addr; addr_r = addr + suc n }))
      (left_over addr (suc n) _ _ (uncovered-one addr (suc n) r h)
        ∙ subst
            (λ m.
              (if uncovered addr m (r ∷ []) == 0
                then no_error
                else bad_range addr (uncovered addr m (r ∷ [])))
              ≡ check addr (suc n) (r ∷ []))
            most (sym (check-Counts addr (suc n) (r ∷ []) (omega arith, h, tt) k)))
