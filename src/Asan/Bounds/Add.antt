-- ===== src/Asan/Bounds/Add.antt =====
-- `DiscreteBounds::Add` makes the union.
use ascend_mssanitizer.Asan.Bounds.Cover.{
  covered, in_range, IsOrdered, IsOrdered-mono, Parts, HeadIs, covered-around, around-IsOrdered,
  IsBelow,
}
use ascend_mssanitizer.Base.{
  [], max, ◌≡◌, arith, ℕ, Bool, ltb→lt, ltb, ◌≤◌, inr, List, ◌∷◌, Bool-cases, inl, refl, ◌||◌, ◌&&◌,
  ◌+◌, leb, true, ◌∙◌,
}
use ascend_mssanitizer.Asan.Bounds.{absorb, Range, add_at, around}
use ascend_mssanitizer.PipeLine.{after}

absorb-IsOrdered :
    (it : Range) (rs : List Range)
    → it.addr_l ≤ it.addr_r
    → IsOrdered it.addr_l rs
    → IsOrdered it.addr_l (absorb it rs)
unfolding absorb
absorb-IsOrdered it [] h o = (omega arith, h, tt)
absorb-IsOrdered it (n ∷ ns) h o = elim (Bool-cases (ltb it.addr_r n.addr_l)) [
  | inl c ↦ rw c (omega arith, h, (omega (arith, ltb→lt _ _ c), o.1, o.2))
  | inr c ↦ rw c (
      absorb-IsOrdered (record { addr_l = it.addr_l; addr_r = max it.addr_r n.addr_r }) ns
        (omega (arith, h)) (IsOrdered-mono it.addr_l n.addr_r ns (omega (arith, o.0, o.1)) o.2))
]

-- Two ranges that meet cover together what their hull covers.
in_range_hull :
    (x : ℕ) (a b : Range)
    → a.addr_l ≤ b.addr_l
    → b.addr_l ≤ a.addr_r
    → in_range x (record { addr_l = a.addr_l; addr_r = max a.addr_r b.addr_r })
      ≡ (in_range x a || in_range x b)
in_range_hull x a b h k = ground arith

or_assoc : (a b c : Bool) → ((a || b) || c) ≡ (a || (b || c))
or_assoc a b c = ground arith

covered-absorb :
    (x : ℕ) (it : Range) (rs : List Range)
    → IsOrdered it.addr_l rs
    → covered x (absorb it rs) ≡ (in_range x it || covered x rs)
unfolding absorb covered
covered-absorb x it [] o = refl
covered-absorb x it (n ∷ ns) o = elim (Bool-cases (ltb it.addr_r n.addr_l)) [
  | inl c ↦ rw c refl
  | inr c ↦
      let it' : Range = record { addr_l = it.addr_l; addr_r = max it.addr_r n.addr_r } in
      let rest =
        covered-absorb x it' ns
          (IsOrdered-mono it.addr_l n.addr_r ns (omega (arith, o.0, o.1)) o.2) in
      rw (c, rest, in_range_hull x it n o.0 (ground arith))
        (or_assoc (in_range x it) (in_range x n) (covered x ns))
]

-- The bytes of a block are those of the range that stands for it.
abbrev pub in_block : ℕ → ℕ → ℕ → Bool
in_block addr size x = leb addr x && ltb x (addr + size)

-- A range put between the ranges around it.
placed :
    (it : Range) (before after : List Range)
    → it.addr_l ≤ it.addr_r
    → IsBelow it.addr_l before
    → IsOrdered it.addr_l after
    → IsOrdered 0 (around before (absorb it after))
      × ((x : ℕ)
          → covered x (around before (absorb it after))
            ≡ (covered x before || (in_range x it || covered x after)))
placed it before after h b o = (
  around-IsOrdered it.addr_l before (absorb it after) b (absorb-IsOrdered it after h o),
  λ x. rw (covered-around x before (absorb it after), covered-absorb x it after o) refl,
)

raise :
    (addr border : ℕ) (rs : List Range)
    → IsOrdered border rs
    → HeadIs (λ b. ltb addr b.addr_l) true rs
    → IsOrdered addr rs
raise addr border [] o h = tt
raise addr border (r ∷ rs) o h = (omega (arith, ltb→lt _ _ h), o.1, o.2)

join_right : (a r i : Bool) → a ≡ r → (i || a) ≡ (r || i)
join_right a r i e = ground arith

join_middle : (b bs a r i : Bool) → ((b || bs) || a) ≡ r → (bs || ((b || i) || a)) ≡ (r || i)
join_middle b bs a r i e = ground arith

join_inside : (b a r i : Bool) → (b || a) ≡ r → (b || (i || a)) ≡ (r || i)
join_inside b a r i e = ground arith

-- Both ways to place the new range give an ordered sequence that covers the union.
pub add_at-lem :
    (addr right : ℕ) (rs : List Range) (z : List Range × List Range)
    → addr ≤ right
    → Parts (λ b. ltb addr b.addr_l) [] rs z
    → IsOrdered 0 (add_at addr right z)
      × ((x : ℕ)
          → covered x (add_at addr right z)
            ≡ (covered x rs || in_range x (record { addr_l = addr; addr_r = right })))
unfolding add_at covered
add_at-lem addr right rs ([], after) h p =
    let it : Range = record { addr_l = addr; addr_r = right } in
    let q = placed it [] after h tt (raise addr p.border after p.above p.after_holds) in
    (q.0, λ x. q.1 x ∙ join_right _ _ (in_range x it) (p.same x))
add_at-lem addr right rs (b ∷ before, after) h p = elim (Bool-cases (leb addr b.addr_r)) [
  | inl c ↦
      let it : Range = record { addr_l = addr; addr_r = right } in
      let hull : Range = record { addr_l = b.addr_l; addr_r = max b.addr_r right } in
      let q =
        placed hull before after (omega (arith, p.below.1)) p.below.2
          (IsOrdered-mono b.addr_l p.border after (omega (arith, p.below.0, p.below.1)) p.above) in
      rw c (
        q.0,
        λ x.
            q.1 x
            ∙ rw (in_range_hull x b it (ground (arith, p.before_fails)) (ground arith)) (
                join_middle (in_range x b) (covered x before) (covered x after) (covered x rs)
                  (in_range x it) (p.same x)),
      )
  | inr c ↦
      let it : Range = record { addr_l = addr; addr_r = right } in
      let q =
        placed it (b ∷ before) after h ((ground arith), p.below.1, p.below.2)
          (raise addr p.border after p.above p.after_holds) in
      rw c (q.0, λ x. q.1 x ∙ join_inside (covered x (b ∷ before)) _ _ (in_range x it) (p.same x))
]
