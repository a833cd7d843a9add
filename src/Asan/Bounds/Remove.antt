-- ===== src/Asan/Bounds/Remove.antt =====
-- `DiscreteBounds::Remove` makes the difference.
use ascend_mssanitizer.Asan.Bounds.{remove_at, trim, Range}
use ascend_mssanitizer.Base.{
  lt_or_le, inl, Bool, leb, ◌∷◌, List, ◌&&◌, arith, ◌||◌, [], refl, ℕ, true, Bool-cases, ◌∙◌, ◌≡◌,
  false, ◌≤◌, ltb, not, inr, ◌<◌, ltb→lt, ap,
}
use ascend_mssanitizer.PipeLine.{after}
use ascend_mssanitizer.Asan.Bounds.Cover.{
  IsOrdered-mono, in_range, Parts, IsOrdered, IsBelow, covered, HeadIs, covered_below,
  covered_above, around-IsOrdered, covered-around, IsBelow-mono,
}

and_true : (a : Bool) {b : Bool} → b ≡ true → a ≡ (a && b)
and_true a h = ground arith

or_false : (a : Bool) → (a || false) ≡ a
or_false a = ground arith

-- What lies right of a border is all that is covered from there on.
all_right :
    (x right : ℕ) (rs : List Range)
    → IsOrdered right rs
    → covered x rs ≡ (covered x rs && leb right x)
all_right x right rs o = elim (lt_or_le x right) [
  | inl h ↦ rw (covered_below x right rs o h) refl
  | inr h ↦ and_true (covered x rs) (ground arith)
]

and_or :
    (a b c : Bool) {a' : Bool} {b' : Bool}
    → a' ≡ (a && c)
    → b' ≡ (b && c)
    → (a' || b') ≡ ((a || b) && c)
and_or a b c h k = ground arith

or_gone : (a b c : Bool) → a && c ≡ false → (b && c) ≡ ((a || b) && c)
or_gone a b c h = ground arith

-- Cutting leaves what lies to the right of the border.
trim-lem :
    (lo right : ℕ) (rs : List Range)
    → IsOrdered lo rs
    → IsOrdered lo (trim right rs)
      × ((x : ℕ) → covered x (trim right rs) ≡ (covered x rs && leb right x))
unfolding trim covered
trim-lem lo right [] o = (tt, λ x. refl)
trim-lem lo right (n ∷ ns) o = elim (Bool-cases (leb right n.addr_l)) [
  | inl c ↦ rw c (o, λ x. all_right x right (n ∷ ns) (ground arith, o.1, o.2))
  | inr c ↦ elim (Bool-cases (ltb right n.addr_r)) [
    | inl d ↦
        rw (c, d)
          (
            (ground (arith, o.0), ground arith, o.2),
            λ x.
                and_or (in_range x n) (covered x ns) (leb right x) (ground arith)
                  (all_right x right ns (IsOrdered-mono right n.addr_r ns (ground arith) o.2)),
          )
    | inr d ↦
        let q =
          trim-lem lo right ns (IsOrdered-mono lo n.addr_r ns (omega (arith, o.0, o.1)) o.2) in
        rw (c, d)
          (q.0, λ x. q.1 x ∙ or_gone (in_range x n) (covered x ns) (leb right x) (ground arith))
  ]
]

-- What the walk leaves before the place ends below the address.
pub lower :
    (addr border : ℕ) (bs : List Range)
    → IsBelow border bs
    → HeadIs (λ b. ltb addr b.addr_r) false bs
    → IsBelow addr bs
lower addr border [] o h = tt
lower addr border (b ∷ bs) o h = (ground arith, o.1, o.2)

-- A split range leaves its right part behind the address.
trim_split :
    (addr right : ℕ) (r : Range) (rs : List Range)
    → addr ≤ right
    → r.addr_l < addr
    → addr < r.addr_r
    → IsOrdered r.addr_r rs
    → IsOrdered addr (trim right (r ∷ rs))
unfolding trim
trim_split addr right r rs h k u o =
    let no : leb right r.addr_l ≡ false = ground arith in
    elim (Bool-cases (ltb right r.addr_r)) [
      | inl d ↦ rw (no, d) (h, ground arith, o)
      | inr d ↦
          rw (no, d) ((trim-lem addr right rs (IsOrdered-mono addr r.addr_r rs (omega arith) o)).0)
    ]

-- At one address, below the removed bytes and from them on.
below_point :
    (b s a l u c : Bool)
    → a ≡ s
    → l ≡ false
    → c ≡ false
    → (b || (s || (a && c))) ≡ ((b || a) && not (l && u))
below_point b s a l u c h k m = ground arith

above_point :
    (b s a l u c : Bool)
    → b ≡ false
    → s ≡ false
    → l ≡ true
    → c ≡ not u
    → (b || (s || (a && c))) ≡ ((b || a) && not (l && u))
above_point b s a l u c h k m n = ground arith

-- The pieces on the two sides of the removed bytes, with the left half `s` of a split range.
pieces :
    (x addr right : ℕ) (bs : List Range) (r : Range) (after : List Range) (s : Bool)
    → addr < r.addr_r
    → addr ≤ right
    → IsBelow addr bs
    → IsOrdered r.addr_r after
    → (x < addr → in_range x r ≡ s)
    → (addr ≤ x → s ≡ false)
    → (covered x bs || (s || (covered x (r ∷ after) && leb right x)))
      ≡ ((covered x bs || covered x (r ∷ after)) && not (leb addr x && ltb x right))
unfolding covered
pieces x addr right bs r after s h k b o lo hi = elim (lt_or_le x addr) [
  | inl c ↦
      below_point (covered x bs) s (in_range x r || covered x after) (leb addr x) (ltb x right)
        (leb right x)
        (rw (covered_below x r.addr_r after o (omega arith)) (or_false (in_range x r) ∙ lo c))
        (ground arith) (ground arith)
  | inr c ↦
      above_point (covered x bs) s (in_range x r || covered x after) (leb addr x) (ltb x right)
        (leb right x) (covered_above x addr bs b c) (hi c) (ground arith) (ground arith)
]

-- Ranges that end below the address keep all they cover.
keep :
    (x addr right : ℕ) (bs : List Range) (b : Bool)
    → IsBelow addr bs
    → (covered x bs || false) ≡ b
    → (covered x bs || false) ≡ (b && not (leb addr x && ltb x right))
keep x addr right bs b o e = elim (lt_or_le x addr) [
  | inl c ↦ ground arith
  | inr c ↦ ground (arith, covered_above x addr bs o c)
]

put_first : (s b t : Bool) → ((s || b) || t) ≡ (b || (s || t))
put_first s b t = ground arith

-- Every way to split leaves an ordered sequence that covers the difference.
pub remove_at-lem :
    (addr right : ℕ) (rs : List Range) (z : List Range × List Range)
    → addr ≤ right
    → Parts (λ b. ltb addr b.addr_r) [] rs z
    → IsOrdered 0 (remove_at addr right z)
      × ((x : ℕ)
          → covered x (remove_at addr right z)
            ≡ (covered x rs && not (in_range x (record { addr_l = addr; addr_r = right }))))
unfolding remove_at covered
remove_at-lem addr right rs (before, []) h p = (
  around-IsOrdered p.border before [] p.below tt,
  λ x.
      covered-around x before []
      ∙ keep x addr right before (covered x rs) (lower addr p.border before p.below p.before_fails)
          (p.same x),
)
remove_at-lem addr right rs (before, r ∷ after) h p =
    let b = lower addr p.border before p.below p.before_fails in
    let cut = trim-lem r.addr_l right (r ∷ after) (omega arith, p.above.1, p.above.2) in
    let u : addr < r.addr_r = ltb→lt _ _ p.after_holds in
    elim (Bool-cases (ltb r.addr_l addr)) [
      | inl c ↦
          let half : Range = record { addr_l = r.addr_l; addr_r = addr } in
          rw c (
            around-IsOrdered addr (half ∷ before) (trim right (r ∷ after))
                (omega arith, ground arith, IsBelow-mono p.border r.addr_l before p.above.0 p.below)
                (trim_split addr right r after h (ltb→lt _ _ c) u p.above.2),
            λ x.
                covered-around x (half ∷ before) (trim right (r ∷ after))
                ∙ ap (λ k. ((in_range x half || covered x before) || k)) (cut.1 x)
                ∙ put_first (in_range x half) (covered x before) _
                ∙ pieces x addr right before r after (in_range x half) u h b p.above.2
                    (λ l. ground arith) (λ l. ground arith)
                ∙ ap (λ k. (k && not (leb addr x && ltb x right))) (p.same x),
          )
      | inr c ↦ rw c (
        around-IsOrdered p.border before (trim right (r ∷ after)) p.below
            (IsOrdered-mono p.border r.addr_l (trim right (r ∷ after)) p.above.0 cut.0),
        λ x.
            covered-around x before (trim right (r ∷ after))
            ∙ ap (λ k. (covered x before || k)) (cut.1 x)
            ∙ pieces x addr right before r after false u h b p.above.2 (λ l. ground arith)
                (λ l. refl)
            ∙ ap (λ k. (k && not (leb addr x && ltb x right))) (p.same x),
      )
    ]
