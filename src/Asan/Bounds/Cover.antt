-- ===== src/Asan/Bounds/Cover.antt =====
-- What a sorted sequence of ranges covers, and the walk to a place in it.
use ascend_mssanitizer.Base.{
  ◌≡◌, ◌<◌, [], ◌&&◌, ◌||◌, false, leb, refl, Bool, arith, List, ◌∷◌, ℕ, ◌≤◌, ltb, inr, inl, ◌∙◌,
  Bool-cases, true,
}
use ascend_mssanitizer.Asan.Bounds.{around, Range, upper_bound}

abbrev pub in_range : ℕ → Range → Bool
in_range x r = leb r.addr_l x && ltb x r.addr_r

-- An address is covered when one of the ranges holds it.
unfoldable pub covered : ℕ → List Range → Bool
covered x [] = false
covered x (r ∷ rs) = in_range x r || covered x rs

-- The ranges are sorted and do not overlap, from `lo` on.
abbrev pub IsOrdered : ℕ → List Range → Type 0
IsOrdered lo [] = Unit
IsOrdered lo (r ∷ rs) = (lo ≤ r.addr_l) × (r.addr_l ≤ r.addr_r) × IsOrdered r.addr_r rs

-- The same for ranges listed from the nearest down, below `hi`.
abbrev pub IsBelow : ℕ → List Range → Type 0
IsBelow hi [] = Unit
IsBelow hi (r ∷ rs) = (r.addr_r ≤ hi) × (r.addr_l ≤ r.addr_r) × IsBelow r.addr_l rs

pub IsOrdered-mono : (lo hi : ℕ) (rs : List Range) → lo ≤ hi → IsOrdered hi rs → IsOrdered lo rs
IsOrdered-mono lo hi [] h o = tt
IsOrdered-mono lo hi (r ∷ rs) h o = (omega (arith, o.0), o.1, o.2)

pub IsBelow-mono : (lo hi : ℕ) (rs : List Range) → lo ≤ hi → IsBelow lo rs → IsBelow hi rs
IsBelow-mono lo hi [] h o = tt
IsBelow-mono lo hi (r ∷ rs) h o = (omega (arith, o.0), o.1, o.2)

-- Below the first border nothing is covered.
pub covered_below : (x lo : ℕ) (rs : List Range) → IsOrdered lo rs → x < lo → covered x rs ≡ false
unfolding covered
covered_below x lo [] o h = refl
covered_below x lo (r ∷ rs) o h =
    ground (arith, o.0, covered_below x r.addr_r rs o.2 (omega (arith, o.0, o.1)))

pub covered_above : (x hi : ℕ) (rs : List Range) → IsBelow hi rs → hi ≤ x → covered x rs ≡ false
unfolding covered
covered_above x hi [] o h = refl
covered_above x hi (r ∷ rs) o h =
    ground (arith, o.0, covered_above x r.addr_l rs o.2 (omega (arith, o.0, o.1)))

pub covered-around :
    (x : ℕ) (bs rs : List Range) → covered x (around bs rs) ≡ (covered x bs || covered x rs)
unfolding covered around
covered-around x [] rs = refl
covered-around x (b ∷ bs) rs = ground (arith, covered-around x bs (b ∷ rs))

pub around-IsOrdered :
    (hi : ℕ) (bs rs : List Range) → IsBelow hi bs → IsOrdered hi rs → IsOrdered 0 (around bs rs)
unfolding around
around-IsOrdered hi [] rs b o = IsOrdered-mono 0 hi rs (omega arith) o
around-IsOrdered hi (r ∷ bs) rs b o =
    around-IsOrdered r.addr_l bs (r ∷ rs) b.2
      (omega arith, b.1, IsOrdered-mono r.addr_r hi rs b.0 o)

-- The first range, if there is one, answers `v` to the predicate.
abbrev pub HeadIs : (Range → Bool) → Bool → List Range → Type 0
HeadIs pred v [] = Unit
HeadIs pred v (r ∷ rs) = pred r ≡ v

-- What the walk to a place leaves before and behind it.
pub record Parts (pred : Range → Bool) (start rs : List Range) (z : List Range × List Range)
    : Type 0 where
  pub border : ℕ
  pub below : IsBelow border z.0
  pub above : IsOrdered border z.1
  pub before_fails : HeadIs pred false z.0
  pub after_holds : HeadIs pred true z.1
  pub same : (x : ℕ) → (covered x z.0 || covered x z.1) ≡ (covered x start || covered x rs)

move :
    (x : ℕ) (r : Range) (before rs : List Range)
    → (covered x (r ∷ before) || covered x rs) ≡ (covered x before || covered x (r ∷ rs))
unfolding covered
move x r before rs = ground arith

pub upper_bound-Parts :
    (pred : Range → Bool) (border : ℕ) (before rs : List Range)
    → IsBelow border before
    → IsOrdered border rs
    → HeadIs pred false before
    → Parts pred before rs (upper_bound pred before rs)
unfolding upper_bound
upper_bound-Parts pred border before [] b o f = record {
  border = border;
  below = b;
  above = o;
  before_fails = f;
  after_holds = tt;
  same = λ x. refl;
}
upper_bound-Parts pred border before (r ∷ rs) b o f = elim (Bool-cases (pred r)) [
  | inl h ↦ rw h (record {
    border = border;
    below = b;
    above = o;
    before_fails = f;
    after_holds = h;
    same = λ x. refl;
  })
  | inr h ↦
      let p =
        upper_bound-Parts pred r.addr_r (r ∷ before) rs
          (omega arith, o.1, IsBelow-mono border r.addr_l before o.0 b) o.2 h in
      rw h (record {
        border = p.border;
        below = p.below;
        above = p.above;
        before_fails = p.before_fails;
        after_holds = p.after_holds;
        same = λ x. p.same x ∙ move x r before rs;
      })
]
