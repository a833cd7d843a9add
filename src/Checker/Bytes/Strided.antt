-- ===== src/Checker/Bytes/Strided.antt =====
-- The merged intervals of csrc/race_sanitizer/alg_framework/mem_series.cpp hold bytes of the access only.
use ascend_mssanitizer.Base.{
  some, none, zero, ◌∷◌, false, inl, true, ℕ, ◌≤◌, Bool-cases, suc, refl, All, ◌≡◌, arith, ◌+◌, [],
  inr, ltb, ◌<◌, leb, Option, subst, sym,
}
use ascend_mssanitizer.Checker.Series.{
  Interval, move_to_next_itv, next_itv, cur_itv, BlkSeries, MemSeries, blocks_left, push_next,
  top_of, itv_before, extend,
}
use ascend_mssanitizer.Checker.Bytes.{Spans}

abbrev pub itv_at : BlkSeries → ℕ → Interval
itv_at b j = cur_itv (record b { cur_block_idx = j })

abbrev AtLeast : ℕ → BlkSeries → Type 0
AtLeast l b = l ≤ (cur_itv b).start

module _ (P : ℕ → Type 0) where
  -- The blocks of the series from the current one on are in order, and each holds bytes with the property.
  pub record IsSound (b : BlkSeries) : Type 0 where
    pub more : b.cur_block_idx < b.block_num
    pub spans : (j : ℕ) → j < b.block_num → Spans P (itv_at b j)
    pub in_order : (i j : ℕ) → i ≤ j → j < b.block_num → (itv_at b i).start ≤ (itv_at b j).start

  moved-IsSound :
      (left : ℕ) (b : BlkSeries) (s : MemSeries)
      → IsSound b
      → AtLeast left b
      → All IsSound s
      → All (AtLeast left) s
      → All IsSound (push_next (move_to_next_itv b) s)
        × All (AtLeast left) (push_next (move_to_next_itv b) s)
  unfolding move_to_next_itv
  moved-IsSound left b s g l gs ls = elim (Bool-cases (leb b.block_num (b.cur_block_idx + 1))) [
    | inl e ↦ rw e (gs, ls)
    | inr e ↦
        let next : b.cur_block_idx + 1 < b.block_num = ground (arith, e) in
        let later = g.in_order b.cur_block_idx (b.cur_block_idx + 1) (omega arith) next in
        rw e (
          (record { more = next; spans = g.spans; in_order = g.in_order }, gs),
          (omega (arith, l, later), ls),
        )
  ]

top_of-All :
    (Q : BlkSeries → Type 0) (b : BlkSeries) (s : MemSeries)
    → Q b
    → All Q s
    → Q (top_of b s).0 × All Q (top_of b s).1
unfolding top_of
top_of-All Q b [] q qs = (q, tt)
top_of-All Q b (c ∷ cs) q qs =
    let rest = top_of-All Q c cs qs.0 qs.1 in
    elim (Bool-cases (itv_before (cur_itv (top_of c cs).0) (cur_itv b))) [
      | inl e ↦ rw (top_of, e) (rest.0, (q, rest.1))
      | inr e ↦ rw (top_of, e) (q, qs)
    ]

All-AtLeast : (k l : ℕ) (s : MemSeries) → k ≤ l → All (AtLeast l) s → All (AtLeast k) s
All-AtLeast k l [] h a = tt
All-AtLeast k l (b ∷ s) h a = (omega (arith, a.0), All-AtLeast k l s h a.1)

before_start : (a b : Interval) → itv_before a b ≡ true → a.start ≤ b.start
before_start a b h = ground arith

not_before_start : (a b : Interval) → itv_before a b ≡ false → b.start ≤ a.start
not_before_start a b h = ground arith

top_later :
    (b c : BlkSeries) (cs : MemSeries)
    → itv_before (cur_itv (top_of c cs).0) (cur_itv b) ≡ true
    → top_of b (c ∷ cs) ≡ ((top_of c cs).0, b ∷ (top_of c cs).1)
unfolding top_of
top_later b c cs e = rw e refl

top_here :
    (b c : BlkSeries) (cs : MemSeries)
    → itv_before (cur_itv (top_of c cs).0) (cur_itv b) ≡ false
    → top_of b (c ∷ cs) ≡ (b, c ∷ cs)
unfolding top_of
top_here b c cs e = rw e refl

abbrev StartsFirst : BlkSeries → BlkSeries → MemSeries → Type 0
StartsFirst t b s = AtLeast (cur_itv t).start b × All (AtLeast (cur_itv t).start) s

-- The top starts first.
top_of-StartsFirst : (b : BlkSeries) (s : MemSeries) → StartsFirst (top_of b s).0 b s
unfolding top_of
top_of-StartsFirst b [] = (omega arith, tt)
top_of-StartsFirst b (c ∷ cs) =
    let least = top_of-StartsFirst c cs in
    elim (Bool-cases (itv_before (cur_itv (top_of c cs).0) (cur_itv b))) [
      | inl e ↦
          subst (λ r. StartsFirst r.0 b (c ∷ cs)) (sym (top_later b c cs e))
            (before_start _ _ e, least)
      | inr e ↦
          let up = not_before_start _ _ e in
          subst (λ r. StartsFirst r.0 b (c ∷ cs)) (sym (top_here b c cs e))
            (omega arith, (omega (arith, up, least.0), All-AtLeast _ _ cs up least.1))
    ]

abbrev after_top : BlkSeries → MemSeries → MemSeries
after_top b bs = push_next (move_to_next_itv (top_of b bs).0) (top_of b bs).1

extend_on :
    (n ext : ℕ) (b : BlkSeries) (bs : MemSeries)
    → leb (cur_itv (top_of b bs).0).start ext ≡ true
    → extend (suc n) ext (b ∷ bs) ≡ extend n (cur_itv (top_of b bs).0).end (after_top b bs)
unfolding extend
extend_on n ext b bs e = rw (extend, e) refl

extend_off :
    (n ext : ℕ) (b : BlkSeries) (bs : MemSeries)
    → leb (cur_itv (top_of b bs).0).start ext ≡ false
    → extend (suc n) ext (b ∷ bs) ≡ (ext, b ∷ bs)
unfolding extend
extend_off n ext b bs e = rw (extend, e) refl

module _ (P : ℕ → Type 0) (left : ℕ) where
  abbrev Extended : ℕ → ℕ × MemSeries → Type 0
  Extended ext r =
      ((x : ℕ) → left ≤ x → x < r.0 → P x) × All (IsSound P) r.1 × (left < ext → left < r.0)

  extend-Extended :
      (n ext : ℕ) (s : MemSeries)
      → All (IsSound P) s
      → All (AtLeast left) s
      → ((x : ℕ) → left ≤ x → x < ext → P x)
      → Extended ext (extend n ext s)
  unfolding extend
  extend-Extended zero ext s gs ls p = (p, gs, λ h. h)
  extend-Extended (suc n) ext [] gs ls p = (p, tt, λ h. h)
  extend-Extended (suc n) ext (b ∷ bs) gs ls p =
      let t : BlkSeries = (top_of b bs).0 in
      let ts : MemSeries = (top_of b bs).1 in
      let (g, rest) = top_of-All (IsSound P) b bs gs.0 gs.1 in
      let (l, low) = top_of-All (AtLeast left) b bs ls.0 ls.1 in
      let moved = moved-IsSound P left t ts g l rest low in
      let here = g.spans t.cur_block_idx g.more in
      elim (Bool-cases (leb (cur_itv t).start ext)) [
        | inr e ↦ subst (Extended ext) (sym (extend_off n ext b bs e)) (p, gs, λ h. h)
        | inl e ↦
            let reach : (x : ℕ) → left ≤ x → x < (cur_itv t).end → P x = λ x from to.
              elim (Bool-cases (ltb x ext)) [
                | inl k ↦ p x from (ground (arith, k))
                | inr k ↦ here.1 x (ground (arith, k, e)) to
              ] in
            let later =
              extend-Extended n (cur_itv t).end (push_next (move_to_next_itv t) ts) moved.0 moved.1
                reach in
            subst (Extended ext) (sym (extend_on n ext b bs e))
              (later.0, later.1, λ h. later.2 (omega (arith, l, here.0)))
      ]

  abbrev Taken : ℕ × MemSeries → Type 0
  Taken r = Spans P (record { start = left; end = r.0 }) × All (IsSound P) r.1

  -- From the top on, the first round takes the top.
  extend-Spans :
      (n : ℕ) (b : BlkSeries) (bs : MemSeries)
      → 0 < n
      → left ≡ (cur_itv (top_of b bs).0).start
      → All (IsSound P) (b ∷ bs)
      → Taken (extend n left (b ∷ bs))
  extend-Spans zero b bs h e gs = absurd (omega arith)
  extend-Spans (suc n) b bs h e gs =
      let t : BlkSeries = (top_of b bs).0 in
      let ts : MemSeries = (top_of b bs).1 in
      let (g, rest) = top_of-All (IsSound P) b bs gs.0 gs.1 in
      let least = top_of-StartsFirst b bs in
      let (l, low) =
        top_of-All (AtLeast left) b bs (omega (arith, e, least.0))
          (All-AtLeast left _ bs (omega (arith, e)) least.1) in
      let moved = moved-IsSound P left t ts g l rest low in
      let here = g.spans t.cur_block_idx g.more in
      let taken : leb (cur_itv t).start left ≡ true = ground (arith, e) in
      let later =
        extend-Extended n (cur_itv t).end (push_next (move_to_next_itv t) ts) moved.0 moved.1
          (λ x from to. here.1 x (omega (arith, e, from)) to) in
      subst Taken (sym (extend_on n left b bs taken))
        ((later.2 (omega (arith, e, here.0)), later.0), later.1)

abbrev pub SoundNext : (ℕ → Type 0) → Option (Interval × MemSeries) → Type 0
SoundNext P none = Unit
SoundNext P (some t) = Spans P t.0 × All (IsSound P) t.1

pub next_itv-Sound : (P : ℕ → Type 0) (s : MemSeries) → All (IsSound P) s → SoundNext P (next_itv s)
unfolding next_itv blocks_left
next_itv-Sound P [] gs = tt
next_itv-Sound P (b ∷ bs) gs =
    extend-Spans P (cur_itv (top_of b bs).0).start (blocks_left (b ∷ bs)) b bs (omega arith) refl gs
