-- ===== src/Asan/Shadow/Bytewise.antt =====
-- Whole walks, byte by byte.
use ascend_mssanitizer.Base.{
  inr, ap, Bool, arith, ltb, ◌+◌, ℕ, ◌&&◌, refl, ◌≤◌, ◌≡◌, ◌<◌, leb, inl, zero, ◌-◌, suc,
  if◌then◌else◌, ◌∙◌, ltb→lt, sym, Bool-cases, subst,
}
use ascend_mssanitizer.Asan.Bounds.Refines.{fits}
use ascend_mssanitizer.PipeLine.Progress.{fuel}
use ascend_mssanitizer.Asan.Shadow.Bytes.{tramples, mark_byte}
use ascend_mssanitizer.Asan.Memory.{Memory}
use ascend_mssanitizer.Event.{is_gm}
use ascend_mssanitizer.Asan.Shadow.{store_in_range, store_run}
use ascend_mssanitizer.Asan.Bounds.Check.{counted, counted-ext}
use ascend_mssanitizer.Asan.Shadow.Walk.{Fills, in_run, parts_of, fill_run, count_run}

no_more : (n : ℕ) → n + 0 ≡ n
no_more n = omega arith

one_more : (n k : ℕ) → n + suc k ≡ suc (n + k)
one_more n k = omega arith

regroup : (a n k : ℕ) → a + (n + k) ≡ a + n + k
regroup a n k = omega arith

pub counted-split :
    (p : ℕ → Bool) (a n k : ℕ) → counted p a (n + k) ≡ counted p a n + counted p (a + n) k
unfolding counted
counted-split p a n zero = ap (counted p a) (no_more n) ∙ omega arith
counted-split p a n (suc k) =
    ap (counted p a) (one_more n k)
    ∙ ap (λ i. (if p i then 1 else 0) + counted p a (n + k)) (regroup a n k)
    ∙ omega (arith, counted-split p a n k)

pub counted-alike :
    (p : ℕ → Bool) (a n : ℕ) (b : Bool)
    → ((k : ℕ) → k < n → p (a + k) ≡ b)
    → counted p a n ≡ (if b then n else 0)
unfolding counted
counted-alike p a zero b h = ground arith
counted-alike p a (suc n) b h =
    rw (h n (omega arith), counted-alike p a n b (λ k l. h k (omega arith))) (ground arith)

nothing_left : (it end x a b : ℕ) → end ≤ it → b ≡ (if leb it x && ltb x end then a else b)
nothing_left it end x a b h = ground arith

later : (it n x v b : ℕ) → it + n ≤ x → (if leb it x && ltb x (it + n) then v else b) ≡ b
later it n x v b h = ground arith

module _ (mem : Memory) where
  open mem use {
    Map, get, put_range, unified, limit, same_limit, reads, unified_pos, unified_fits, unified_same,
  }

  -- A walk over the rest [it, end) of a range: what it leaves and what it counts.
  pub record Walked (is_gm atomic : Bool) (core : ℕ) (m : Map) (it end : ℕ) (r : Map × ℕ)
      : Type 0 where
    pub limits : limit r.0 ≡ limit m
    pub values :
        (x : ℕ)
        → x < limit m
        → get r.0 x
          ≡ (if leb it x && ltb x end then mark_byte is_gm atomic core (get m x) else get m x)
    pub count : r.1 ≡ counted (λ x. tramples is_gm atomic core (get m x)) it (end - it)

  stopped :
      (is_gm atomic : Bool) (core : ℕ) (m : Map) (it end : ℕ)
      → end ≤ it
      → Walked is_gm atomic core m it end (m, 0)
  unfolding counted
  stopped is_gm atomic core m it end h =
      let over : end - it ≡ 0 = omega arith in
      record { limits = refl; values = λ x l. nothing_left it end x _ _ h; count = rw over refl }

  counts :
      (is_gm atomic : Bool) (core : ℕ) (m m' : Map) (it n end : ℕ)
      → it + n ≤ end
      → end ≤ limit m
      → ((k : ℕ) → k < n → get m (it + k) ≡ get m it)
      → Fills mem m m' it n (mark_byte is_gm atomic core (get m it))
      → (if tramples is_gm atomic core (get m it) then n else 0)
          + counted (λ x. tramples is_gm atomic core (get m' x)) (it + n) (end - (it + n))
        ≡ counted (λ x. tramples is_gm atomic core (get m x)) it (end - it)
  counts is_gm atomic core m m' it n end h fits same f =
      let p : ℕ → Bool = λ x. tramples is_gm atomic core (get m x) in
      let run = counted-alike p it n (p it) (λ k l. ap (tramples is_gm atomic core) (same k l)) in
      let rest =
        counted-ext (λ x. tramples is_gm atomic core (get m' x)) p (it + n) (end - (it + n))
          (λ x l u.
            ap (tramples is_gm atomic core) (f.values x (omega arith) ∙ later it n x _ _ l)) in
      let total = counted-split p it n (end - (it + n)) in
      let whole : n + (end - (it + n)) ≡ end - it = omega arith in
      subst
        (λ k.
          (if p it then n else 0)
            + counted (λ x. tramples is_gm atomic core (get m' x)) (it + n) (end - (it + n))
          ≡ counted p it k)
        whole (omega (arith, run, rest, total))

  walk :
      (fuel : ℕ) (is_gm atomic : Bool) (core : ℕ) (m : Map) (base size it : ℕ)
      → base + size ≤ limit m
      → base + size ≤ it + fuel
      → Walked is_gm atomic core m it
          (base + size)
          (store_in_range mem fuel is_gm atomic core m base size it)
  unfolding store_in_range
  walk zero is_gm atomic core m base size it fits enough =
      stopped is_gm atomic core m it (base + size) (omega arith)
  walk (suc fuel) is_gm atomic core m base size it fits enough =
      elim (Bool-cases (ltb it (base + size))) [
        | inr over ↦ rw over (stopped is_gm atomic core m it (base + size) (ground arith))
        | inl c ↦
            let inside : it < base + size = ltb→lt _ _ c in
            let n : ℕ = unified m base size it in
            let pos : 0 < n = unified_pos m base size it inside fits in
            let within : it + n ≤ base + size = unified_fits m base size it inside fits in
            let same : ((k : ℕ) → k < n → get m (it + k) ≡ get m it) =
              λ k l. unified_same m base size it k inside fits l in
            let m' : Map = (store_run mem is_gm atomic core m it n).0 in
            let f = fill_run mem m it n (omega arith) is_gm atomic core same in
            let rest =
              walk fuel is_gm atomic core m' base size (it + n)
                (subst (λ k. base + size ≤ k) (sym f.limits) fits) (omega arith) in
            rw c (record {
              limits = rest.limits ∙ f.limits;
              values = λ x l.
                  rest.values x (subst (λ k. x < k) (sym f.limits) l)
                  ∙ parts_of it n (base + size) x (mark_byte is_gm atomic core (get m it))
                      (get m' x) (get m x) (mark_byte is_gm atomic core) within
                      (λ e.
                        ap (λ q. mark_byte is_gm atomic core (get m q)) (in_run it n x e)
                        ∙ ap (mark_byte is_gm atomic core) (same (x - it) (ground arith)))
                      (f.values x l);
              count =
                  ap (λ k. k + (store_in_range mem fuel is_gm atomic core m' base size (it + n)).1)
                    (count_run mem m it n (omega arith) is_gm atomic core)
                  ∙ ap (λ k. (if tramples is_gm atomic core (get m it) then n else 0) + k)
                      rest.count
                  ∙ counts is_gm atomic core m m' it n (base + size) within fits same f;
            })
      ]

  -- On a range below the limit of any memory, the walk of a store by runs of equal bytes, with a turn for
  -- each byte of the range at most, gives each byte of the range the state that a store gives to a single
  -- byte, leaves all others below the limit, and counts exactly the bytes that the store tramples.
  pub store_in_range-Walked :
      (is_gm atomic : Bool) (core : ℕ) (m : Map) (base size : ℕ)
      → base + size ≤ limit m
      → Walked is_gm atomic core m base
          (base + size)
          (store_in_range mem size is_gm atomic core m base size base)
  store_in_range-Walked is_gm atomic core m base size fits =
      walk size is_gm atomic core m base size base fits (omega arith)
