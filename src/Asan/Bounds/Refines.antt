-- ===== src/Asan/Bounds/Refines.antt =====
-- `Add` and `Remove` as operations on a set of addresses, over any sequence of calls.
use ascend_mssanitizer.Base.{
  arith, ◌∷◌, ◌&&◌, Bool, [], ltb, ◌==◌, leb, List, ◌<◌, Bool-cases, inr, not, ◌≡◌, ℕ, ◌+◌, true,
  inl, ◌^◌, ◌||◌, All, false, ◌∙◌, refl, ap,
}
use ascend_mssanitizer.Asan.Bounds.{
  global_mem_mask, upper_bound, remove, overflow_bytes, Range, check_overflow, add,
}
use ascend_mssanitizer.Asan.Bounds.Cover.{upper_bound-Parts, IsOrdered, covered}
use ascend_mssanitizer.Asan.Bounds.Remove.{remove_at-lem}
use ascend_mssanitizer.Base.Words.{u64}
use ascend_mssanitizer.Asan.Bounds.Add.{add_at-lem}

-- A call of the two operations, with the address and the size.
pub data BoundsOp : Type 0 where
  add_op remove_op : ℕ → ℕ → BoundsOp

-- The calls one after another, with their results dropped.
unfoldable pub run_bounds : List BoundsOp → List Range → List Range
unfolding add remove
run_bounds [] rs = rs
run_bounds (add_op addr size ∷ ops) rs = run_bounds ops (add addr size rs).0
run_bounds (remove_op addr size ∷ ops) rs = run_bounds ops (remove addr size rs).0

-- A block of bytes that lies within the 48 modelled bits; an empty one always does.
abbrev pub fits : ℕ → ℕ → Bool
fits addr size = size == 0 || leb (addr + size) global_mem_mask

-- The bytes of a block that the checker accepts.
abbrev pub in_fitting : ℕ → ℕ → ℕ → Bool
in_fitting addr size x = fits addr size && (leb addr x && ltb x (addr + size))

-- The same calls on a set of addresses.
unfoldable pub replay_bounds : List BoundsOp → (ℕ → Bool) → ℕ → Bool
replay_bounds [] f = f
replay_bounds (add_op addr size ∷ ops) f = replay_bounds ops (λ x. f x || in_fitting addr size x)
replay_bounds (remove_op addr size ∷ ops) f =
    replay_bounds ops (λ x. f x && not (in_fitting addr size x))

-- The addresses of the calls are machine words.
abbrev pub IsWordOp : BoundsOp → Type 0
IsWordOp (add_op addr size) = addr < 2 ^ 64
IsWordOp (remove_op addr size) = addr < 2 ^ 64

-- `CheckOverflow` refuses exactly the blocks that leave the modelled memory.
pub check_overflow-fits :
    (addr size : ℕ) → (check_overflow addr size).is_error ≡ not (fits addr size)
unfolding check_overflow overflow_bytes
check_overflow-fits addr size = ground arith

no_wrap : (addr size : ℕ) → addr < 2 ^ 64 → fits addr size ≡ true → u64 (addr + size) ≡ addr + size
no_wrap addr size h k = ground arith

sym_or : (a : Bool) → a ≡ (a || false)
sym_or a = ground arith

sym_and : (a : Bool) → a ≡ (a && true)
sym_and a = ground arith

-- One call of `Add`.
pub add-Covers :
    (addr size : ℕ) (rs : List Range)
    → addr < 2 ^ 64
    → IsOrdered 0 rs
    → IsOrdered 0 (add addr size rs).0
      × ((x : ℕ) → covered x (add addr size rs).0 ≡ (covered x rs || in_fitting addr size x))
unfolding add
add-Covers addr size rs h o = elim (Bool-cases (fits addr size)) [
  | inl f ↦
      let p = upper_bound-Parts (λ b. ltb addr b.addr_l) 0 [] rs tt o tt in
      let q =
        add_at-lem addr (addr + size) rs (upper_bound (λ b. ltb addr b.addr_l) [] rs) (omega arith)
          p in
      rw (check_overflow-fits addr size, f, no_wrap addr size h f) q
  | inr f ↦ rw (check_overflow-fits addr size, f) (o, λ x. sym_or (covered x rs))
]

-- One call of `Remove`.
pub remove-Covers :
    (addr size : ℕ) (rs : List Range)
    → addr < 2 ^ 64
    → IsOrdered 0 rs
    → IsOrdered 0 (remove addr size rs).0
      × ((x : ℕ)
          → covered x (remove addr size rs).0 ≡ (covered x rs && not (in_fitting addr size x)))
unfolding remove
remove-Covers addr size rs h o = elim (Bool-cases (fits addr size)) [
  | inl f ↦
      let p = upper_bound-Parts (λ b. ltb addr b.addr_r) 0 [] rs tt o tt in
      let q =
        remove_at-lem addr (addr + size) rs (upper_bound (λ b. ltb addr b.addr_r) [] rs)
          (omega arith) p in
      rw (check_overflow-fits addr size, f, no_wrap addr size h f) q
  | inr f ↦ rw (check_overflow-fits addr size, f) (o, λ x. sym_and (covered x rs))
]

run_from :
    (ops : List BoundsOp) (rs : List Range) (f : ℕ → Bool)
    → All IsWordOp ops
    → IsOrdered 0 rs
    → ((x : ℕ) → covered x rs ≡ f x)
    → IsOrdered 0 (run_bounds ops rs)
      × ((x : ℕ) → covered x (run_bounds ops rs) ≡ replay_bounds ops f x)
unfolding run_bounds replay_bounds
run_from [] rs f w o e = (o, e)
run_from (add_op addr size ∷ ops) rs f w o e =
    let q = add-Covers addr size rs w.0 o in
    run_from ops (add addr size rs).0 (λ x. f x || in_fitting addr size x) w.1 q.0
      (λ x. q.1 x ∙ ap (λ b. (b || in_fitting addr size x)) (e x))
run_from (remove_op addr size ∷ ops) rs f w o e =
    let q = remove-Covers addr size rs w.0 o in
    run_from ops (remove addr size rs).0 (λ x. f x && not (in_fitting addr size x)) w.1 q.0
      (λ x. q.1 x ∙ ap (λ b. (b && not (in_fitting addr size x))) (e x))

-- After any sequence of calls of `Add` and `Remove` with 64-bit addresses, from the empty sequence, the
-- ranges are sorted without overlap and cover exactly the addresses that the same calls leave in a set:
-- each `Add` of a block within the 48 modelled bits puts its bytes in, each `Remove` takes them out.
pub run_bounds-Refines :
    (ops : List BoundsOp)
    → All IsWordOp ops
    → IsOrdered 0 (run_bounds ops [])
      × ((x : ℕ) → covered x (run_bounds ops []) ≡ replay_bounds ops (λ x. false) x)
unfolding covered
run_bounds-Refines ops w = run_from ops [] (λ x. false) w tt (λ x. refl)
