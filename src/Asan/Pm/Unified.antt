-- ===== src/Asan/Pm/Unified.antt =====
-- The runs of equal bytes that `PM::UnifiedSizeAfter` finds, and `PM` as a memory.
use ascend_mssanitizer.Asan.Pm.{
  like_head, Pm, block_idx, sm_size, get_bits, local_mem, block_offset, unified_size_after,
  set_bits,
}
use ascend_mssanitizer.Base.{
  false, Option-cases, ap, if◌then◌else◌, ◌≤◌, inr, zero, suc, ==_iff, ℕ, arith, ◌∙◌, ◌-◌, ◌+◌,
  Bool-cases, ◌<◌, inl, ◌==◌, ◌≡◌, min, true, Bool, subst, ◌*◌, some, refl,
}
use ascend_mssanitizer.Asan.Bounds.Refines.{fits}
use ascend_mssanitizer.Asan.Pm.Flat.{sm_num-set_bits, bits_at, masked, get_bits-set_bits}
use ascend_mssanitizer.Asan.Memory.{Memory}

shift : (o k : ℕ) → o + suc k ≡ o + 1 + k
shift o k = omega arith

stay : (o : ℕ) → o + 0 ≡ o
stay o = omega arith

like_head-most : (sm : ℕ → ℕ) (head o n : ℕ) → like_head sm head o n ≤ n
unfolding like_head
like_head-most sm head o zero = omega arith
like_head-most sm head o (suc n) = ground (arith, like_head-most sm head (o + 1) n)

run_next :
    (sm : ℕ → ℕ) (head o n k : ℕ)
    → (sm o == head) ≡ true
    → k < suc (like_head sm head (o + 1) n)
    → ((j : ℕ) → j < like_head sm head (o + 1) n → sm (o + 1 + j) ≡ head)
    → sm (o + k) ≡ head
run_next sm head o n zero e h f = ap sm (stay o) ∙ (==_iff (sm o) head).0 e
run_next sm head o n (suc k) e h f = ap sm (shift o k) ∙ f k (omega arith)

no_run : (k l : ℕ) {b : Bool} → b ≡ false → k < (if b then suc l else 0) → ⊥
no_run k l e h = ground arith

like_head-same : (sm : ℕ → ℕ) (head o n k : ℕ) → k < like_head sm head o n → sm (o + k) ≡ head
unfolding like_head
like_head-same sm head o zero k h = absurd (omega arith)
like_head-same sm head o (suc n) k h = elim (Bool-cases (sm o == head)) [
  | inl e ↦
      run_next sm head o n k e
        (subst (λ b. k < (if b then suc (like_head sm head (o + 1) n) else 0)) e h)
        (like_head-same sm head (o + 1) n)
  | inr e ↦ absurd (no_run k (like_head sm head (o + 1) n) e h)
]

pub unified-at :
    (pm : Pm) (base size addr : ℕ)
    → addr < base + size
    → unified_size_after pm base size addr ≤ min (base + size - addr) (sm_size - block_offset addr)
unfolding unified_size_after
unified-at pm base size addr h = elim (Option-cases (pm.sm_list (block_idx addr))) [
  | inl e ↦ rw (unified_size_after, e) (omega arith)
  | inr (sm, e) ↦
      rw (unified_size_after, e)
        (omega (
          arith,
          like_head-most sm (sm (block_offset addr)) (block_offset addr + 1)
              (min (base + size - addr) (sm_size - block_offset addr) - 1),
        ))
]

pub unified-pos :
    (pm : Pm) (base size addr : ℕ) → addr < base + size → 0 < unified_size_after pm base size addr
unfolding unified_size_after
unified-pos pm base size addr h = elim (Option-cases (pm.sm_list (block_idx addr))) [
  | inl e ↦ rw (unified_size_after, e) (omega arith)
  | inr (sm, e) ↦ rw (unified_size_after, e) (omega arith)
]

-- The next bytes of a block are in the same block.
idx_next :
    (addr k : ℕ)
    → addr + k < local_mem
    → k < sm_size - block_offset addr
    → block_idx (addr + k) ≡ block_idx addr
idx_next addr k h l = omega arith

offset_next :
    (addr k : ℕ)
    → addr + k < local_mem
    → k < sm_size - block_offset addr
    → block_offset (addr + k) ≡ block_offset addr + k
offset_next addr k h l = omega arith

run_reads : (sm : ℕ → ℕ) (o n k : ℕ) → k < 1 + like_head sm (sm o) (o + 1) n → sm (o + k) ≡ sm o
run_reads sm o n zero h = ap sm (stay o)
run_reads sm o n (suc k) h = ap sm (shift o k) ∙ like_head-same sm (sm o) (o + 1) n k (omega arith)

with_map :
    (pm : Pm) (base size addr k : ℕ) (sm : ℕ → ℕ)
    → pm.sm_list (block_idx addr) ≡ some sm
    → k < unified_size_after pm base size addr
    → k
      < 1
        + like_head sm
            (sm (block_offset addr))
            (block_offset addr + 1)
            (min (base + size - addr) (sm_size - block_offset addr) - 1)
unfolding unified_size_after
with_map pm base size addr k sm e l = subst (λ n. k < n) (rw (unified_size_after, e) refl) l

run_of :
    (pm : Pm) (base size addr k : ℕ)
    → k < unified_size_after pm base size addr
    → bits_at pm (block_idx addr) (block_offset addr + k)
      ≡ bits_at pm (block_idx addr) (block_offset addr)
unfolding unified_size_after bits_at
run_of pm base size addr k l = elim (Option-cases (pm.sm_list (block_idx addr))) [
  | inl e ↦ rw e refl
  | inr (sm, e) ↦ rw e (
      run_reads sm (block_offset addr) (min (base + size - addr) (sm_size - block_offset addr) - 1)
        k (with_map pm base size addr k sm e l))
]

-- `UnifiedSizeAfter` hands out a run of bytes that all read alike.
pub unified-same :
    (pm : Pm) (base size addr k : ℕ)
    → addr < base + size
    → base + size ≤ local_mem
    → k < unified_size_after pm base size addr
    → get_bits pm (addr + k) ≡ get_bits pm addr
unified-same pm base size addr k h fits l =
    let inside = unified-at pm base size addr h in
    let small : addr + k < local_mem = omega arith in
    let room : k < sm_size - block_offset addr = omega arith in
    rw
      (
        masked pm (addr + k),
        masked pm addr,
        idx_next addr k small room,
        offset_next addr k small room,
      )
      (run_of pm base size addr k l)

-- `PM` of a memory of up to 2 ^ 36 - 1 bytes, as the shadow memory uses it.
abbrev pub pm_memory : Memory
pm_memory = record {
  Map = Pm;
  get = get_bits;
  put_range = set_bits;
  unified = unified_size_after;
  limit = λ pm. min (sm_size * pm.sm_num) (local_mem - 1);
  same_limit = λ m addr size bits.
      ap (λ n. min (sm_size * n) (local_mem - 1)) (sm_num-set_bits m addr size bits);
  reads = λ m addr size bits x f l.
      get_bits-set_bits m addr size bits x (omega arith) (omega arith) (omega arith);
  unified_pos = λ m base size addr h f. unified-pos m base size addr h;
  unified_fits = λ m base size addr h f. omega (arith, unified-at m base size addr h);
  unified_same = λ m base size addr k h f l. unified-same m base size addr k h (omega arith) l;
}
