-- ===== src/Asan/Pm/Flat.antt =====
-- The two-level map reads like a flat memory.
use ascend_mssanitizer.Base.{
  Option-cases, ◌*◌, ◌≤◌, max, ◌/◌, ◌%◌, ◌≡◌, ℕ, ◌<◌, if◌then◌else◌, inl, suc, ltb, ◌&&◌,
  Bool-cases, refl, leb, true, arith, ◌+◌, min, zero, inr, ◌==◌, ◌∙◌, Bool, ◌-◌, subst, ==_iff, ap,
  sym, false,
}
use ascend_mssanitizer.Asan.Pm.{
  set_blocks, set_block, sm_of, get_bits, sm_size, Pm, local_mem, block_idx, block_offset, set_bits,
}
use ascend_mssanitizer.Base.Words.{u64}

-- The state of byte `o` of block `i`.
unfoldable pub bits_at : Pm → ℕ → ℕ → ℕ
bits_at pm i o = sm_of (pm.sm_list i) (pm.common_bits_list i) o

pub masked : (pm : Pm) (x : ℕ) → get_bits pm x ≡ bits_at pm (block_idx x) (block_offset x)
unfolding get_bits bits_at
masked pm x = elim (Option-cases (pm.sm_list (block_idx x))) [
  | inl e ↦ rw (get_bits, e) refl
  | inr (sm, e) ↦ rw (get_bits, e) refl
]

pub get_bits-at :
    (pm : Pm) (x : ℕ) → x < local_mem → get_bits pm x ≡ bits_at pm (x / sm_size) (x % sm_size)
get_bits-at pm x h =
    let small : x % local_mem ≡ x = omega arith in
    masked pm x ∙ ap (λ m. bits_at pm (m / sm_size) (m % sm_size)) small

-- The bytes that a turn fills, of a block it does not cover as a whole.
part_test :
    (addr right l o : ℕ)
    → o < sm_size
    → (leb (max addr l) (l + o) && ltb (l + o) (min right (l + sm_size)))
      ≡ (leb addr (l + o) && ltb (l + o) right)
part_test addr right l o h = ground arith

whole_test :
    (addr right l o : ℕ)
    → o < sm_size
    → (leb addr l && leb (l + sm_size) right) ≡ true
    → (leb addr (l + o) && ltb (l + o) right) ≡ true
whole_test addr right l o h w = ground arith

bits_at-set_block :
    (addr right bits i j o : ℕ) (pm : Pm)
    → o < sm_size
    → bits_at (set_block addr right bits i pm) j o ≡ (
        if j == i
        then (if leb addr (sm_size * i + o) && ltb (sm_size * i + o) right
            then bits
            else bits_at pm i o)
        else bits_at pm j o)
unfolding bits_at set_block
bits_at-set_block addr right bits i j o pm h =
    elim (Bool-cases (leb addr (sm_size * i) && leb (sm_size * i + sm_size) right)) [
      | inl w ↦ elim (Bool-cases (j == i)) [
        | inl e ↦ rw (set_block, w, e, whole_test addr right (sm_size * i) o h w) refl
        | inr e ↦ rw (set_block, w, e) refl
      ]
      | inr w ↦ elim (Bool-cases (j == i)) [
        | inl e ↦ rw (set_block, w, e, part_test addr right (sm_size * i) o h) refl
        | inr e ↦ rw (set_block, w, e) refl
      ]
    ]

sm_num-set_block :
    (addr right bits i : ℕ) (pm : Pm) → (set_block addr right bits i pm).sm_num ≡ pm.sm_num
unfolding set_block
sm_num-set_block addr right bits i pm =
    elim (Bool-cases (leb addr (sm_size * i) && leb (sm_size * i + sm_size) right)) [
      | inl w ↦ rw (set_block, w) refl
      | inr w ↦ rw (set_block, w) refl
    ]

-- One more block in front, for a byte of that block and for one of another.
one_more_same :
    (i n b c : ℕ) (t : Bool)
    → (if leb (i + 1) i && ltb i (i + 1 + n) && t
        then b
        else if i == i
        then (if t then b else c)
        else c)
      ≡ (if leb i i && ltb i (i + suc n) && t then b else c)
one_more_same i n b c t = ground arith

one_more_other :
    (i j n b c : ℕ) (t : Bool)
    → (j == i) ≡ false
    → (if leb (i + 1) j && ltb j (i + 1 + n) && t then b else c)
      ≡ (if leb i j && ltb j (i + suc n) && t then b else c)
one_more_other i j n b c t h = ground arith

none_more : (i j b c : ℕ) (t : Bool) → c ≡ (if leb i j && ltb j (i + 0) && t then b else c)
none_more i j b c t = ground arith

-- A byte of block `j` lies in the range to set.
abbrev in_part : ℕ → ℕ → ℕ → ℕ → Bool
in_part addr right j o = leb addr (sm_size * j + o) && ltb (sm_size * j + o) right

-- The loop sets the bytes of the range in the blocks it passes.
bits_at-set_blocks :
    (n addr right bits i j o : ℕ) (pm : Pm)
    → o < sm_size
    → i + n ≤ pm.sm_num
    → bits_at (set_blocks n addr right bits i pm) j o
      ≡ (if leb i j && ltb j (i + n) && in_part addr right j o then bits else bits_at pm j o)
unfolding set_blocks
bits_at-set_blocks zero addr right bits i j o pm h k =
    none_more i j bits (bits_at pm j o) (in_part addr right j o)
bits_at-set_blocks (suc n) addr right bits i j o pm h k =
    let pm' = set_block addr right bits i pm in
    let here : leb pm.sm_num i ≡ false = ground arith in
    let later =
      bits_at-set_blocks n addr right bits (i + 1) j o pm' h
        (omega (arith, sm_num-set_block addr right bits i pm)) in
    rw here (
      later ∙ elim (Bool-cases (j == i)) [
        | inl e ↦
            subst
              (λ q.
                (if leb (i + 1) q && ltb q (i + 1 + n) && in_part addr right q o
                  then bits
                  else bits_at pm' q o)
                ≡ (if leb i q && ltb q (i + suc n) && in_part addr right q o
                    then bits
                    else bits_at pm q o))
              (sym ((==_iff j i).0 e))
              (rw (bits_at-set_block addr right bits i i o pm h)
                (one_more_same i n bits (bits_at pm i o) (in_part addr right i o)))
        | inr e ↦
            rw (bits_at-set_block addr right bits i j o pm h, e)
              (one_more_other i j n bits (bits_at pm j o) (in_part addr right j o) e)
      ])

-- The number of blocks that the loop passes.
blocks_passed :
    (addr size : ℕ)
    → addr + size < local_mem
    → block_idx addr
        + block_idx size
        + block_idx (block_offset addr + block_offset size + sm_size - 1)
        - block_idx addr
      ≡ (addr + size + sm_size - 1) / sm_size - addr / sm_size
blocks_passed addr size h = omega arith

-- A byte of the range lies in a block that the loop passes.
passed_block :
    (addr size x n : ℕ)
    → n ≡ (addr + size + sm_size - 1) / sm_size - addr / sm_size
    → (leb (addr / sm_size) (x / sm_size)
        && ltb (x / sm_size) (addr / sm_size + n)
        && (leb addr x && ltb x (addr + size)))
      ≡ (leb addr x && ltb x (addr + size))
passed_block addr size x n h = elim (Bool-cases (leb addr x && ltb x (addr + size))) [
  | inl e ↦ rw e (ground arith)
  | inr e ↦ rw e (ground arith)
]

-- After `Set` of a range inside the blocks of the map, each address below 2 ^ 36 reads as the new value in
-- the range and as before outside it, whichever blocks had a map of their own.
pub get_bits-set_bits :
    (pm : Pm) (addr size bits x : ℕ)
    → addr + size ≤ sm_size * pm.sm_num
    → addr + size < local_mem
    → x < local_mem
    → get_bits (set_bits pm addr size bits) x
      ≡ (if leb addr x && ltb x (addr + size) then bits else get_bits pm x)
unfolding set_bits
get_bits-set_bits pm addr size bits x fit small h =
    let n : ℕ = (addr + size + sm_size - 1) / sm_size - addr / sm_size in
    let first : block_idx addr ≡ addr / sm_size = omega arith in
    let right : u64 (addr + size) ≡ addr + size = omega arith in
    let whole : sm_size * (x / sm_size) + x % sm_size ≡ x = omega arith in
    ap (λ k. get_bits (set_blocks k addr (u64 (addr + size)) bits (block_idx addr) pm) x)
      (blocks_passed addr size small)
    ∙ rw
        (
          first,
          right,
          get_bits-at (set_blocks n addr (addr + size) bits (addr / sm_size) pm) x h,
          bits_at-set_blocks n addr (addr + size) bits (addr / sm_size) (x / sm_size) (x % sm_size)
              pm (omega arith) (omega arith),
          whole,
          passed_block addr size x n refl,
          sym (get_bits-at pm x h),
        )
        refl

sm_num-set_blocks :
    (n addr right bits i : ℕ) (pm : Pm) → (set_blocks n addr right bits i pm).sm_num ≡ pm.sm_num
unfolding set_blocks
sm_num-set_blocks zero addr right bits i pm = refl
sm_num-set_blocks (suc n) addr right bits i pm = elim (Bool-cases (leb pm.sm_num i)) [
  | inl e ↦ rw e refl
  | inr e ↦ rw e (
      sm_num-set_blocks n addr right bits (i + 1) (set_block addr right bits i pm)
      ∙ sm_num-set_block addr right bits i pm)
]

pub sm_num-set_bits :
    (pm : Pm) (addr size bits : ℕ) → (set_bits pm addr size bits).sm_num ≡ pm.sm_num
unfolding set_bits
sm_num-set_bits pm addr size bits =
    sm_num-set_blocks _ addr (u64 (addr + size)) bits (block_idx addr) pm
