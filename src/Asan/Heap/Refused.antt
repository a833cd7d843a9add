-- ===== src/Asan/Heap/Refused.antt =====
-- When a release is refused.
use ascend_mssanitizer.Base.Assoc.{nat_eq, lookup}
use ascend_mssanitizer.Asan.Heap.{
  HeapBlock, heap_mstx_region, HeapBlockManager, is_addr_in_range, heap_dfx, heap_rt, heap_mstx,
  heap_type, heap_bypass, HeapType, get_heap_blocks,
}
use ascend_mssanitizer.Base.{
  subst, List, inr, ◌∷◌, Option-cases, [], arith, ℕ, ◌||◌, false, ◌&&◌, inl, ◌≡◌, ◌==◌, ◌↔◌, ◌≤◌,
  true, refl, Bool, ◌+◌,
}
use ascend_mssanitizer.Asan.Heap.Free.{
  erase_region, free_mstx_region_block, free_rt_dfx_block, erase_last, free_mstx_heap_block,
  free_bypass_block, illegal_free_at, free_heap_block, Freed, free_by_type,
}
use ascend_mssanitizer.Asan.Heap.Tables.{is_some}
use ascend_mssanitizer.Asan.Msg.{no_error}
use ascend_mssanitizer.Asan.Record.{MemOpRecord}

-- Some region starts at the address.
unfoldable pub starts_region : ℕ → List HeapBlock → Bool
starts_region addr [] = false
starts_region addr (b ∷ bs) = starts_region addr bs || b.addr == addr

unfoldable pub in_regions : ℕ → List (ℕ × List HeapBlock) → Bool
unfolding starts_region
in_regions addr [] = false
in_regions addr ((k, bs) ∷ m) = starts_region addr bs || in_regions addr m

-- The tables that a release of the given type looks into hold a block at the address.
unfoldable pub is_held : HeapType → MemOpRecord → HeapBlockManager → Bool
unfolding in_regions
is_held heap_rt r m = is_some (lookup r.dst_addr (get_heap_blocks r.info_src m))
is_held heap_dfx r m = is_some (lookup r.dst_addr (get_heap_blocks r.info_src m))
is_held heap_bypass r m =
    is_some (lookup r.dst_addr m.heap_blocks) && is_some (lookup r.dst_addr m.heap_blocks_for_dfx)
is_held heap_mstx r m = is_some (lookup r.dst_addr m.mstx_heap_blocks)
is_held heap_mstx_region r m = in_regions r.dst_addr m.mstx_region_blocks

-- What a release leaves where it is refused, and answers where it is not.
abbrev pub Answers : Bool → MemOpRecord → ℕ → HeapBlockManager → Freed → Type 0
Answers true r size m f = f.msg ≡ no_error
Answers false r size m f = (f.manager ≡ m) × (f.size ≡ size) × (f.msg ≡ illegal_free_at r.dst_addr)

release_table :
    (r : MemOpRecord) (size : ℕ) (m : HeapBlockManager)
    → Answers
        (is_some (lookup r.dst_addr (get_heap_blocks r.info_src m)))
        r
        size
        m
        (free_rt_dfx_block r size m)
unfolding free_rt_dfx_block
release_table r size m = elim (Option-cases (lookup r.dst_addr (get_heap_blocks r.info_src m))) [
  | inl h ↦ rw (free_rt_dfx_block, h) (refl, refl, refl)
  | inr (b, h) ↦ rw (free_rt_dfx_block, h) refl
]

release_both :
    (r : MemOpRecord) (size : ℕ) (m : HeapBlockManager)
    → Answers (is_held heap_bypass r m) r size m (free_bypass_block r size m)
unfolding free_bypass_block is_held
release_both r size m = elim (Option-cases (lookup r.dst_addr m.heap_blocks)) [
  | inl h ↦ rw (free_bypass_block, h) (refl, refl, refl)
  | inr (b, h) ↦ elim (Option-cases (lookup r.dst_addr m.heap_blocks_for_dfx)) [
    | inl k ↦ rw (free_bypass_block, h, k) (refl, refl, refl)
    | inr (d, k) ↦ rw (free_bypass_block, h, k) refl
  ]
]

release_heap :
    (r : MemOpRecord) (size : ℕ) (m : HeapBlockManager)
    → Answers (is_held heap_mstx r m) r size m (free_mstx_heap_block r size m)
unfolding free_mstx_heap_block is_held
release_heap r size m = elim (Option-cases (lookup r.dst_addr m.mstx_heap_blocks)) [
  | inl h ↦ rw (free_mstx_heap_block, h) (refl, refl, refl)
  | inr (b, h) ↦ rw (free_mstx_heap_block, h) refl
]

is_some-erase_last :
    (addr : ℕ) (bs : List HeapBlock) → is_some (erase_last addr bs) ≡ starts_region addr bs
unfolding erase_last starts_region
is_some-erase_last addr [] = refl
is_some-erase_last addr (b ∷ bs) = ground (arith, is_some-erase_last addr bs)

is_some-erase_region :
    (addr : ℕ) (m : List (ℕ × List HeapBlock)) → is_some (erase_region addr m) ≡ in_regions addr m
unfolding erase_region in_regions
is_some-erase_region addr [] = refl
is_some-erase_region addr ((k, bs) ∷ m) =
    ground (arith, is_some-erase_last addr bs, is_some-erase_region addr m)

release_one_region :
    (r : MemOpRecord) (size : ℕ) (m : HeapBlockManager)
    → Answers
        (is_some (erase_region r.dst_addr m.mstx_region_blocks))
        r
        size
        m
        (free_mstx_region_block r size m)
unfolding free_mstx_region_block
release_one_region r size m = elim (Option-cases (erase_region r.dst_addr m.mstx_region_blocks)) [
  | inl h ↦ rw (free_mstx_region_block, h) (refl, refl, refl)
  | inr (b, h) ↦ rw (free_mstx_region_block, h) refl
]

by_type :
    (s : HeapType) (r : MemOpRecord) (size : ℕ) (m : HeapBlockManager)
    → Answers (is_held s r m) r size m (free_by_type s r size m)
unfolding free_by_type is_held
by_type heap_rt r size m = release_table r size m
by_type heap_dfx r size m = release_table r size m
by_type heap_bypass r size m = release_both r size m
by_type heap_mstx r size m = release_heap r size m
by_type heap_mstx_region r size m =
    subst (λ b. Answers b r size m (free_mstx_region_block r size m))
      (is_some-erase_region r.dst_addr m.mstx_region_blocks) (release_one_region r size m)

-- `FreeHeapBlock` answers without an error exactly when the tables of the record's source hold a block at
-- its address, both tables for a bypass record and any heap's regions for a region; where it refuses, it
-- reports an illegal free of that address and leaves the tables and the size.
pub free_heap_block-Answers :
    (r : MemOpRecord) (size : ℕ) (m : HeapBlockManager)
    → Answers (is_held (heap_type r.info_src) r m) r size m (free_heap_block r size m)
unfolding free_heap_block
free_heap_block-Answers r size m = by_type (heap_type r.info_src) r size m

-- A registered heap is taken for valid exactly when its bytes lie in one block of the runtime, and a
-- range test by subtraction that cannot wrap says so.
pub is_addr_in_range_iff :
    (b : HeapBlock) (addr size : ℕ)
    → (is_addr_in_range b addr size ≡ true) ↔ ((addr ≤ b.addr) × (b.addr + b.len ≤ addr + size))
unfolding is_addr_in_range
is_addr_in_range_iff b addr size = ground arith
