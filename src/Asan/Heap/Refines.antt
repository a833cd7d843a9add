-- ===== src/Asan/Heap/Refines.antt =====
-- Releases, and the leak check over any sequence of records.
use ascend_mssanitizer.Base.Assoc.{nat_eq, erase, lookup}
use ascend_mssanitizer.Asan.Heap.Tables.{
  alloc_op, release_op, run_heap, lookup-clear, clear_tables, clear_absent, no_tables, replay_heap,
  HeapOp, Agrees, Tables, alloc-Agrees, rt_is_plain, dfx_is_dfx,
}
use ascend_mssanitizer.Asan.Heap.Free.{
  free_rt_dfx_block, free_bypass_block, is_real_malloc, erase_region, first_inside, free_by_type,
  free_mstx_region_block, delete_mstx_info, free_mstx_heap_block, free_heap_block,
}
use ascend_mssanitizer.Base.{
  Option-cases, [], true, ℕ, sym, ◌≡◌, inr, ◌∷◌, Bool-cases, false, refl, List, inl, none,
}
use ascend_mssanitizer.Asan.Record.{MemOpRecord}
use ascend_mssanitizer.Asan.Heap.{
  heap_dfx, heap_bypass, heap_type, heap_rt, HeapBlock, get_heap_blocks, new_manager, is_dfx,
  set_heap_blocks, HeapBlockManager, heap_mstx_region, add_heap_block, heap_mstx, HeapType,
}

-- Forgetting registered heaps leaves the two tables.
delete_mstx-Agrees :
    (r : MemOpRecord) (n : ℕ) (m : HeapBlockManager) (t : Tables)
    → Agrees m t
    → Agrees (delete_mstx_info r n m) t
unfolding delete_mstx_info
delete_mstx-Agrees r n m t g = elim (Bool-cases (is_real_malloc r.info_src)) [
  | inl h ↦ elim (Option-cases (first_inside r.dst_addr n m.mstx_heap_blocks)) [
    | inl e ↦ rw (h, e) g
    | inr (k, e) ↦ rw (h, e) (record { rt_same = g.rt_same; dfx_same = g.dfx_same })
  ]
  | inr h ↦ rw h g
]

set_plain :
    (r : MemOpRecord) (m n : HeapBlockManager) (t : Tables)
    → is_dfx r.info_src ≡ false
    → Agrees m t
    → Agrees n t
    → Agrees
        (set_heap_blocks r.info_src (erase r.dst_addr (get_heap_blocks r.info_src m)) n)
        (clear_tables heap_rt r.dst_addr t)
unfolding set_heap_blocks get_heap_blocks clear_tables
set_plain r m n t d g k = rw d (record {
  rt_same = λ a. lookup-clear r.dst_addr a m.heap_blocks t.rt_blocks g.rt_same;
  dfx_same = k.dfx_same;
})

release_plain :
    (r : MemOpRecord) (m : HeapBlockManager) (t : Tables)
    → is_dfx r.info_src ≡ false
    → Agrees m t
    → Agrees (free_rt_dfx_block r 0 m).manager (clear_tables heap_rt r.dst_addr t)
unfolding free_rt_dfx_block get_heap_blocks clear_tables
release_plain r m t d g = elim (Option-cases (lookup r.dst_addr m.heap_blocks)) [
  | inl h ↦
      rw (free_rt_dfx_block, d, h)
        (record {
          rt_same = λ a. clear_absent r.dst_addr a m.heap_blocks t.rt_blocks g.rt_same h;
          dfx_same = g.dfx_same;
        })
  | inr (b, h) ↦
      rw (free_rt_dfx_block, d, h)
        (set_plain r m (delete_mstx_info r b.len m) t d g (delete_mstx-Agrees r b.len m t g))
]

set_dfx :
    (r : MemOpRecord) (m n : HeapBlockManager) (t : Tables)
    → is_dfx r.info_src ≡ true
    → Agrees m t
    → Agrees n t
    → Agrees
        (set_heap_blocks r.info_src (erase r.dst_addr (get_heap_blocks r.info_src m)) n)
        (clear_tables heap_dfx r.dst_addr t)
unfolding set_heap_blocks get_heap_blocks clear_tables
set_dfx r m n t d g k = rw d (record {
  rt_same = k.rt_same;
  dfx_same = λ a. lookup-clear r.dst_addr a m.heap_blocks_for_dfx t.dfx_blocks g.dfx_same;
})

release_dfx :
    (r : MemOpRecord) (m : HeapBlockManager) (t : Tables)
    → is_dfx r.info_src ≡ true
    → Agrees m t
    → Agrees (free_rt_dfx_block r 0 m).manager (clear_tables heap_dfx r.dst_addr t)
unfolding free_rt_dfx_block get_heap_blocks clear_tables
release_dfx r m t d g = elim (Option-cases (lookup r.dst_addr m.heap_blocks_for_dfx)) [
  | inl h ↦
      rw (free_rt_dfx_block, d, h)
        (record {
          rt_same = g.rt_same;
          dfx_same = λ a. clear_absent r.dst_addr a m.heap_blocks_for_dfx t.dfx_blocks g.dfx_same h;
        })
  | inr (b, h) ↦
      rw (free_rt_dfx_block, d, h)
        (set_dfx r m (delete_mstx_info r b.len m) t d g (delete_mstx-Agrees r b.len m t g))
]

release_bypass :
    (r : MemOpRecord) (m : HeapBlockManager) (t : Tables)
    → Agrees m t
    → Agrees (free_bypass_block r 0 m).manager (clear_tables heap_bypass r.dst_addr t)
unfolding free_bypass_block clear_tables
release_bypass r m t g = elim (Option-cases (lookup r.dst_addr m.heap_blocks)) [
  | inl h ↦ rw (free_bypass_block, h, sym (g.rt_same r.dst_addr), h) g
  | inr (b, h) ↦ elim (Option-cases (lookup r.dst_addr m.heap_blocks_for_dfx)) [
    | inl k ↦
        rw (free_bypass_block, h, k, sym (g.rt_same r.dst_addr), sym (g.dfx_same r.dst_addr), h, k)
          g
    | inr (d, k) ↦
        rw (free_bypass_block, h, k, sym (g.rt_same r.dst_addr), sym (g.dfx_same r.dst_addr), h, k)
          (record {
            rt_same = λ a. lookup-clear r.dst_addr a m.heap_blocks t.rt_blocks g.rt_same;
            dfx_same = λ a. lookup-clear r.dst_addr a m.heap_blocks_for_dfx t.dfx_blocks g.dfx_same;
          })
  ]
]

release_mstx :
    (r : MemOpRecord) (m : HeapBlockManager) (t : Tables)
    → Agrees m t
    → Agrees (free_mstx_heap_block r 0 m).manager t
unfolding free_mstx_heap_block
release_mstx r m t g = elim (Option-cases (lookup r.dst_addr m.mstx_heap_blocks)) [
  | inl h ↦ rw (free_mstx_heap_block, h) g
  | inr (b, h) ↦
      rw (free_mstx_heap_block, h) (record { rt_same = g.rt_same; dfx_same = g.dfx_same })
]

release_region :
    (r : MemOpRecord) (m : HeapBlockManager) (t : Tables)
    → Agrees m t
    → Agrees (free_mstx_region_block r 0 m).manager t
unfolding free_mstx_region_block
release_region r m t g = elim (Option-cases (erase_region r.dst_addr m.mstx_region_blocks)) [
  | inl h ↦ rw (free_mstx_region_block, h) g
  | inr (b, h) ↦
      rw (free_mstx_region_block, h) (record { rt_same = g.rt_same; dfx_same = g.dfx_same })
]

release-Agrees :
    (r : MemOpRecord) (m : HeapBlockManager) (t : Tables) (s : HeapType)
    → heap_type r.info_src ≡ s
    → Agrees m t
    → Agrees (free_by_type s r 0 m).manager (clear_tables s r.dst_addr t)
unfolding free_by_type clear_tables
release-Agrees r m t heap_rt e g = release_plain r m t (rt_is_plain r.info_src e) g
release-Agrees r m t heap_dfx e g = release_dfx r m t (dfx_is_dfx r.info_src e) g
release-Agrees r m t heap_bypass e g = release_bypass r m t g
release-Agrees r m t heap_mstx e g = release_mstx r m t g
release-Agrees r m t heap_mstx_region e g = release_region r m t g

run_tables :
    (ops : List HeapOp) (m : HeapBlockManager) (t : Tables)
    → Agrees m t
    → Agrees (run_heap ops m) (replay_heap ops t)
unfolding run_heap replay_heap add_heap_block free_heap_block
run_tables [] m t g = g
run_tables (alloc_op r ∷ ops) m t g =
    run_tables ops _ _ (alloc-Agrees r m t (heap_type r.info_src) refl g)
run_tables (release_op r ∷ ops) m t g =
    run_tables ops _ _ (release-Agrees r m t (heap_type r.info_src) refl g)

nothing : (a : ℕ) → lookup {V = HeapBlock} a [] ≡ none
unfolding lookup
nothing a = refl

-- After any sequence of records, from empty tables, the manager's tables of runtime and of framework
-- blocks hold at every address what the same records leave in two maps: the first block entered there
-- until its release, a bypass record acting on both maps and its release only where both hold a block.
pub run_heap-Refines :
    (ops : List HeapOp) → Agrees (run_heap ops new_manager) (replay_heap ops no_tables)
run_heap-Refines ops =
    run_tables ops new_manager no_tables (record { rt_same = nothing; dfx_same = nothing })
