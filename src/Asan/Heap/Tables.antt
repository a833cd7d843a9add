-- ===== src/Asan/Heap/Tables.antt =====
-- The tables of runtime and of framework blocks as maps from addresses, over any sequence of records.
use ascend_mssanitizer.Base.Assoc.{nat_eq, lookup, erase, lookup-erase}
use ascend_mssanitizer.Asan.Heap.{
  HeapType, heap_bypass, heap_mstx, heap_rt, add_heap_block, HeapBlockManager, heap_block,
  HeapBlock, put, heap_mstx_region, enter, heap_dfx, heap_type, get_heap_blocks,
  add_mstx_region_block, push_region, add_rt_dfx_block, is_dfx, add_mstx_heap_block,
  add_bypass_block, set_heap_blocks, add_by_type,
}
use ascend_mssanitizer.Base.{
  some, ◌∙◌, true, ◌==◌, refl, Bool, Option, ap, arith, [], ◌≡◌, ◌&&◌, none, ◌∷◌, if◌then◌else◌,
  false, ℕ, List, ==_iff, sym, inl, Option-cases, inr, Bool-cases,
}
use ascend_mssanitizer.Asan.Heap.Free.{free_heap_block}
use ascend_mssanitizer.Asan.Record.{MemOpRecord, MemInfoSrc}

-- One call of the manager with a record.
pub data HeapOp : Type 0 where
  alloc_op release_op : MemOpRecord → HeapOp

-- The calls one after another, with their results dropped.
unfoldable pub run_heap : List HeapOp → HeapBlockManager → HeapBlockManager
unfolding add_heap_block free_heap_block
run_heap [] m = m
run_heap (alloc_op r ∷ ops) m = run_heap ops (add_heap_block r m).0
run_heap (release_op r ∷ ops) m = run_heap ops (free_heap_block r 0 m).manager

-- What a caller can ask of the two tables.
pub record Tables : Type 0 where
  pub rt_blocks : ℕ → Option HeapBlock
  pub dfx_blocks : ℕ → Option HeapBlock

-- The first block entered at an address stays until it is released.
abbrev pub enter_at : MemOpRecord → (ℕ → Option HeapBlock) → ℕ → Option HeapBlock
enter_at r f a =
    if r.dst_addr == a then elim (f a) [ none ↦ some (heap_block r) | some b ↦ some b ] else f a

abbrev pub clear_at : ℕ → (ℕ → Option HeapBlock) → ℕ → Option HeapBlock
clear_at addr f a = if addr == a then none else f a

abbrev pub is_some : {A : Type 0} → Option A → Bool
is_some none = false
is_some (some a) = true

unfoldable pub enter_tables : HeapType → MemOpRecord → Tables → Tables
enter_tables heap_rt r t = record t { rt_blocks = enter_at r t.rt_blocks }
enter_tables heap_dfx r t = record t { dfx_blocks = enter_at r t.dfx_blocks }
enter_tables heap_bypass r t = record {
  rt_blocks = enter_at r t.rt_blocks;
  dfx_blocks = enter_at r t.dfx_blocks;
}
enter_tables heap_mstx r t = t
enter_tables heap_mstx_region r t = t

unfoldable pub clear_tables : HeapType → ℕ → Tables → Tables
clear_tables heap_rt a t = record t { rt_blocks = clear_at a t.rt_blocks }
clear_tables heap_dfx a t = record t { dfx_blocks = clear_at a t.dfx_blocks }
clear_tables heap_bypass a t =
    if is_some (t.rt_blocks a) && is_some (t.dfx_blocks a)
    then record { rt_blocks = clear_at a t.rt_blocks; dfx_blocks = clear_at a t.dfx_blocks }
    else t
clear_tables heap_mstx a t = t
clear_tables heap_mstx_region a t = t

-- The same calls on the maps.
unfoldable pub replay_heap : List HeapOp → Tables → Tables
unfolding enter_tables clear_tables heap_type
replay_heap [] t = t
replay_heap (alloc_op r ∷ ops) t = replay_heap ops (enter_tables (heap_type r.info_src) r t)
replay_heap (release_op r ∷ ops) t =
    replay_heap ops (clear_tables (heap_type r.info_src) r.dst_addr t)

abbrev pub no_tables : Tables
no_tables = record { rt_blocks = λ a. none; dfx_blocks = λ a. none }

-- The manager's tables hold what the maps say, each block under its own address.
pub record Agrees (m : HeapBlockManager) (t : Tables) : Type 0 where
  pub rt_same : (a : ℕ) → lookup a m.heap_blocks ≡ t.rt_blocks a
  pub dfx_same : (a : ℕ) → lookup a m.heap_blocks_for_dfx ≡ t.dfx_blocks a

lookup-put :
    {V : Type 0} (k j : ℕ) (v : V) (m : List (ℕ × V))
    → lookup j (put k v m) ≡ (if k == j then some v else lookup j m)
unfolding lookup put
lookup-put k j v [] = refl
lookup-put k j v ((i, w) ∷ m) = ground (arith, lookup-put k j v m)

entered :
    (r : MemOpRecord) (a : ℕ) (f : ℕ → Option HeapBlock)
    → f r.dst_addr ≡ none
    → (if r.dst_addr == a then some (heap_block r) else f a) ≡ enter_at r f a
entered r a f h = elim (Bool-cases (r.dst_addr == a)) [
  | inl e ↦ rw (e, sym ((==_iff r.dst_addr a).0 e), h) refl
  | inr e ↦ rw e refl
]

kept :
    (r : MemOpRecord) (a : ℕ) (f : ℕ → Option HeapBlock) (b : HeapBlock)
    → f r.dst_addr ≡ some b
    → f a ≡ enter_at r f a
kept r a f b h = elim (Bool-cases (r.dst_addr == a)) [
  | inl e ↦ rw (e, sym ((==_iff r.dst_addr a).0 e), h) refl
  | inr e ↦ rw e refl
]

lookup-enter :
    (r : MemOpRecord) (a : ℕ) (bs : List (ℕ × HeapBlock)) (f : ℕ → Option HeapBlock)
    → ((k : ℕ) → lookup k bs ≡ f k)
    → lookup a (enter r bs) ≡ enter_at r f a
unfolding enter
lookup-enter r a bs f e = elim (Option-cases (lookup r.dst_addr bs)) [
  | inl h ↦
      rw (enter, h, lookup-put r.dst_addr a (heap_block r) bs, e a)
        (entered r a f (sym (e r.dst_addr) ∙ h))
  | inr (b, h) ↦ rw (enter, h, e a) (kept r a f b (sym (e r.dst_addr) ∙ h))
]

pub lookup-clear :
    (addr a : ℕ) (bs : List (ℕ × HeapBlock)) (f : ℕ → Option HeapBlock)
    → ((k : ℕ) → lookup k bs ≡ f k)
    → lookup a (erase addr bs) ≡ clear_at addr f a
lookup-clear addr a bs f e = lookup-erase addr a bs ∙ ap (λ o. if addr == a then none else o) (e a)

pub clear_absent :
    (addr a : ℕ) (bs : List (ℕ × HeapBlock)) (f : ℕ → Option HeapBlock)
    → ((k : ℕ) → lookup k bs ≡ f k)
    → lookup addr bs ≡ none
    → lookup a bs ≡ clear_at addr f a
clear_absent addr a bs f e h = elim (Bool-cases (addr == a)) [
  | inl q ↦ rw (q, sym ((==_iff addr a).0 q), h) refl
  | inr q ↦ rw q (e a)
]

alloc_plain :
    (r : MemOpRecord) (m : HeapBlockManager) (t : Tables)
    → is_dfx r.info_src ≡ false
    → Agrees m t
    → Agrees (add_rt_dfx_block r m).0 (enter_tables heap_rt r t)
unfolding add_rt_dfx_block get_heap_blocks set_heap_blocks enter_tables
alloc_plain r m t d g = rw d (record {
  rt_same = λ a. lookup-enter r a m.heap_blocks t.rt_blocks g.rt_same;
  dfx_same = g.dfx_same;
})

alloc_dfx :
    (r : MemOpRecord) (m : HeapBlockManager) (t : Tables)
    → is_dfx r.info_src ≡ true
    → Agrees m t
    → Agrees (add_rt_dfx_block r m).0 (enter_tables heap_dfx r t)
unfolding add_rt_dfx_block get_heap_blocks set_heap_blocks enter_tables
alloc_dfx r m t d g = rw d (record {
  rt_same = g.rt_same;
  dfx_same = λ a. lookup-enter r a m.heap_blocks_for_dfx t.dfx_blocks g.dfx_same;
})

alloc_bypass :
    (r : MemOpRecord) (m : HeapBlockManager) (t : Tables)
    → Agrees m t
    → Agrees (add_bypass_block r m).0 (enter_tables heap_bypass r t)
unfolding add_bypass_block enter_tables
alloc_bypass r m t g = record {
  rt_same = λ a. lookup-enter r a m.heap_blocks t.rt_blocks g.rt_same;
  dfx_same = λ a. lookup-enter r a m.heap_blocks_for_dfx t.dfx_blocks g.dfx_same;
}

alloc_mstx :
    (r : MemOpRecord) (m : HeapBlockManager) (t : Tables)
    → Agrees m t
    → Agrees (add_mstx_heap_block r m).0 t
unfolding add_mstx_heap_block
alloc_mstx r m t g = elim (Option-cases (lookup r.dst_addr m.mstx_heap_blocks)) [
  | inl h ↦ rw (add_mstx_heap_block, h) (record { rt_same = g.rt_same; dfx_same = g.dfx_same })
  | inr (b, h) ↦ rw (add_mstx_heap_block, h) g
]

alloc_region :
    (r : MemOpRecord) (m : HeapBlockManager) (t : Tables)
    → Agrees m t
    → Agrees (add_mstx_region_block r m).0 t
unfolding push_region add_mstx_region_block
alloc_region r m t g = elim (Option-cases (lookup r.root_addr m.mstx_heap_blocks)) [
  | inl h ↦ elim (Bool-cases (r.root_addr == 0)) [
    | inl z ↦
        rw (add_mstx_region_block, h, z) (record { rt_same = g.rt_same; dfx_same = g.dfx_same })
    | inr z ↦ rw (add_mstx_region_block, h, z) g
  ]
  | inr (b, h) ↦
      rw (add_mstx_region_block, h) (record { rt_same = g.rt_same; dfx_same = g.dfx_same })
]

-- The table that a source's blocks are kept in.
pub rt_is_plain : (s : MemInfoSrc) → heap_type s ≡ heap_rt → is_dfx s ≡ false
unfolding heap_type
rt_is_plain s h = ground arith

pub dfx_is_dfx : (s : MemInfoSrc) → heap_type s ≡ heap_dfx → is_dfx s ≡ true
unfolding heap_type
dfx_is_dfx s h = ground arith

pub alloc-Agrees :
    (r : MemOpRecord) (m : HeapBlockManager) (t : Tables) (s : HeapType)
    → heap_type r.info_src ≡ s
    → Agrees m t
    → Agrees (add_by_type s r m).0 (enter_tables s r t)
unfolding add_by_type enter_tables
alloc-Agrees r m t heap_rt e g = alloc_plain r m t (rt_is_plain r.info_src e) g
alloc-Agrees r m t heap_dfx e g = alloc_dfx r m t (dfx_is_dfx r.info_src e) g
alloc-Agrees r m t heap_bypass e g = alloc_bypass r m t g
alloc-Agrees r m t heap_mstx e g = alloc_mstx r m t g
alloc-Agrees r m t heap_mstx_region e g = alloc_region r m t g
