-- ===== src/Asan/Heap/Free.antt =====
-- The release of blocks, the leak check and the sizes of csrc/address_sanitizer/heap_block_manager.cpp.
use ascend_mssanitizer.Base.Assoc.{nat_eq}
use ascend_mssanitizer.Base.{
  List, ◌∷◌, ◌==◌, [], Bool, ℕ, true, map, false, Option, some, if◌then◌else◌, none,
}
use ascend_mssanitizer.Asan.Record.{src_acl, MemOpRecord, src_hal, MemInfoSrc, src_rt}
use ascend_mssanitizer.Event.{space_gm}
use ascend_mssanitizer.Asan.Heap.{
  heap_dfx, heap_bypass, HeapType, is_addr_in_range, heap_mstx_region, heap_mstx, get_heap_blocks,
  heap_rt, heap_type, set_heap_blocks, HeapBlock, HeapBlockManager,
}
use ascend_mssanitizer.Asan.Msg.{mem_leak, set_type, no_error, ErrorMsg, illegal_free}
use ascend_mssanitizer.Base.Assoc.{erase, lookup}

-- What a release hands out: the tables, the size of the block and the error.
pub record Freed : Type 0 where
  pub manager : HeapBlockManager
  pub size : ℕ
  pub msg : ErrorMsg

-- `IsRealMalloc`
abbrev pub is_real_malloc : MemInfoSrc → Bool
is_real_malloc src_hal = true
is_real_malloc src_acl = true
is_real_malloc src_rt = true
is_real_malloc _ = false

-- The report of a release of an address that no block starts at.
abbrev pub illegal_free_at : ℕ → ErrorMsg
illegal_free_at addr = set_type illegal_free space_gm addr no_error

-- The first registered heap, by its address, that lies in the released block.
unfoldable pub first_inside : ℕ → ℕ → List (ℕ × HeapBlock) → Option ℕ
unfolding is_addr_in_range
first_inside addr size [] = none
first_inside addr size ((k, b) ∷ bs) =
    let later = first_inside addr size bs in if is_addr_in_range b addr size then some k else later

-- `DeleteMstxInfo`
unfoldable pub delete_mstx_info : MemOpRecord → ℕ → HeapBlockManager → HeapBlockManager
unfolding first_inside
delete_mstx_info r free_size m =
    if is_real_malloc r.info_src
    then elim (first_inside r.dst_addr free_size m.mstx_heap_blocks) [
      | none ↦ m
      | some k ↦ record m {
        mstx_region_blocks = erase k m.mstx_region_blocks;
        mstx_heap_blocks = erase k m.mstx_heap_blocks;
      }
    ]
    else m

-- `FreeRtDfxBlock`
unfoldable pub free_rt_dfx_block : MemOpRecord → ℕ → HeapBlockManager → Freed
unfolding get_heap_blocks set_heap_blocks delete_mstx_info
free_rt_dfx_block r size m = elim (lookup r.dst_addr (get_heap_blocks r.info_src m)) [
  | none ↦ record { manager = m; size = size; msg = illegal_free_at r.dst_addr }
  | some b ↦ record {
    manager =
        set_heap_blocks r.info_src (erase r.dst_addr (get_heap_blocks r.info_src m))
          (delete_mstx_info r b.len m);
    size = b.len;
    msg = no_error;
  }
]

-- `FreeByPassBlock`
unfoldable pub free_bypass_block : MemOpRecord → ℕ → HeapBlockManager → Freed
free_bypass_block r size m = elim (lookup r.dst_addr m.heap_blocks) [
  | none ↦ record { manager = m; size = size; msg = illegal_free_at r.dst_addr }
  | some b ↦ elim (lookup r.dst_addr m.heap_blocks_for_dfx) [
    | none ↦ record { manager = m; size = size; msg = illegal_free_at r.dst_addr }
    | some d ↦ record {
      manager = record m {
        heap_blocks = erase r.dst_addr m.heap_blocks;
        heap_blocks_for_dfx = erase r.dst_addr m.heap_blocks_for_dfx;
      };
      size = b.len;
      msg = no_error;
    }
  ]
]

-- `FreeMstxHeapBlock`
unfoldable pub free_mstx_heap_block : MemOpRecord → ℕ → HeapBlockManager → Freed
free_mstx_heap_block r size m = elim (lookup r.dst_addr m.mstx_heap_blocks) [
  | none ↦ record { manager = m; size = size; msg = illegal_free_at r.dst_addr }
  | some b ↦ record {
    manager = record m {
      mstx_heap_blocks = erase r.dst_addr m.mstx_heap_blocks;
      mstx_region_blocks = erase r.dst_addr m.mstx_region_blocks;
    };
    size = b.len;
    msg = no_error;
  }
]

-- The walk from the back of a heap's regions: the last one at the address goes, with its length.
unfoldable pub erase_last : ℕ → List HeapBlock → Option (ℕ × List HeapBlock)
erase_last addr [] = none
erase_last addr (b ∷ bs) = elim (erase_last addr bs) [
  | some p ↦ some (p.0, b ∷ p.1)
  | none ↦ if b.addr == addr then some (b.len, bs) else none
]

-- The walk over the heaps; the first one with such a region loses it.
unfoldable pub erase_region : ℕ → List (ℕ × List HeapBlock) → Option (ℕ × List (ℕ × List HeapBlock))
unfolding erase_last
erase_region addr [] = none
erase_region addr ((k, bs) ∷ m) = elim (erase_last addr bs) [
  | some p ↦ some (p.0, (k, p.1) ∷ m)
  | none ↦ elim (erase_region addr m) [ none ↦ none | some p ↦ some (p.0, (k, bs) ∷ p.1) ]
]

-- `FreeMstxRegionBlock`
unfoldable pub free_mstx_region_block : MemOpRecord → ℕ → HeapBlockManager → Freed
unfolding erase_region
free_mstx_region_block r size m = elim (erase_region r.dst_addr m.mstx_region_blocks) [
  | none ↦ record { manager = m; size = size; msg = illegal_free_at r.dst_addr }
  | some p ↦ record { manager = record m { mstx_region_blocks = p.1 }; size = p.0; msg = no_error }
]

unfoldable pub free_by_type : HeapType → MemOpRecord → ℕ → HeapBlockManager → Freed
unfolding free_rt_dfx_block free_bypass_block free_mstx_heap_block free_mstx_region_block
free_by_type heap_rt r size m = free_rt_dfx_block r size m
free_by_type heap_dfx r size m = free_rt_dfx_block r size m
free_by_type heap_bypass r size m = free_bypass_block r size m
free_by_type heap_mstx r size m = free_mstx_heap_block r size m
free_by_type heap_mstx_region r size m = free_mstx_region_block r size m

-- `FreeHeapBlock`
unfoldable pub free_heap_block : MemOpRecord → ℕ → HeapBlockManager → Freed
unfolding free_by_type heap_type
free_heap_block r size m = free_by_type (heap_type r.info_src) r size m

-- The report of one block that is still allocated.
abbrev pub leak_msg : HeapBlock → ErrorMsg
leak_msg b = record no_error {
  error_type = mem_leak;
  is_error = true;
  aux_data = record (no_error.aux_data) {
    space = space_gm;
    bad_addr = b.addr;
    n_bad_bytes = b.len;
    module_id = b.module_id;
    file_name = b.file_name;
    line_no = b.line_no;
    serial_no = b.serial_no;
  };
}

-- `DoLeakCheck`
unfoldable pub do_leak_check : HeapBlockManager → List ErrorMsg
do_leak_check m = map (λ p. leak_msg p.1) m.heap_blocks

-- `GetHeapBlockSize`
unfoldable pub get_heap_block_size : MemOpRecord → HeapBlockManager → ℕ
get_heap_block_size r m = elim (lookup r.dst_addr m.heap_blocks) [
  | some b ↦ b.len
  | none ↦ elim (lookup r.dst_addr m.heap_blocks_for_dfx) [ some b ↦ b.len | none ↦ 0 ]
]
