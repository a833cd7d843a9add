-- ===== src/Asan/Heap.antt =====
-- csrc/address_sanitizer/heap_block_manager.cpp: the tables of allocated blocks, by their sources.
pub mod Free
pub mod Tables
pub mod Refines
pub mod Refused
use ascend_mssanitizer.Base.Assoc.{nat_eq}
use Prim.Native.String.{String}
use ascend_mssanitizer.Base.{
  ◌==◌, ◌++◌, none, List, some, if◌then◌else◌, not, ltb, ◌||◌, ◌-◌, leb, Bool, ◌∷◌, [], ◌&&◌, ℕ,
  true, false,
}
use ascend_mssanitizer.Asan.Record.{
  src_mstx_region, src_rt, MemInfoSrc, src_extra, MemOpRecord, src_bypass, src_acl, src_hal,
  src_mstx_heap, src_manual,
}
use ascend_mssanitizer.Base.Int.{ℤ}
use ascend_mssanitizer.Base.Assoc.{lookup, queue_of}

pub record HeapBlock : Type 0 where
  pub serial_no : ℕ
  pub addr : ℕ
  pub len : ℕ
  pub module_id : ℤ
  pub line_no : ℕ
  pub file_name : String
  pub is_invalid : Bool

-- `HeapBlock::HeapBlock`
abbrev pub heap_block : MemOpRecord → HeapBlock
heap_block r = record {
  serial_no = r.serial_no;
  addr = r.dst_addr;
  len = r.mem_size;
  module_id = r.module_id;
  line_no = r.line_no;
  file_name = r.file_name;
  is_invalid = false;
}

pub data HeapType : Type 0 where
  heap_rt heap_dfx heap_mstx heap_mstx_region heap_bypass : HeapType

-- `map[k] = v` of a std::map, which lists its entries by their keys.
unfoldable pub put : {V : Type 0} → ℕ → V → List (ℕ × V) → List (ℕ × V)
put k v [] = (k, v) ∷ []
put k v ((j, w) ∷ m) =
    let rest = put k v m in
    if k == j then (k, v) ∷ m else if ltb k j then (k, v) ∷ (j, w) ∷ m else (j, w) ∷ rest

pub record HeapBlockManager : Type 0 where
  pub heap_blocks : List (ℕ × HeapBlock)
  pub heap_blocks_for_dfx : List (ℕ × HeapBlock)
  pub mstx_heap_blocks : List (ℕ × HeapBlock)
  pub mstx_region_blocks : List (ℕ × List HeapBlock)

abbrev pub new_manager : HeapBlockManager
new_manager = record {
  heap_blocks = [];
  heap_blocks_for_dfx = [];
  mstx_heap_blocks = [];
  mstx_region_blocks = [];
}

-- `IsAddrInRange`
unfoldable pub is_addr_in_range : HeapBlock → ℕ → ℕ → Bool
is_addr_in_range b threshold_addr threshold_size =
    leb threshold_addr b.addr
    && leb b.len threshold_size
    && leb (b.addr - threshold_addr) (threshold_size - b.len)

-- `GetHeapType`; each source has a type.
unfoldable pub heap_type : MemInfoSrc → HeapType
heap_type src_hal = heap_rt
heap_type src_rt = heap_rt
heap_type src_acl = heap_rt
heap_type src_extra = heap_dfx
heap_type src_manual = heap_dfx
heap_type src_bypass = heap_bypass
heap_type src_mstx_heap = heap_mstx
heap_type src_mstx_region = heap_mstx_region

-- `GetHeapBlocks` asks for these sources.
abbrev pub is_dfx : MemInfoSrc → Bool
is_dfx src_extra = true
is_dfx src_manual = true
is_dfx src_bypass = true
is_dfx _ = false

-- `GetHeapBlocks`
unfoldable pub get_heap_blocks : MemInfoSrc → HeapBlockManager → List (ℕ × HeapBlock)
get_heap_blocks src m = if is_dfx src then m.heap_blocks_for_dfx else m.heap_blocks

-- A write through the reference that `GetHeapBlocks` hands out.
unfoldable pub set_heap_blocks :
    MemInfoSrc → List (ℕ × HeapBlock) → HeapBlockManager → HeapBlockManager
set_heap_blocks src bs m =
    if is_dfx src then record m { heap_blocks_for_dfx = bs } else record m { heap_blocks = bs }

-- A block is entered unless one stands at its address.
unfoldable pub enter : MemOpRecord → List (ℕ × HeapBlock) → List (ℕ × HeapBlock)
unfolding put
enter r bs = elim (lookup r.dst_addr bs) [ none ↦ put r.dst_addr (heap_block r) bs | some b ↦ bs ]

-- `AddRtDfxBlock`
unfoldable pub add_rt_dfx_block : MemOpRecord → HeapBlockManager → HeapBlockManager × Bool
unfolding enter get_heap_blocks set_heap_blocks
add_rt_dfx_block r m = (set_heap_blocks r.info_src (enter r (get_heap_blocks r.info_src m)) m, true)

-- `AddByPassBlock`
unfoldable pub add_bypass_block : MemOpRecord → HeapBlockManager → HeapBlockManager × Bool
unfolding enter
add_bypass_block r m = (
  record m {
    heap_blocks = enter r m.heap_blocks;
    heap_blocks_for_dfx = enter r m.heap_blocks_for_dfx;
  },
  true,
)

-- The loop of `AddMstxHeapBlock`: some allocated block contains the new one.
unfoldable pub in_some_block : HeapBlock → List (ℕ × HeapBlock) → Bool
unfolding is_addr_in_range
in_some_block b [] = false
in_some_block b ((k, bk) ∷ bs) = is_addr_in_range b bk.addr bk.len || in_some_block b bs

-- `AddMstxHeapBlock`
unfoldable pub add_mstx_heap_block : MemOpRecord → HeapBlockManager → HeapBlockManager × Bool
unfolding in_some_block put
add_mstx_heap_block r m = elim (lookup r.dst_addr m.mstx_heap_blocks) [
  | some b ↦ (m, false)
  | none ↦
      let inside = in_some_block (heap_block r) m.heap_blocks in
      (
        record m {
          mstx_heap_blocks =
              put r.dst_addr (record (heap_block r) { is_invalid = not inside }) m.mstx_heap_blocks;
        },
        inside,
      )
]

-- `mstxRegionBlocks_[rootAddr].push_back(block)`
unfoldable pub push_region : MemOpRecord → HeapBlockManager → HeapBlockManager
unfolding put
push_region r m = record m {
  mstx_region_blocks =
      put r.root_addr (queue_of (lookup r.root_addr m.mstx_region_blocks) ++ heap_block r ∷ [])
        m.mstx_region_blocks;
}

-- `AddMstxRegionBlock`
unfoldable pub add_mstx_region_block : MemOpRecord → HeapBlockManager → HeapBlockManager × Bool
unfolding push_region
add_mstx_region_block r m = elim (lookup r.root_addr m.mstx_heap_blocks) [
  | none ↦ if r.root_addr == 0 then (push_region r m, true) else (m, false)
  | some b ↦ (push_region r m, r.root_addr == 0 || not b.is_invalid)
]

unfoldable pub add_by_type : HeapType → MemOpRecord → HeapBlockManager → HeapBlockManager × Bool
unfolding add_rt_dfx_block add_bypass_block add_mstx_heap_block add_mstx_region_block
add_by_type heap_rt r m = add_rt_dfx_block r m
add_by_type heap_dfx r m = add_rt_dfx_block r m
add_by_type heap_bypass r m = add_bypass_block r m
add_by_type heap_mstx r m = add_mstx_heap_block r m
add_by_type heap_mstx_region r m = add_mstx_region_block r m

-- `AddHeapBlock`
unfoldable pub add_heap_block : MemOpRecord → HeapBlockManager → HeapBlockManager × Bool
unfolding add_by_type heap_type
add_heap_block r m = add_by_type (heap_type r.info_src) r m
