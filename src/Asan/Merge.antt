-- ===== src/Asan/Merge.antt =====
-- The merging of records of adjacent ranges in csrc/address_sanitizer/address_sanitizer.cpp. The index that
-- the source moves through the vector is the record in hand, with the merged ones before it.
pub mod Held
use ascend_mssanitizer.Asan.Record.{
  op_free, op_store, op_memcpy_blocks, op_malloc, op_load, MemOpType, MemOpRecord, op_invalid,
}
use ascend_mssanitizer.Base.{Bool, if◌then◌else◌, List, not, ◌||◌, [], ◌==◌, ◌+◌, ◌&&◌, ◌∷◌, ℕ}
use ascend_mssanitizer.Asan.Spaces.{space_index}
use ascend_mssanitizer.Asan.Convert.{is_memcpy}
use ascend_mssanitizer.Base.Words.{u64}
use ascend_mssanitizer.RaceAlg.State.{join}

-- The place of an enumerator in `MemOpType`.
abbrev pub op_index : MemOpType → ℕ
op_index op_malloc = 0
op_index op_free = 1
op_index op_memcpy_blocks = 2
op_index op_load = 3
op_index op_store = 4
op_index op_invalid = 5

-- `IsContinuousAddr`
abbrev pub is_continuous_addr : MemOpRecord → MemOpRecord → Bool
is_continuous_addr l r =
    (u64 (l.dst_addr + l.mem_size) == r.dst_addr)
    && (not (is_memcpy l.op_type) || (u64 (l.src_addr + l.mem_size) == r.src_addr))

-- `IsSameOp`
abbrev pub is_same_op : MemOpRecord → MemOpRecord → Bool
is_same_op l r =
    (op_index l.op_type == op_index r.op_type)
    && (space_index l.dst_space == space_index r.dst_space)
    && (not (is_memcpy l.op_type) || (space_index l.src_space == space_index r.src_space))

abbrev pub joined : MemOpRecord → MemOpRecord → MemOpRecord
joined l r = record l { mem_size = u64 (l.mem_size + r.mem_size) }

-- The loop of `MergeRecords` with the record at `last`.
unfoldable pub merge_from : MemOpRecord → List MemOpRecord → List MemOpRecord
merge_from l [] = l ∷ []
merge_from l (r ∷ rs) =
    let join = is_same_op l r && is_continuous_addr l r in
    let rest = merge_from (if join then joined l r else r) rs in if join then rest else l ∷ rest

-- `MergeRecords`, which `Do` calls on a vector that is not empty.
unfoldable pub merge_records : List MemOpRecord → List MemOpRecord
unfolding merge_from
merge_records [] = []
merge_records (r ∷ rs) = merge_from r rs
