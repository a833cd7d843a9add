-- ===== src/Checker/Overlap.antt =====
-- csrc/race_sanitizer/alg_framework/mem_event_checker.cpp: the three functions `IsMemoryOverlap`, for
-- strided accesses, for lists of shadow memory records, and for one of each.
use ascend_mssanitizer.Base.{
  ◌&&◌, ltb, if◌then◌else◌, List, Bool, length, ◌∷◌, ◌++◌, ◌+◌, ◌*◌, zero, Option, true, none, ◌==◌,
  some, not, ℕ, suc, [], false,
}
use ascend_mssanitizer.Checker.Series.{
  MemSeries, blocks_left, next_itv, mem_series, itv_before, Interval,
}
use ascend_mssanitizer.Event.{
  DynamicOpInfo, MemType, is_read, ShadowMemoryRecord, MemOpInfo, AccessType, mem_type_index,
}
use ascend_mssanitizer.Base.Sort.{sort_by}
use ascend_mssanitizer.Base.Words.{u64}

abbrev pub same_mem_type : MemType → MemType → Bool
same_mem_type a b = mem_type_index a == mem_type_index b

abbrev pub meets : Interval → Interval → Bool
meets a b = ltb a.start b.end && ltb b.start a.end

-- The loop over two strided accesses. A round takes an interval off one of them; when it runs out of
-- rounds the result is that of a series that ran out.
unfoldable pub walk_series : ℕ → Interval → MemSeries → Interval → MemSeries → Bool
unfolding next_itv
walk_series zero a rest1 b rest2 = false
walk_series (suc n) a rest1 b rest2 = elim (meets a b) [
  | true ↦ true
  | false ↦ elim (ltb a.end b.end) [
    | true ↦ elim (next_itv rest1) [ none ↦ false | some t ↦ walk_series n t.0 t.1 b rest2 ]
    | false ↦ elim (next_itv rest2) [ none ↦ false | some t ↦ walk_series n a rest1 t.0 t.1 ]
  ]
]

-- `IsMemoryOverlap(const MemOpInfo &, const MemOpInfo &)`
unfoldable pub is_memory_overlap : MemOpInfo → MemOpInfo → Bool
unfolding mem_series next_itv walk_series blocks_left
is_memory_overlap op1 op2 =
    let s1 = mem_series op1 in
    let s2 = mem_series op2 in
    if not (same_mem_type op1.mem_type op2.mem_type) then false else elim (next_itv s1) [
      | none ↦ false
      | some t ↦ elim (next_itv s2) [
        | none ↦ false
        | some u ↦ walk_series (suc (blocks_left s1 + blocks_left s2)) t.0 t.1 u.0 u.1
      ]
    ]

pub record CompareShadowMemoryRecord : Type 0 where
  pub sm_record : ShadowMemoryRecord
  pub idx : ℕ

-- `CompareSmRecord`
unfoldable pub compare_sm_record : CompareShadowMemoryRecord → CompareShadowMemoryRecord → Bool
compare_sm_record l r =
    if l.sm_record.addr == r.sm_record.addr
    then (if l.sm_record.size == r.sm_record.size
        then ltb l.idx r.idx
        else ltb l.sm_record.size r.sm_record.size)
    else ltb l.sm_record.addr r.sm_record.addr

unfoldable pub number_from : ℕ → List ShadowMemoryRecord → List CompareShadowMemoryRecord
number_from i [] = []
number_from i (r ∷ rs) = record { sm_record = r; idx = i } ∷ number_from (suc i) rs

-- `TransToRecords`
unfoldable pub trans_to_records : List ShadowMemoryRecord → List CompareShadowMemoryRecord
unfolding number_from compare_sm_record sort_by
trans_to_records rs = sort_by compare_sm_record (number_from 0 rs)

-- `EventIdxInfo`
pub record EventIdxInfo : Type 0 where
  pub event_idx : ℕ
  pub dynamic_error_idx : ℕ

abbrev pub sm_itv : ShadowMemoryRecord → Interval
sm_itv r = record { start = r.addr; end = u64 (r.addr + r.size) }

abbrev pub both_read : AccessType → AccessType → Bool
both_read a b = is_read a && is_read b

-- What an overlap function leaves: its result and the two indices.
abbrev pub Found : Type 0
Found = Bool × EventIdxInfo × EventIdxInfo

-- The loop over two lists of records: `race` is `existRace`. A round takes a record off a list.
unfoldable pub walk_records :
    ℕ → List CompareShadowMemoryRecord → List CompareShadowMemoryRecord → Found → Found
walk_records zero rs1 rs2 f = f
walk_records (suc n) [] rs2 f = f
walk_records (suc n) (a ∷ rs1) [] f = f
walk_records (suc n) (a ∷ rs1) (b ∷ rs2) (race, i1, i2) =
    let ia = sm_itv a.sm_record in
    let ib = sm_itv b.sm_record in
    let hit = meets ia ib && not (both_read a.sm_record.access_type b.sm_record.access_type) in
    let found : Found =
      if hit
      then (true, record i1 { dynamic_error_idx = a.idx }, record i2 { dynamic_error_idx = b.idx })
      else (race, i1, i2) in
    elim (hit && not (a.sm_record.pc == b.sm_record.pc)) [
      | true ↦ found
      | false ↦ elim (ltb ia.end ib.end) [
        | true ↦ walk_records n rs1 (b ∷ rs2) found
        | false ↦ elim (ia.end == ib.end) [
          | true ↦ walk_records n rs1 rs2 found
          | false ↦ walk_records n (a ∷ rs1) rs2 found
        ]
      ]
    ]

-- `IsMemoryOverlap(const DynamicOpInfo &, const DynamicOpInfo &, …)`
unfoldable pub is_dynamic_overlap :
    DynamicOpInfo → DynamicOpInfo → EventIdxInfo → EventIdxInfo → Found
unfolding trans_to_records walk_records
is_dynamic_overlap op1 op2 i1 i2 =
    if op1.is_shadow_memory && op2.is_shadow_memory
    then walk_records (length op1.buffer + length op2.buffer) (trans_to_records op1.buffer)
        (trans_to_records op2.buffer) (false, i1, i2)
    else (false, i1, i2)

unfoldable pub split_repeat : MemOpInfo → ℕ → ℕ → ℕ → List Interval
split_repeat m base i zero = []
split_repeat m base i (suc n) =
    let start = u64 (base + i * m.block_stride * m.block_size) in
    record { start = start; end = u64 (start + m.block_size) } ∷ split_repeat m base (suc i) n

unfoldable pub split_from : MemOpInfo → ℕ → ℕ → List Interval
unfolding split_repeat
split_from m i zero = []
split_from m i (suc n) =
    split_repeat m (u64 (m.addr + i * m.repeat_stride * m.block_size)) 0 m.block_num
    ++ split_from m (suc i) n

-- `SplitMem`, and the sort of its result.
unfoldable pub split_mem : MemOpInfo → List Interval
unfolding split_from sort_by
split_mem m = sort_by itv_before (split_from m 0 m.repeat_times)

-- The loop over the blocks of a strided access and a list of records: the index of the record met.
unfoldable pub walk_mixed :
    ℕ → AccessType → List Interval → List CompareShadowMemoryRecord → Option ℕ
walk_mixed zero op rs1 rs2 = none
walk_mixed (suc n) op [] rs2 = none
walk_mixed (suc n) op (a ∷ rs1) [] = none
walk_mixed (suc n) op (a ∷ rs1) (b ∷ rs2) =
    let ib = sm_itv b.sm_record in
    elim (meets a ib && not (both_read b.sm_record.access_type op)) [
      | true ↦ some b.idx
      | false ↦ elim (ltb a.end ib.end) [
        | true ↦ walk_mixed n op rs1 (b ∷ rs2)
        | false ↦ elim (a.end == ib.end) [
          | true ↦ walk_mixed n op rs1 rs2
          | false ↦ walk_mixed n op (a ∷ rs1) rs2
        ]
      ]
    ]

-- `IsMemoryOverlap(const MemOpInfo &, const DynamicOpInfo &, …)`
unfoldable pub is_mixed_overlap : MemOpInfo → DynamicOpInfo → EventIdxInfo → Bool × EventIdxInfo
unfolding split_mem trans_to_records walk_mixed
is_mixed_overlap op1 op2 i2 =
    let blocks = split_mem op1 in
    let found =
      walk_mixed (length blocks + length op2.buffer) op1.op_type blocks
        (trans_to_records op2.buffer) in
    if op2.is_shadow_memory
    then elim found [ none ↦ (false, i2) | some i ↦ (true, record i2 { dynamic_error_idx = i }) ]
    else (false, i2)
