-- ===== src/Checker/Scanline.antt =====
-- csrc/race_sanitizer/alg_framework/mem_event_checker.cpp: `ScanlineAlgorithm`, which meets the starts
-- and ends of the accesses in the order of their addresses.
use ascend_mssanitizer.Event.{
  write, MaskMode, mask_count, MemType, AccessType, mask_norm, MemEvent, is_write,
}
use ascend_mssanitizer.Base.{
  if◌then◌else◌, zero, ◌==◌, ◌+◌, Option, some, List, none, false, true, ltb, ◌*◌, ◌∷◌, ◌&&◌, Bool,
  suc, ◌-◌, [], ◌^◌, ℕ, not, ◌||◌, ◌++◌,
}
use ascend_mssanitizer.Checker.Overlap.{same_mem_type, EventIdxInfo, Found}
use ascend_mssanitizer.Checker.State.{MemEventChecker}
use ascend_mssanitizer.Base.Words.{u64, u32}
use ascend_mssanitizer.Checker.Pairs.{KernelNames, check_pair, no_race}
use ascend_mssanitizer.Base.Sort.{sort_by}

abbrev pub is_mask_count : MaskMode → Bool
is_mask_count mask_count = true
is_mask_count mask_norm = false

-- `GetMemMaxLength`
unfoldable pub mem_max_length : MemEvent → ℕ
mem_max_length e =
    let op = e.mem_info in
    let d = e.dynamic_mem_info in
    if e.is_dynamic
    then u64 (d.max_addr + (2 ^ 64 - d.min_addr))
    else if is_mask_count op.mask_mode && ((op.mask0 == 0) || (op.data_bits == 0))
    then 0
    else if (op.repeat_times == 0) || ((op.block_num == 0) || (op.block_size == 0))
    then 0
    else u32 (
        (op.repeat_times - 1) * op.repeat_stride * op.block_size
        + (op.block_num - 1) * op.block_stride * op.block_size
        + op.block_size)

pub record SortMetaData : Type 0 where
  pub addr : ℕ
  pub event_idx : ℕ
  pub is_start : Bool

abbrev pub same_bool : Bool → Bool → Bool
same_bool true b = b
same_bool false b = not b

-- `CompareEvent`
unfoldable pub compare_event : SortMetaData → SortMetaData → Bool
compare_event l r =
    if l.addr == r.addr
    then (if same_bool l.is_start r.is_start then ltb l.event_idx r.event_idx else not l.is_start)
    else ltb l.addr r.addr

abbrev pub start_addr : MemEvent → ℕ
start_addr e = if e.is_dynamic then e.dynamic_mem_info.min_addr else e.mem_info.addr

unfoldable pub end_addr : MemEvent → ℕ
unfolding mem_max_length
end_addr e =
    if e.is_dynamic then e.dynamic_mem_info.max_addr else u64 (e.mem_info.addr + mem_max_length e)

-- Step 1: each access with bytes gives its start and its end.
unfoldable pub events_meta_data : ℕ → List MemEvent → List SortMetaData
unfolding mem_max_length
events_meta_data i [] = []
events_meta_data i (e ∷ es) =
    let rest = events_meta_data (suc i) es in
    if mem_max_length e == 0
    then rest
    else record { addr = start_addr e; event_idx = i; is_start = true }
      ∷ record { addr = end_addr e; event_idx = i; is_start = false }
      ∷ rest

-- A map from memory types to sets of events, as the list of its pairs.
abbrev pub History : Type 0
History = List (MemType × ℕ)

-- The two history maps and the pairs found.
pub record Scan : Type 0 where
  pub writes : History
  pub reads : History
  pub found : List (EventIdxInfo × EventIdxInfo)

abbrev pub is_entry : MemType → ℕ → MemType × ℕ → Bool
is_entry t i x = same_mem_type x.0 t && (x.1 == i)

abbrev pub has_entry : MemType → ℕ → History → Bool
has_entry t i [] = false
has_entry t i (x ∷ h) = is_entry t i x || has_entry t i h

abbrev pub add_entry : MemType → ℕ → History → History
add_entry t i h = if has_entry t i h then h else (t, i) ∷ h

abbrev pub drop_entry : MemType → ℕ → History → History
drop_entry t i [] = []
drop_entry t i (x ∷ h) = let rest = drop_entry t i h in if is_entry t i x then rest else x ∷ rest

-- A dynamic access counts as a write.
abbrev pub acts_as : MemEvent → AccessType
acts_as e = if e.is_dynamic then write else e.mem_info.op_type

abbrev pub lies_in : MemEvent → MemType
lies_in e = if e.is_dynamic then e.dynamic_mem_info.mem_type else e.mem_info.mem_type

abbrev pub nth_event : List MemEvent → ℕ → Option MemEvent
nth_event [] i = none
nth_event (e ∷ es) zero = some e
nth_event (e ∷ es) (suc i) = nth_event es i

abbrev pub event_at : MemEventChecker → ℕ → Option MemEvent
event_at m i = nth_event m.events i

abbrev pub check_found :
    KernelNames
    → MemEventChecker
    → EventIdxInfo
    → EventIdxInfo
    → Option MemEvent
    → Option MemEvent
    → Found
check_found names m i1 i2 (some e1) (some e2) = check_pair m.check_type names m e1 e2 i1 i2
check_found names m i1 i2 _ _ = no_race i1 i2

-- The check of the pair of events that two indices stand for. `at` throws on an index past the end,
-- which no index of the metadata is.
abbrev pub check_at : KernelNames → MemEventChecker → EventIdxInfo → EventIdxInfo → Found
check_at names m i1 i2 =
    check_found names m i1 i2 (event_at m i1.event_idx) (event_at m i2.event_idx)

-- `CheckExistRaceEvents` over the events of a memory type. The two indices keep what an earlier pair
-- left in them.
unfoldable pub check_exist :
    KernelNames
    → MemEventChecker
    → MemType
    → History
    → EventIdxInfo
    → EventIdxInfo
    → List (EventIdxInfo × EventIdxInfo)
check_exist names m t [] i1 i2 = []
check_exist names m t (x ∷ h) i1 i2 = elim (same_mem_type x.0 t) [
  | false ↦ check_exist names m t h i1 i2
  | true ↦
      let (hit, j1, j2) = check_at names m i1 (record i2 { event_idx = x.1 }) in
      let rest = check_exist names m t h j1 j2 in if hit then (j1, j2) ∷ rest else rest
]

abbrev pub first_idx : ℕ → EventIdxInfo
first_idx i = record { event_idx = i; dynamic_error_idx = 0 }

-- The loop's body on a start and on an end.
unfoldable pub scan_start : KernelNames → MemEventChecker → ℕ → MemEvent → Scan → Scan
unfolding check_exist
scan_start names m i e s =
    let t = lies_in e in
    let with_writes = s.found ++ check_exist names m t s.writes (first_idx i) (first_idx 0) in
    if is_write (acts_as e)
    then record s {
      found = with_writes ++ check_exist names m t s.reads (first_idx i) (first_idx 0);
      writes = add_entry t i s.writes;
    }
    else record s { found = with_writes; reads = add_entry t i s.reads }

unfoldable pub scan_end : ℕ → MemEvent → Scan → Scan
scan_end i e s = record s {
  writes = drop_entry (lies_in e) i s.writes;
  reads = drop_entry (lies_in e) i s.reads;
}

unfoldable pub scan_event :
    KernelNames → MemEventChecker → SortMetaData → Option MemEvent → Scan → Scan
unfolding scan_start scan_end
scan_event names m d none s = s
scan_event names m d (some e) s =
    if d.is_start then scan_start names m d.event_idx e s else scan_end d.event_idx e s

unfoldable pub scan_all : KernelNames → MemEventChecker → List SortMetaData → Scan → Scan
scan_all names m [] s = s
scan_all names m (d ∷ ds) s = scan_all names m ds (scan_event names m d (event_at m d.event_idx) s)

-- `ScanlineAlgorithm`
unfoldable pub scanline : KernelNames → MemEventChecker → List (EventIdxInfo × EventIdxInfo)
unfolding scan_all events_meta_data compare_event sort_by
scanline names m =
    (scan_all names m (sort_by compare_event (events_meta_data 0 m.events))
      (record { writes = []; reads = []; found = [] })).found
