-- ===== src/Asan/Convert.antt =====
-- The conversion of a strided access to records of plain ranges in
-- csrc/address_sanitizer/address_sanitizer.cpp. The fields of the access are uint32_t, so that a product of
-- two of them wraps at 2 ^ 32, and one with an index or an address at 2 ^ 64.
pub mod Strided
pub mod Missed
use ascend_mssanitizer.Base.{
  if◌then◌else◌, min, [], max, ◌&&◌, ◌*◌, ◌^◌, ◌+◌, false, true, List, Bool, ◌++◌, ◌==◌, zero, ℕ,
  ◌-◌, ◌∷◌, leb, suc,
}
use ascend_mssanitizer.Base.Words.{u32, u64}
use ascend_mssanitizer.Asan.Record.{MemOpRecord, op_memcpy_blocks, MemOpType}
use ascend_mssanitizer.Event.{MemOpInfo}

abbrev pub is_memcpy : MemOpType → Bool
is_memcpy op_memcpy_blocks = true
is_memcpy _ = false

-- `ProcessAndStoreMemOp` on the record with an address and a size.
unfoldable pub stored : MemOpRecord → ℕ → ℕ → MemOpRecord
stored r addr size = record r {
  dst_addr = addr;
  mem_size = size;
  src_addr = if is_memcpy r.op_type then addr else r.src_addr;
}

-- A loop that stores a record of one size at `n` addresses, `step` apart, from index `i` on.
unfoldable pub store_each : ℕ → ℕ → MemOpRecord → ℕ → ℕ → ℕ → List MemOpRecord
unfolding stored
store_each zero i r addr step size = []
store_each (suc n) i r addr step size =
    stored r (u64 (addr + u64 (i * step))) size ∷ store_each n (i + 1) r addr step size

-- The bytes of one repeat that follow one another without a gap.
abbrev pub repeat_size : MemOpInfo → ℕ
repeat_size m = if m.block_stride == 1 then u32 (m.block_size * m.block_num) else m.block_size

-- `ConvertSingleRecordRepeats`
unfoldable pub convert_single_record_repeats : MemOpInfo → MemOpRecord → List MemOpRecord
unfolding store_each stored
convert_single_record_repeats m r =
    let stride = u32 (m.repeat_stride * m.block_size) in
    if m.repeat_stride == 0
    then stored r m.addr (repeat_size m) ∷ []
    else if leb stride (repeat_size m)
    then stored r m.addr (u64 (u64 (stride * (m.repeat_times - 1)) + repeat_size m)) ∷ []
    else store_each (min m.repeat_times 0x7FFF) 0 r m.addr stride (repeat_size m)

-- The loop over the repeats of the last branch of `ConvertMutiRecordRepeats`.
unfoldable pub store_repeats : ℕ → ℕ → MemOpInfo → MemOpRecord → List MemOpRecord
unfolding store_each
store_repeats zero i m r = []
store_repeats (suc n) i m r =
    store_each m.block_num 0 r (u64 (m.addr + u64 (u64 (i * m.block_size) * m.repeat_stride)))
      (m.block_stride * m.block_size) m.block_size
    ++ store_repeats n (i + 1) m r

-- `ConvertMutiRecordRepeats`
unfoldable pub convert_muti_record_repeats : MemOpInfo → MemOpRecord → List MemOpRecord
unfolding store_each store_repeats stored
convert_muti_record_repeats m r =
    if m.repeat_stride == 0
    then store_each m.block_num 0 r m.addr 0 m.block_size
    else if m.repeat_stride == 1 && leb m.block_stride m.repeat_times
    then stored r m.addr (u32 (u32 (m.block_num + (2 ^ 32 - 1) + m.repeat_times) * m.block_size))
      ∷ []
    else if m.repeat_stride == 1
    then store_each m.block_num 0 r m.addr (m.block_size * m.block_stride)
        (u32 (m.repeat_times * m.block_size))
    else if m.repeat_stride == m.block_stride
    then store_each (max m.block_num m.repeat_times) 0 r m.addr (m.block_size * m.block_stride)
        m.block_size
    else store_repeats (min m.repeat_times 0x7FFF) 0 m r

-- `ConvertMemEvent` on an access, with the record that `SetBasicMemInfo` fills in.
unfoldable pub convert_mem_event : MemOpInfo → MemOpRecord → List MemOpRecord
unfolding convert_single_record_repeats convert_muti_record_repeats
convert_mem_event m r =
    if m.repeat_times == 0
    then []
    else if leb m.block_stride 1
    then convert_single_record_repeats m r
    else convert_muti_record_repeats m r
