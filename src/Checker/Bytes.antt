-- ===== src/Checker/Bytes.antt =====
-- The bytes of an access, as the instruction reads or writes them, and what the intervals of
-- csrc/race_sanitizer/alg_framework/mem_series.cpp have to do with them.
pub mod Strided
pub mod Blocks
pub mod Walks
pub mod Shared
pub mod Races
use ascend_mssanitizer.Base.{
  false, ◌+◌, leb, ◌&&◌, arith, ◌≡◌, ltb, ℕ, ◌||◌, Bool, ◌*◌, ◌∷◌, All, true, List, ◌^◌, ◌<◌, ◌≤◌,
  [], max,
}
use ascend_mssanitizer.Event.{ShadowMemoryRecord, MemEvent, MemOpInfo}
use ascend_mssanitizer.Checker.Series.{Interval}
use ascend_mssanitizer.Checker.Overlap.{meets}

-- The first byte of a block of a repeat.
abbrev pub block_start : MemOpInfo → ℕ → ℕ → ℕ
block_start m rep blk =
    m.addr + rep * (m.repeat_stride * m.block_size) + blk * (m.block_size * m.block_stride)

-- The byte lies in a block of a repeat of a strided access.
abbrev pub IsStridedByte : MemOpInfo → ℕ → Type 0
IsStridedByte m x =
    (rep : ℕ) × (blk : ℕ) × (rep < m.repeat_times)
    × (blk < m.block_num)
    × (block_start m rep blk ≤ x)
    × (x < block_start m rep blk + m.block_size)

-- The byte lies in the range of a shadow memory record.
unfoldable pub in_records : List ShadowMemoryRecord → ℕ → Bool
in_records [] x = false
in_records (r ∷ rs) x = (leb r.addr x && ltb x (r.addr + r.size)) || in_records rs x

abbrev pub ByteBy : Bool → MemEvent → ℕ → Type 0
ByteBy true e x = in_records e.dynamic_mem_info.buffer x ≡ true
ByteBy false e x = IsStridedByte e.mem_info x

-- The byte is one that the access touches.
abbrev pub IsByte : MemEvent → ℕ → Type 0
IsByte e x = ByteBy e.is_dynamic e x

-- A strided access that has blocks, which are not empty, and whose products and addresses do not wrap.
abbrev pub IsPlainOp : MemOpInfo → Type 0
IsPlainOp m =
    (0 < m.block_size)
    × (0 < m.block_num)
    × (m.repeat_stride * m.block_size < 2 ^ 32)
    × (m.addr
          + m.repeat_times * (m.repeat_stride * m.block_size)
          + m.block_num * (m.block_size * m.block_stride)
          + m.block_size
        < 2 ^ 64)

abbrev pub IsPlainRecord : ShadowMemoryRecord → Type 0
IsPlainRecord r = (0 < r.size) × (r.addr + r.size < 2 ^ 64)

abbrev pub PlainBy : Bool → MemEvent → Type 0
PlainBy true e = All IsPlainRecord e.dynamic_mem_info.buffer
PlainBy false e = IsPlainOp e.mem_info

-- The ranges of the access are not empty and do not wrap.
abbrev pub IsPlain : MemEvent → Type 0
IsPlain e = PlainBy e.is_dynamic e

-- Every number in the interval has the property.
abbrev pub Within : (ℕ → Type 0) → Interval → Type 0
Within P a = (x : ℕ) → a.start ≤ x → x < a.end → P x

-- The interval has a number, and each has the property.
abbrev pub Spans : (ℕ → Type 0) → Interval → Type 0
Spans P a = (a.start < a.end) × Within P a

pub common_byte :
    (P Q : ℕ → Type 0) (a b : Interval)
    → Spans P a
    → Spans Q b
    → meets a b ≡ true
    → (x : ℕ) × P x × Q x
common_byte P Q a b p q h =
    let parts : (a.start < b.end) × (b.start < a.end) = ground (arith, h) in
    (
      max a.start b.start,
      p.1 _ (omega arith) (omega (arith, p.0, parts.0, parts.1)),
      q.1 _ (omega arith) (omega (arith, q.0, parts.0, parts.1)),
    )
