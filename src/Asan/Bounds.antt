-- ===== src/Asan/Bounds.antt =====
-- csrc/address_sanitizer/bounds_check.cpp: the allocated memory as a sorted sequence of ranges. An
-- iterator into the vector is a pair of the ranges before it, the nearest first, and those from it on.
pub mod Cover
pub mod Add
pub mod Remove
pub mod Refines
pub mod Check
use ascend_mssanitizer.Base.{
  ℕ, ◌+◌, ◌-◌, ◌%◌, ◌^◌, Bool, true, false, ◌&&◌, ◌||◌, not, List, [], ◌∷◌, ltb, leb, ◌==◌,
  if◌then◌else◌, max, min,
}
use ascend_mssanitizer.Event.{space_gm}
use ascend_mssanitizer.Asan.Msg.{
  ErrorMsg, no_error, set_type, set_bad_bytes, bad_range, illegal_addr_write,
}
use ascend_mssanitizer.Base.Words.{u64}

-- `Bounds::Range`
pub record Range : Type 0 where
  pub addr_l : ℕ
  pub addr_r : ℕ

-- `globalMemMask`
abbrev pub global_mem_mask : ℕ
global_mem_mask = 0xFFFFFFFFFFFF

-- `OverlapSize`
abbrev pub overlap_size : Range → Range → ℕ
overlap_size a b =
    let l = max a.addr_l b.addr_l in let r = min a.addr_r b.addr_r in if ltb l r then r - l else 0

-- `std::upper_bound` with a predicate that holds from some place on: the first such place.
unfoldable pub upper_bound : (Range → Bool) → List Range → List Range → List Range × List Range
upper_bound pred before [] = (before, [])
upper_bound pred before (r ∷ rs) =
    let next = upper_bound pred (r ∷ before) rs in if pred r then (before, r ∷ rs) else next

-- The vector around an iterator.
unfoldable pub around : List Range → List Range → List Range
around [] rs = rs
around (b ∷ before) rs = around before (b ∷ rs)

-- The loop of `Add` over the ranges on the right: those that meet the new range are merged into it.
unfoldable pub absorb : Range → List Range → List Range
absorb it [] = it ∷ []
absorb it (next ∷ rest) =
    let merged = absorb (record { addr_l = it.addr_l; addr_r = max it.addr_r next.addr_r }) rest in
    if ltb it.addr_r next.addr_l then it ∷ next ∷ rest else merged

-- The loop of `Remove`: ranges below the right border go, the one across it is cut.
unfoldable pub trim : ℕ → List Range → List Range
trim right [] = []
trim right (next ∷ rest) =
    let later = trim right rest in
    if leb right next.addr_l
    then next ∷ rest
    else if ltb right next.addr_r
    then record { addr_l = right; addr_r = next.addr_r } ∷ rest
    else later

-- The number of bytes of a range that lie above the 48 modelled bits.
unfoldable pub overflow_bytes : ℕ → ℕ → ℕ
overflow_bytes addr size =
    if leb addr global_mem_mask && ltb (global_mem_mask - addr) size
    then size - (global_mem_mask - addr)
    else if ltb global_mem_mask addr
    then size
    else 0

-- `DiscreteBounds::CheckOverflow`, without `__LINE__` for the line number
unfoldable pub check_overflow : ℕ → ℕ → ErrorMsg
unfolding overflow_bytes
check_overflow addr size =
    if ltb 0 (overflow_bytes addr size)
    then set_bad_bytes (overflow_bytes addr size)
        (set_type illegal_addr_write space_gm addr no_error)
    else no_error

-- The choice between widening the range before the iterator and inserting a new one.
unfoldable pub add_at : ℕ → ℕ → List Range × List Range → List Range
unfolding absorb around
add_at addr right ([], rest) = around [] (absorb (record { addr_l = addr; addr_r = right }) rest)
add_at addr right (b ∷ before, rest) =
    if leb addr b.addr_r
    then around before (absorb (record { addr_l = b.addr_l; addr_r = max b.addr_r right }) rest)
    else around (b ∷ before) (absorb (record { addr_l = addr; addr_r = right }) rest)

-- `DiscreteBounds::Add`
unfoldable pub add : ℕ → ℕ → List Range → List Range × ErrorMsg
unfolding check_overflow upper_bound add_at
add addr size ranges =
    if (check_overflow addr size).is_error then (ranges, check_overflow addr size) else (
      add_at addr (u64 (addr + size)) (upper_bound (λ b. ltb addr b.addr_l) [] ranges),
      no_error,
    )

-- The range that the left border splits keeps its left half.
unfoldable pub remove_at : ℕ → ℕ → List Range × List Range → List Range
unfolding trim around
remove_at addr right (before, []) = around before []
remove_at addr right (before, r ∷ rest) =
    if ltb r.addr_l addr
    then around (record { addr_l = r.addr_l; addr_r = addr } ∷ before) (trim right (r ∷ rest))
    else around before (trim right (r ∷ rest))

-- `DiscreteBounds::Remove`
unfoldable pub remove : ℕ → ℕ → List Range → List Range × ErrorMsg
unfolding check_overflow upper_bound remove_at
remove addr size ranges =
    if (check_overflow addr size).is_error then (ranges, check_overflow addr size) else (
      remove_at addr (u64 (addr + size)) (upper_bound (λ b. ltb addr b.addr_r) [] ranges),
      no_error,
    )

-- The loop of `Check`: the bytes that the ranges leave uncovered.
unfoldable pub bad_bytes : Range → ℕ → List Range → ℕ
bad_bytes target bad [] = bad
bad_bytes target bad (r ∷ rs) =
    let later = bad_bytes target (u64 (bad + (2 ^ 64 - overlap_size target r))) rs in
    if leb target.addr_r r.addr_l then bad else later

-- `DiscreteBounds::CheckAddrOnly`
unfoldable pub check_addr_only : ℕ → List Range → ErrorMsg
check_addr_only addr [] = bad_range addr 1
check_addr_only addr (it ∷ rest) =
    if ltb addr it.addr_l || leb it.addr_r addr then bad_range addr 1 else no_error

-- `DiscreteBounds::Check`
unfoldable pub check : ℕ → ℕ → List Range → ErrorMsg
unfolding upper_bound bad_bytes check_addr_only
check addr size ranges =
    let it = (upper_bound (λ b. ltb addr b.addr_r) [] ranges).1 in
    let bad = bad_bytes (record { addr_l = addr; addr_r = u64 (addr + size) }) size it in
    if size == 0
    then check_addr_only addr it
    else if ltb 0 bad
    then bad_range addr bad
    else no_error
