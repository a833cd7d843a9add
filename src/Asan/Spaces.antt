-- ===== src/Asan/Spaces.antt =====
-- `UnionBounds` and `BoundsCheck` of csrc/address_sanitizer/bounds_check.cpp: the bounds of each address
-- space, allocated ranges for some and one fixed range for others.
use ascend_mssanitizer.Base.{
  ℕ, some, Bool, ◌-◌, [], if◌then◌else◌, ◌||◌, Option, ◌+◌, none, leb, ◌==◌, ltb, List,
}
use ascend_mssanitizer.Base.Words.{u64}
use ascend_mssanitizer.Event.{
  space_private, space_bt, space_l1, space_invalid, space_fb, AddressSpace, space_l0a, space_l0c,
  space_l0b, space_ub, space_gm,
}
use ascend_mssanitizer.Asan.Bounds.{remove, add, check, overlap_size, Range}
use ascend_mssanitizer.Asan.Msg.{bad_range, no_error, ErrorMsg}

-- `ChipInfo` of csrc/core/framework/platform_config.h
pub record ChipInfo : Type 0 where
  pub ai_core_cnt : ℕ
  pub l0a_size : ℕ
  pub l0b_size : ℕ
  pub l0c_size : ℕ
  pub l1_size : ℕ
  pub ub_size : ℕ
  pub ub_block_size : ℕ
  pub private_size : ℕ
  pub hbm_size : ℕ

-- `UnionBounds::UnionBounds`
abbrev pub union_range : ℕ → ℕ → Range
union_range addr size = record { addr_l = addr; addr_r = u64 (addr + size) }

-- `UnionBounds::CheckAddrOnly`
unfoldable pub check_union_addr : ℕ → Range → ErrorMsg
check_union_addr addr r =
    if ltb addr r.addr_l || leb r.addr_r addr then bad_range addr 1 else no_error

-- `UnionBounds::Check`
unfoldable pub check_union : ℕ → ℕ → Range → ErrorMsg
unfolding check_union_addr
check_union addr size r =
    let overlap = overlap_size r (record { addr_l = addr; addr_r = u64 (addr + size) }) in
    if size == 0
    then check_union_addr addr r
    else if ltb overlap size
    then bad_range addr (size - overlap)
    else no_error

-- `std::unique_ptr<Bounds>`
pub data Bounds : Type 0 where
  discrete_bounds : List Range → Bounds
  union_bounds : Range → Bounds

-- `bounds_`; a space without an entry answers `none`.
pub record BoundsCheck : Type 0 where
  pub local_memory_need_alloc : Bool
  pub bounds : AddressSpace → Option Bounds

abbrev pub space_index : AddressSpace → ℕ
space_index space_private = 0
space_index space_gm = 1
space_index space_l1 = 2
space_index space_l0a = 3
space_index space_l0b = 4
space_index space_l0c = 5
space_index space_ub = 6
space_index space_bt = 7
space_index space_fb = 8
space_index space_invalid = 9

abbrev pub put_bounds : AddressSpace → Bounds → BoundsCheck → BoundsCheck
put_bounds space b c = record c {
  bounds = λ s. if space_index space == space_index s then some b else c.bounds s;
}

-- The constructor.
unfoldable pub bounds_check : Bool → BoundsCheck
bounds_check need_alloc =
    let gm_only : BoundsCheck =
      put_bounds space_gm (discrete_bounds [])
        (record { local_memory_need_alloc = need_alloc; bounds = λ s. none }) in
    if need_alloc
    then put_bounds space_ub (discrete_bounds []) (
        put_bounds space_l0c (discrete_bounds []) (
          put_bounds space_l0b (discrete_bounds []) (
            put_bounds space_l0a (discrete_bounds [])
              (put_bounds space_l1 (discrete_bounds []) gm_only))))
    else gm_only

-- `BoundsCheck::Init`
unfoldable pub init_bounds : ChipInfo → BoundsCheck → BoundsCheck
init_bounds chip c =
    let with_local =
      if c.local_memory_need_alloc
      then c
      else put_bounds space_ub (union_bounds (union_range 0 chip.ub_size)) (
          put_bounds space_l0c (union_bounds (union_range 0 chip.l0c_size)) (
            put_bounds space_l0b (union_bounds (union_range 0 chip.l0b_size)) (
              put_bounds space_l0a (union_bounds (union_range 0 chip.l0a_size))
                (put_bounds space_l1 (union_bounds (union_range 0 chip.l1_size)) c)))) in
    put_bounds space_private (union_bounds (union_range 0 chip.private_size)) with_local

-- `Add` of either kind of bounds.
unfoldable pub add_to : ℕ → ℕ → Bounds → Bounds × ErrorMsg
unfolding add
add_to addr size (discrete_bounds rs) = (discrete_bounds (add addr size rs).0, (add addr size rs).1)
add_to addr size (union_bounds r) = (union_bounds r, no_error)

unfoldable pub remove_from : ℕ → ℕ → Bounds → Bounds × ErrorMsg
unfolding remove
remove_from addr size (discrete_bounds rs) =
    (discrete_bounds (remove addr size rs).0, (remove addr size rs).1)
remove_from addr size (union_bounds r) = (union_bounds r, no_error)

unfoldable pub check_in : ℕ → ℕ → Bounds → ErrorMsg
unfolding check check_union
check_in addr size (discrete_bounds rs) = check addr size rs
check_in addr size (union_bounds r) = check_union addr size r

-- `BoundsCheck::Add`
unfoldable pub add_bounds : AddressSpace → ℕ → ℕ → BoundsCheck → BoundsCheck × ErrorMsg
unfolding add_to
add_bounds space addr size c = elim (c.bounds space) [
  | none ↦ (c, no_error)
  | some b ↦ (put_bounds space (add_to addr size b).0 c, (add_to addr size b).1)
]

-- `BoundsCheck::Remove`
unfoldable pub remove_bounds : AddressSpace → ℕ → ℕ → BoundsCheck → BoundsCheck × ErrorMsg
unfolding remove_from
remove_bounds space addr size c = elim (c.bounds space) [
  | none ↦ (c, no_error)
  | some b ↦ (put_bounds space (remove_from addr size b).0 c, (remove_from addr size b).1)
]

-- `BoundsCheck::Check`
unfoldable pub check_bounds : AddressSpace → ℕ → ℕ → BoundsCheck → ErrorMsg
unfolding check_in
check_bounds space addr size c = elim (c.bounds space) [
  | none ↦ no_error
  | some b ↦ check_in addr size b
]
