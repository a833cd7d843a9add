-- ===== src/Asan/Pm.antt =====
-- `PM` of csrc/address_sanitizer/pm.cpp: the state of each byte of a memory, in blocks of 64 KB that keep
-- one common value until a part of them is set. A mask of k ones keeps the k low bits of an address.
pub mod Flat
pub mod Unified
use ascend_mssanitizer.Base.{
  ◌&&◌, ◌%◌, ◌*◌, some, ℕ, ◌/◌, suc, ◌-◌, min, max, zero, leb, Option, ◌==◌, ltb, ◌+◌, none,
  if◌then◌else◌,
}
use ascend_mssanitizer.Container.{init}
use ascend_mssanitizer.Base.Words.{u64}

-- `ONE_SM_STAND_FOR_BYTE`
abbrev pub sm_size : ℕ
sm_size = 65536

-- The number of addresses below `LOCAL_MEM_MASK`, and that value itself.
abbrev pub local_mem : ℕ
local_mem = 0x1000000000

-- `sm_list` holds the secondary map of a block that has one; `sm_num` is the number of blocks.
pub record Pm : Type 0 where
  pub sm_num : ℕ
  pub sm_list : ℕ → Option (ℕ → ℕ)
  pub common_bits_list : ℕ → ℕ

-- `PM::PM`
unfoldable pub new_pm : ℕ → ℕ → Pm
new_pm byte_num init = record {
  sm_num = (byte_num + sm_size - 1) / sm_size;
  sm_list = λ i. none;
  common_bits_list = λ i. init;
}

-- `PM::Reset`
unfoldable pub reset_pm : ℕ → Pm → Pm
reset_pm init pm = record pm { sm_list = λ i. none; common_bits_list = λ i. init }

-- `PM::GetBlockIdx`
abbrev pub block_idx : ℕ → ℕ
block_idx addr = addr % local_mem / sm_size

-- `PM::GetBlockOffset`
abbrev pub block_offset : ℕ → ℕ
block_offset addr = addr % local_mem % sm_size

-- `PM::GetBits`
unfoldable pub get_bits : Pm → ℕ → ℕ
get_bits pm addr = elim (pm.sm_list (block_idx addr)) [
  | none ↦ pm.common_bits_list (block_idx addr)
  | some sm ↦ sm (block_offset addr)
]

-- The block's secondary map, made from the common value where there is none.
abbrev pub sm_of : Option (ℕ → ℕ) → ℕ → ℕ → ℕ
sm_of none common o = common
sm_of (some sm) common o = sm o

-- One turn of the loop of `PM::Set`. The bytes that `memset_s` fills are those from the larger of the two
-- left borders to the smaller of the two right ones.
unfoldable pub set_block : ℕ → ℕ → ℕ → ℕ → Pm → Pm
set_block addr right bits i pm =
    let addr_l = sm_size * i in
    let addr_r = addr_l + sm_size in
    if leb addr addr_l && leb addr_r right
    then record pm {
      sm_list = λ j. if j == i then none else pm.sm_list j;
      common_bits_list = λ j. if j == i then bits else pm.common_bits_list j;
    }
    else record pm {
      sm_list = λ j.
          if j == i
          then some (λ o.
            if leb (max addr addr_l) (addr_l + o) && ltb (addr_l + o) (min right addr_r)
            then bits
            else sm_of (pm.sm_list i) (pm.common_bits_list i) o)
          else pm.sm_list j;
    }

-- The loop of `PM::Set` over `n` blocks; a block past the last one ends it.
unfoldable pub set_blocks : ℕ → ℕ → ℕ → ℕ → ℕ → Pm → Pm
unfolding set_block
set_blocks zero addr right bits i pm = pm
set_blocks (suc n) addr right bits i pm =
    let rest = set_blocks n addr right bits (i + 1) (set_block addr right bits i pm) in
    if leb pm.sm_num i then pm else rest

-- `PM::Set`
unfoldable pub set_bits : Pm → ℕ → ℕ → ℕ → Pm
unfolding set_blocks
set_bits pm addr size bits =
    let index_l = block_idx addr in
    let index_r =
      block_idx addr
      + block_idx size
      + block_idx (block_offset addr + block_offset size + sm_size - 1) in
    set_blocks (index_r - index_l) addr (u64 (addr + size)) bits index_l pm

-- The loop of `PM::UnifiedSizeAfter`: how many of the next `n` bytes of a map are like the first.
unfoldable pub like_head : (ℕ → ℕ) → ℕ → ℕ → ℕ → ℕ
like_head sm head o zero = 0
like_head sm head o (suc n) =
    let rest = like_head sm head (o + 1) n in if sm o == head then suc rest else 0

-- `PM::UnifiedSizeAfter`
unfoldable pub unified_size_after : Pm → ℕ → ℕ → ℕ → ℕ
unfolding like_head
unified_size_after pm base size addr =
    let common = min (base + size - addr) (sm_size - block_offset addr) in
    elim (pm.sm_list (block_idx addr)) [
      | none ↦ common
      | some sm ↦ 1 + like_head sm (sm (block_offset addr)) (block_offset addr + 1) (common - 1)
    ]
