-- ===== src/Asan/Shadow.antt =====
-- csrc/address_sanitizer/shadow_memory.cpp: the state byte of each byte of memory, two bits for the status
-- and six for the core that wrote it, and the walks over a range by runs of equal state bytes.
pub mod Bytes
pub mod Walk
pub mod Bytewise
pub mod Undefined
use ascend_mssanitizer.Base.{zero, Bool, if◌then◌else◌, ◌%◌, ◌==◌, ◌+◌, ℕ, suc, ltb, ◌*◌, ◌/◌}
use ascend_mssanitizer.PipeLine.Progress.{fuel}
use ascend_mssanitizer.Event.{is_gm}
use ascend_mssanitizer.Asan.Memory.{Memory}

-- `MemStatus`
abbrev pub noaccess : ℕ
noaccess = 0

abbrev pub undefined : ℕ
undefined = 1

abbrev pub defined : ℕ
defined = 2

abbrev pub trampled : ℕ
trampled = 3

-- `DEFAULT_CORE_ID`
abbrev pub default_core_id : ℕ
default_core_id = 63

-- `MakeByte`
unfoldable pub make_byte : ℕ → ℕ → ℕ
make_byte status core = status % 4 + core * 4 % 256

-- `GetMemStatus`
abbrev pub get_mem_status : ℕ → ℕ
get_mem_status byte = byte % 4

-- `GetCoreId`
abbrev pub get_core_id : ℕ → ℕ
get_core_id byte = byte % 256 / 4

-- `SetMemStatus`
abbrev pub set_mem_status : ℕ → ℕ → ℕ
set_mem_status byte status = byte % 256 / 4 * 4 + status % 4

-- `SetCoreId`
abbrev pub set_core_id : ℕ → ℕ → ℕ
set_core_id byte core = byte % 4 + core * 4 % 256

module _ (mem : Memory) where
  open mem use {
    Map, get, put_range, unified, limit, same_limit, reads, unified_pos, unified_fits, unified_same,
  }

  -- The walk of `CheckUnusedMem` and `LoadNBytes`: the bytes that were never written.
  unfoldable pub undefined_bytes : ℕ → Map → ℕ → ℕ → ℕ → ℕ
  undefined_bytes zero m base size it = 0
  undefined_bytes (suc fuel) m base size it =
      let later = undefined_bytes fuel m base size (it + unified m base size it) in
      if ltb it (base + size)
      then (if get_mem_status (get m it) == undefined then unified m base size it else 0) + later
      else 0

  -- The part of the walk of `StoreNBytesInRange` that looks at the core, on the state byte after the status.
  unfoldable pub store_core : Bool → ℕ → Map → ℕ → ℕ → ℕ → Map × ℕ
  store_core atomic core m it n bits =
      if core == 255
      then (put_range m it n (set_core_id bits default_core_id), 0)
      else if get_core_id bits == default_core_id
      then (put_range m it n (set_core_id bits core), 0)
      else if get_core_id bits == core
      then (m, 0)
      else if atomic
      then (m, 0)
      else (put_range m it n (set_mem_status bits trampled), n)

  -- One turn of that walk, on a run of `n` bytes: the map and the number of trampled bytes.
  unfoldable pub store_run : Bool → Bool → ℕ → Map → ℕ → ℕ → Map × ℕ
  unfolding store_core
  store_run is_gm atomic core m it n =
      let bits = get m it in
      if get_mem_status bits == trampled
      then (m, 0)
      else if get_mem_status bits == undefined
      then (if is_gm
          then store_core atomic core (put_range m it n (set_mem_status bits defined)) it n
              (set_mem_status bits defined)
          else (put_range m it n (set_mem_status bits defined), 0))
      else (if is_gm then store_core atomic core m it n bits else (m, 0))

  -- `StoreNBytesInRange`
  unfoldable pub store_in_range : ℕ → Bool → Bool → ℕ → Map → ℕ → ℕ → ℕ → Map × ℕ
  unfolding store_run
  store_in_range zero is_gm atomic core m base size it = (m, 0)
  store_in_range (suc fuel) is_gm atomic core m base size it =
      let n = unified m base size it in
      let turn = store_run is_gm atomic core m it n in
      let rest = store_in_range fuel is_gm atomic core turn.0 base size (it + n) in
      if ltb it (base + size) then (rest.0, turn.1 + rest.1) else (m, 0)

  -- The walk of `ClearBlockId`
  unfoldable pub clear_block_id : ℕ → Map → ℕ → ℕ → ℕ → Map
  clear_block_id zero m base size it = m
  clear_block_id (suc fuel) m base size it =
      let n = unified m base size it in
      let rest =
        clear_block_id fuel (put_range m it n (set_core_id (get m it) default_core_id)) base size
          (it + n) in
      if ltb it (base + size) then rest else m
