-- ===== src/Asan/Shadow/Bytes.antt =====
-- The fields of a state byte, and what one store does to the state of one byte.
use ascend_mssanitizer.Asan.Shadow.{
  set_core_id, defined, make_byte, get_core_id, set_mem_status, trampled, default_core_id,
  get_mem_status, undefined,
}
use ascend_mssanitizer.Event.{is_gm}
use ascend_mssanitizer.Base.{◌&&◌, ◌≡◌, ℕ, ◌<◌, Bool, ◌==◌, if◌then◌else◌, not, arith}

-- `StoreNBytesInRange` for a single byte whose status is known to be neither trampled nor undefined.
unfoldable pub mark_core : Bool → ℕ → ℕ → ℕ
mark_core atomic core b =
    if core == 255
    then set_core_id b default_core_id
    else if get_core_id b == default_core_id
    then set_core_id b core
    else if get_core_id b == core
    then b
    else if atomic
    then b
    else set_mem_status b trampled

-- The state of one byte after a store.
unfoldable pub mark_byte : Bool → Bool → ℕ → ℕ → ℕ
unfolding mark_core
mark_byte is_gm atomic core b =
    if get_mem_status b == trampled
    then b
    else if get_mem_status b == undefined
    then (if is_gm
        then mark_core atomic core (set_mem_status b defined)
        else set_mem_status b defined)
    else (if is_gm then mark_core atomic core b else b)

-- A store tramples a byte of global memory that another core wrote.
unfoldable pub tramples : Bool → Bool → ℕ → ℕ → Bool
tramples is_gm atomic core b =
    is_gm
    && not (get_mem_status b == trampled)
    && not (core == 255)
    && not (get_core_id b == default_core_id)
    && not (get_core_id b == core)
    && not atomic

-- Status and core are kept apart in a byte.
pub get_mem_status-make_byte :
    (status core : ℕ)
    → status < 4
    → core < 64
    → (get_mem_status (make_byte status core) ≡ status)
      × (get_core_id (make_byte status core) ≡ core)
unfolding make_byte
get_mem_status-make_byte status core h k = (omega arith, omega arith)

pub get_core_id-set_mem_status : (b s : ℕ) → get_core_id (set_mem_status b s) ≡ get_core_id b
get_core_id-set_mem_status b s = omega arith
