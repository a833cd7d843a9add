-- ===== src/Asan/Memory.antt =====
-- What the shadow memory asks of a map of byte states: `GetBits`, `Set` and `UnifiedSizeAfter`, with their
-- laws on the addresses below a limit. `PM` fills it (Pm/Unified).
use ascend_mssanitizer.Base.{◌+◌, ltb, ◌<◌, ◌≤◌, leb, if◌then◌else◌, ℕ, ◌&&◌, ◌≡◌}

pub record Memory : Type 1 where
  pub Map : Type 0
  pub get : Map → ℕ → ℕ
  pub put_range : Map → ℕ → ℕ → ℕ → Map
  pub unified : Map → ℕ → ℕ → ℕ → ℕ
  pub limit : Map → ℕ
  pub same_limit : (m : Map) (addr size bits : ℕ) → limit (put_range m addr size bits) ≡ limit m
  pub reads :
      (m : Map) (addr size bits x : ℕ)
      → addr + size ≤ limit m
      → x < limit m
      → get (put_range m addr size bits) x
        ≡ (if leb addr x && ltb x (addr + size) then bits else get m x)
  pub unified_pos :
      (m : Map) (base size addr : ℕ)
      → addr < base + size
      → base + size ≤ limit m
      → 0 < unified m base size addr
  pub unified_fits :
      (m : Map) (base size addr : ℕ)
      → addr < base + size
      → base + size ≤ limit m
      → addr + unified m base size addr ≤ base + size
  pub unified_same :
      (m : Map) (base size addr k : ℕ)
      → addr < base + size
      → base + size ≤ limit m
      → k < unified m base size addr
      → get m (addr + k) ≡ get m addr
