-- ===== src/Checker/CoreRaces.antt =====
-- What the pairs are that the check across cores, `IsCrossCoreRaceEvent` of
-- csrc/race_sanitizer/alg_framework/mem_event_checker.cpp, reports.
use ascend_mssanitizer.Base.{◌≡◌, Bool, ◌==◌, ◌≢◌, some, ◌⊎◌}
use ascend_mssanitizer.Checker.Reports.{IsWriter}
use ascend_mssanitizer.Checker.Scanline.{lies_in, event_at}
use ascend_mssanitizer.Checker.Overlap.{EventIdxInfo}
use ascend_mssanitizer.Checker.State.{MemEventChecker}
use ascend_mssanitizer.Event.{MemEvent, block_type_index}
use ascend_mssanitizer.Checker.Bytes.Shared.{ShareByte}
use ascend_mssanitizer.Checker.Bytes.Races.{AreUnordered, AreAtomicWrites}

-- Two accesses of different cores that share a byte, of which neither vector time is below the other, and
-- which are not both kept as atomic writes on pipes other than the scalar one.
pub record AreApart (e1 e2 : MemEvent) : Type 0 where
  pub cores_differ : (e1.loc.core_id ≢ e2.loc.core_id) ⊎ (e1.loc.block_type ≢ e2.loc.block_type)
  pub concurrent : AreUnordered e1.vt e2.vt
  pub not_atomic : ¬ AreAtomicWrites e1 e2
  pub overlap : ShareByte e1 e2

abbrev same_block_type : MemEvent → MemEvent → Bool
same_block_type e1 e2 = block_type_index e1.loc.block_type == block_type_index e2.loc.block_type

-- A pair of indices that stands for two such accesses of the checker in one memory space, of which at
-- least one counts as a write.
abbrev pub ApartPair : MemEventChecker → EventIdxInfo × EventIdxInfo → Type 0
ApartPair m p =
    (e1 : MemEvent) × (e2 : MemEvent) × (event_at m p.0.event_idx ≡ some e1)
    × (event_at m p.1.event_idx ≡ some e2)
    × (lies_in e2 ≡ lies_in e1)
    × (IsWriter e1 ⊎ IsWriter e2)
    × AreApart e1 e2
