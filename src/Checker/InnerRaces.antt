-- ===== src/Checker/InnerRaces.antt =====
-- What the pairs are that the check inside a core, `IsInnerCoreRaceEvent` of
-- csrc/race_sanitizer/alg_framework/mem_event_checker.cpp, reports.
use ascend_mssanitizer.Checker.Pairs.{no_race}
use ascend_mssanitizer.Base.{if◌then◌else◌, arith, refl, ◌≡◌, ◌⊎◌, true, false, Bool, ◌≢◌, some}
use ascend_mssanitizer.Event.{MemEvent}
use ascend_mssanitizer.Checker.State.{MemEventChecker}
use ascend_mssanitizer.Checker.Reports.{IsWriter}
use ascend_mssanitizer.Checker.Scanline.{event_at, lies_in}
use ascend_mssanitizer.Checker.Overlap.{Found, EventIdxInfo}
use ascend_mssanitizer.Checker.Bytes.Races.{AreUnordered, AreAtomicWrites}
use ascend_mssanitizer.Checker.Bytes.Shared.{ShareByte}

-- Two accesses on different pipes that share a byte, of which neither vector time is below the other, and
-- which are not both kept as atomic writes on pipes other than the scalar one.
pub record AreRacy (e1 e2 : MemEvent) : Type 0 where
  pub pipes_differ : e1.pipe ≢ e2.pipe
  pub concurrent : AreUnordered e1.vt e2.vt
  pub not_atomic : ¬ AreAtomicWrites e1 e2
  pub overlap : ShareByte e1 e2

pub passed :
    (b : Bool) (i1 i2 : EventIdxInfo) (f : Found)
    → (if b then no_race i1 i2 else f).0 ≡ true
    → (b ≡ false) × (f.0 ≡ true)
passed true i1 i2 f h = ground (arith, h)
passed false i1 i2 f h = (refl, h)

-- A pair of indices that stands for two racy accesses of the checker in one memory space, of which at
-- least one counts as a write.
abbrev pub RacyPair : MemEventChecker → EventIdxInfo × EventIdxInfo → Type 0
RacyPair m p =
    (e1 : MemEvent) × (e2 : MemEvent) × (event_at m p.0.event_idx ≡ some e1)
    × (event_at m p.1.event_idx ≡ some e2)
    × (lies_in e2 ≡ lies_in e1)
    × (IsWriter e1 ⊎ IsWriter e2)
    × AreRacy e1 e2
