-- ===== src/Checker/PipeRaces.antt =====
-- What the pairs are that the check on one pipe, `IsSinglePipeRaceEvent` of
-- csrc/race_sanitizer/alg_framework/mem_event_checker.cpp, reports.
use ascend_mssanitizer.Checker.Scanline.{lies_in, scanline, event_at}
use ascend_mssanitizer.Base.{
  ==_iff, ◌+◌, subst, not, ℕ, ◌≡◌, ◌≤◌, ltb, ◌==◌, arith, All, true, some, if◌then◌else◌, ◌-◌, ◌≢◌,
  ◌⊎◌,
}
use ascend_mssanitizer.Checker.Pairs.{
  KernelNames, max_serial_number_diff, same_pipe, is_single_pipe_race_event, check_pair, no_race,
  is_atomic_against, is_mem_space_overlap,
}
use ascend_mssanitizer.Checker.Reports.{Reported, scanline-Reported, IsWriter, All-map}
use ascend_mssanitizer.Checker.InnerRaces.{passed}
use ascend_mssanitizer.Event.{pipe_index_inj, MemEvent, single_pipe_check, pipe_index}
use ascend_mssanitizer.Checker.Overlap.{same_mem_type, EventIdxInfo}
use ascend_mssanitizer.Checker.State.{MemEventChecker}
use ascend_mssanitizer.Checker.Bytes.Races.{
  AreAtomicWrites, is_atomic_against-not, checked-ShareByte,
}
use ascend_mssanitizer.Checker.Bytes.{IsPlain}
use ascend_mssanitizer.Checker.Bytes.Shared.{ShareByte}

-- Two accesses of different instructions of one pipe that share a byte, whose instruction counts are at most
-- 16 apart and whose barrier counts agree, and which are not both kept as atomic writes on pipes other than
-- the scalar one.
pub record AreAdjacent (e1 e2 : MemEvent) : Type 0 where
  pub one_pipe : e1.pipe ≡ e2.pipe
  pub instructions_differ : e1.serial_no ≢ e2.serial_no
  pub near :
      (e1.pipe_serial_no ≤ e2.pipe_serial_no + max_serial_number_diff)
      × (e2.pipe_serial_no ≤ e1.pipe_serial_no + max_serial_number_diff)
  pub same_barriers : e1.barrier_no ≡ e2.barrier_no
  pub not_atomic : ¬ AreAtomicWrites e1 e2
  pub overlap : ShareByte e1 e2

abbrev serial_diff : MemEvent → MemEvent → ℕ
serial_diff e1 e2 =
    if ltb e2.pipe_serial_no e1.pipe_serial_no
    then e1.pipe_serial_no - e2.pipe_serial_no
    else e2.pipe_serial_no - e1.pipe_serial_no

single-AreAdjacent :
    (m : MemEventChecker) (e1 e2 : MemEvent) (i1 i2 : EventIdxInfo)
    → ((is_mem_space_overlap e1 e2 i1 i2).0 ≡ true → ShareByte e1 e2)
    → (is_single_pipe_race_event m e1 e2 i1 i2).0 ≡ true
    → AreAdjacent e1 e2
unfolding is_single_pipe_race_event same_pipe
single-AreAdjacent m e1 e2 i1 i2 shared h =
    let space = is_mem_space_overlap e1 e2 i1 i2 in
    let by_barrier = if not (e1.barrier_no == e2.barrier_no) then no_race i1 i2 else space in
    let by_diff =
      if ltb max_serial_number_diff (serial_diff e1 e2) then no_race i1 i2 else by_barrier in
    let by_atomic = if is_atomic_against e1 e2 then no_race i1 i2 else by_diff in
    let by_serial = if e1.serial_no == e2.serial_no then no_race i1 i2 else by_atomic in
    let by_pipe = if not (same_pipe e1 e2) then no_race i1 i2 else by_serial in
    let space_is = not (same_mem_type e1.mem_info.mem_type e2.mem_info.mem_type) in
    let (_, h1) = passed space_is i1 i2 by_pipe h in
    let (p, h2) = passed (not (same_pipe e1 e2)) i1 i2 by_serial h1 in
    let (s, h3) = passed (e1.serial_no == e2.serial_no) i1 i2 by_atomic h2 in
    let (a, h4) = passed (is_atomic_against e1 e2) i1 i2 by_diff h3 in
    let (d, h5) = passed (ltb max_serial_number_diff (serial_diff e1 e2)) i1 i2 by_barrier h4 in
    let (b, h6) = passed (not (e1.barrier_no == e2.barrier_no)) i1 i2 space h5 in
    record {
      one_pipe =
          pipe_index_inj e1.pipe e2.pipe
            (ground (arith, p, ==_iff (pipe_index e1.pipe) (pipe_index e2.pipe)));
      instructions_differ = λ e. ground (arith, s, e, ==_iff e1.serial_no e2.serial_no);
      near = ground (arith, d);
      same_barriers = ground (arith, b, ==_iff e1.barrier_no e2.barrier_no);
      not_atomic = is_atomic_against-not e1 e2 a;
      overlap = shared h6;
    }

-- A pair of indices that stands for two adjacent accesses of the checker in one memory space, of which
-- at least one counts as a write.
abbrev pub AdjacentPair : MemEventChecker → EventIdxInfo × EventIdxInfo → Type 0
AdjacentPair m p =
    (e1 : MemEvent) × (e2 : MemEvent) × (event_at m p.0.event_idx ≡ some e1)
    × (event_at m p.1.event_idx ≡ some e2)
    × (lies_in e2 ≡ lies_in e1)
    × (IsWriter e1 ⊎ IsWriter e2)
    × AreAdjacent e1 e2

-- For every checker of the kind that looks at one pipe, all of whose accesses have ranges that are not empty
-- and do not wrap: each pair that the scan reports stands for two accesses of the checker in one memory space
-- that touch a common byte, of which at least one counts as a write, by different instructions of one pipe,
-- kept with instruction counts at most 16 apart and with one count of barriers, and which are not both kept
-- as writes in atomic mode on pipes other than the scalar one.
pub scanline-AdjacentPair :
    (names : KernelNames) (m : MemEventChecker)
    → m.check_type ≡ single_pipe_check
    → All IsPlain m.events
    → All (AdjacentPair m) (scanline names m)
unfolding check_pair
scanline-AdjacentPair names m kind plain =
    All-map (Reported names m) _ (scanline names m)
      (λ p r. (
        r.first,
        r.second,
        r.first_is,
        r.second_is,
        r.one_space,
        r.one_writes,
        single-AreAdjacent m r.first r.second r.idx1 r.idx2
            (checked-ShareByte m _ _ r.first r.second r.idx1 r.idx2 plain r.first_is r.second_is)
            (subst (λ t. (check_pair t names m r.first r.second r.idx1 r.idx2).0 ≡ true) kind
              r.checked),
      ))
      (scanline-Reported names m)
