-- ===== src/Checker/Report.antt =====
-- `RunAlgorithm` of csrc/race_sanitizer/alg_framework/mem_event_checker.cpp, with the entries of the
-- report, ErrorEvent and RaceDispInfo of csrc/core/framework/event_def.h.
use ascend_mssanitizer.Base.{
  suc, [], ◌==◌, ◌∷◌, zero, Option, ◌&&◌, some, ℕ, List, true, if◌then◌else◌, none, false, Bool,
  ◌++◌, ◌||◌,
}
use ascend_mssanitizer.Event.{
  addr_space_to_mem_type, BlockType, SimtThreadLocation, access_type_index, ShadowMemoryRecord,
  MemEvent, pipe_index, mem_type_index,
}
use ascend_mssanitizer.Checker.Pairs.{KernelNames}
use ascend_mssanitizer.Checker.Scanline.{same_bool, scanline, event_at}
use ascend_mssanitizer.Checker.State.{MemEventChecker}
use ascend_mssanitizer.Checker.Overlap.{EventIdxInfo}

pub record ErrorEvent : Type 0 where
  pub serial_no : ℕ
  pub device_id : ℕ
  pub kernel_idx : ℕ
  pub core_id : ℕ
  pub addr : ℕ
  pub file_no : ℕ
  pub line_no : ℕ
  pub pc : ℕ
  pub access_type : ℕ
  pub mem_type : ℕ
  pub pipe_type : ℕ
  pub block_type : BlockType
  pub thread_loc : SimtThreadLocation
  pub is_simt : Bool

pub record RaceDispInfo : Type 0 where
  pub p1 : ErrorEvent
  pub p2 : ErrorEvent

abbrev pub no_thread : SimtThreadLocation
no_thread = record { id_x = 0; id_y = 0; id_z = 0 }

-- What `Init` fills in of an access as a whole.
unfoldable pub plain_error : MemEvent → ErrorEvent
unfolding pipe_index
plain_error e = record {
  serial_no = e.serial_no;
  device_id = e.loc.device_id;
  kernel_idx = e.loc.kernel_idx;
  core_id = e.loc.core_id;
  addr = e.mem_info.addr;
  file_no = e.loc.file_no;
  line_no = e.loc.line_no;
  pc = e.loc.pc;
  access_type = access_type_index e.mem_info.op_type;
  mem_type = mem_type_index e.mem_info.mem_type;
  pipe_type = pipe_index e.pipe;
  block_type = e.loc.block_type;
  thread_loc = no_thread;
  is_simt = false;
}

unfoldable pub record_error : MemEvent → ShadowMemoryRecord → ErrorEvent
unfolding addr_space_to_mem_type
record_error e r = record (plain_error e) {
  addr = r.addr;
  pc = r.pc;
  thread_loc = r.thread_loc;
  is_simt = true;
  access_type = access_type_index r.access_type;
  mem_type = mem_type_index (addr_space_to_mem_type r.space);
}

abbrev pub nth_record : List ShadowMemoryRecord → ℕ → Option ShadowMemoryRecord
nth_record [] i = none
nth_record (r ∷ rs) zero = some r
nth_record (r ∷ rs) (suc i) = nth_record rs i

abbrev pub error_of : MemEvent → Option ShadowMemoryRecord → ErrorEvent
error_of e none = plain_error e
error_of e (some r) = record_error e r

-- `ErrorEvent::Init`
unfoldable pub init_error : MemEvent → ℕ → ErrorEvent
init_error e i =
    let d = e.dynamic_mem_info in
    if e.is_dynamic && d.is_shadow_memory then error_of e (nth_record d.buffer i) else plain_error e

abbrev pub same_thread : SimtThreadLocation → SimtThreadLocation → Bool
same_thread a b = (a.id_x == b.id_x) && ((a.id_y == b.id_y) && (a.id_z == b.id_z))

-- `ErrorEvent::operator==`
unfoldable pub same_error : ErrorEvent → ErrorEvent → Bool
same_error a b =
    ((a.access_type == b.access_type) && ((a.mem_type == b.mem_type) && (a.addr == b.addr)))
    && (((a.file_no == b.file_no) && ((a.line_no == b.line_no) && (a.pc == b.pc)))
        && (((a.pipe_type == b.pipe_type) && (a.core_id == b.core_id))
            && (same_thread a.thread_loc b.thread_loc && same_bool a.is_simt b.is_simt)))

-- `ErrorEventEqual`
unfoldable pub same_race : RaceDispInfo → RaceDispInfo → Bool
unfolding same_error
same_race a b =
    (same_error a.p1 b.p1 && same_error a.p2 b.p2) || (same_error a.p1 b.p2 && same_error a.p2 b.p1)

-- The search of `raceSet_`, whose elements are those of the result.
unfoldable pub is_reported : RaceDispInfo → List RaceDispInfo → Bool
unfolding same_race
is_reported x [] = false
is_reported x (y ∷ ys) = same_race x y || is_reported x ys

unfoldable pub add_report : RaceDispInfo → List RaceDispInfo → List RaceDispInfo
unfolding is_reported
add_report x rs = if is_reported x rs then rs else rs ++ x ∷ []

-- `FillRaceDispInfo` of a pair of indices; `at` finds both, which the scan took from the events.
unfoldable pub disp_of :
    EventIdxInfo × EventIdxInfo → Option MemEvent → Option MemEvent → Option RaceDispInfo
unfolding init_error
disp_of p (some e1) (some e2) =
    some (record {
      p1 = init_error e1 p.0.dynamic_error_idx;
      p2 = init_error e2 p.1.dynamic_error_idx;
    })
disp_of p _ _ = none

abbrev pub report_pair : MemEventChecker → EventIdxInfo × EventIdxInfo → Option RaceDispInfo
report_pair m p = disp_of p (event_at m p.0.event_idx) (event_at m p.1.event_idx)

unfoldable pub add_option : Option RaceDispInfo → List RaceDispInfo → List RaceDispInfo
unfolding add_report
add_option none rs = rs
add_option (some x) rs = add_report x rs

-- The loop of `RunAlgorithm`.
unfoldable pub report_all :
    MemEventChecker → List (EventIdxInfo × EventIdxInfo) → List RaceDispInfo → List RaceDispInfo
report_all m [] rs = rs
report_all m (p ∷ ps) rs = report_all m ps (add_option (report_pair m p) rs)

-- `RunAlgorithm` on a new checker: the result, whose length is `raceCnt_`.
unfoldable pub run_algorithm : KernelNames → MemEventChecker → List RaceDispInfo
unfolding scanline report_all
run_algorithm names m = report_all m (scanline names m) []
