-- ===== src/Checker/NoRepeats.antt =====
-- What `RunAlgorithm` of csrc/race_sanitizer/alg_framework/mem_event_checker.cpp reports: each race once.
use ascend_mssanitizer.Base.{
  Bool-cases, refl, none, arith, ◌++◌, inr, some, List, [], ◌∷◌, false, ◌≡◌, Option, true, inl,
  Bool, ◌==◌, ℕ, ◌||◌, ap, ◌&&◌, ◌∙◌, All,
}
use ascend_mssanitizer.Checker.Report.{
  same_race, same_error, ErrorEvent, add_report, RaceDispInfo, is_reported, report_pair, add_option,
  run_algorithm, report_all,
}
use ascend_mssanitizer.Checker.Scanline.{same_bool, scanline}
use ascend_mssanitizer.Checker.State.{MemEventChecker}
use ascend_mssanitizer.Checker.Pairs.{KernelNames}
use ascend_mssanitizer.Checker.Overlap.{EventIdxInfo}

==_comm : (a b : ℕ) → (a == b) ≡ (b == a)
==_comm a b = ground arith

same_bool_comm : (a b : Bool) → same_bool a b ≡ same_bool b a
same_bool_comm a b = ground arith

or_assoc : (a b c : Bool) → (a || (b || c)) ≡ ((a || b) || c)
or_assoc true b c = refl
or_assoc false b c = refl

or_false : (a : Bool) → (a || false) ≡ a
or_false true = refl
or_false false = refl

neither : (a b : Bool) → (a || b) ≡ false → (a ≡ false) × (b ≡ false)
neither true b h = ground (arith, h)
neither false b h = (refl, h)

or_true : (a b : Bool) → a ≡ true → (a || b) ≡ true
or_true true b h = refl
or_true false b h = ground (arith, h)

swap_and : (a c d : Bool) → (a || (c && d)) ≡ (a || (d && c))
swap_and a c d = ground arith

same_error_comm : (a b : ErrorEvent) → same_error a b ≡ same_error b a
unfolding same_error
same_error_comm a b =
    rw
      (
        ==_comm a.access_type b.access_type,
        ==_comm a.mem_type b.mem_type,
        ==_comm a.addr b.addr,
        ==_comm a.file_no b.file_no,
        ==_comm a.line_no b.line_no,
        ==_comm a.pc b.pc,
        ==_comm a.pipe_type b.pipe_type,
        ==_comm a.core_id b.core_id,
        ==_comm a.thread_loc.id_x b.thread_loc.id_x,
        ==_comm a.thread_loc.id_y b.thread_loc.id_y,
        ==_comm a.thread_loc.id_z b.thread_loc.id_z,
        same_bool_comm a.is_simt b.is_simt,
      )
      refl

same_error_refl : (a : ErrorEvent) → same_error a a ≡ true
unfolding same_error
same_error_refl a = ground arith

same_race_comm : (a b : RaceDispInfo) → same_race a b ≡ same_race b a
unfolding same_race
same_race_comm a b =
    rw
      (
        same_error_comm b.p1 a.p1,
        same_error_comm b.p2 a.p2,
        same_error_comm b.p1 a.p2,
        same_error_comm b.p2 a.p1,
      )
      (swap_and (same_error a.p1 b.p1 && same_error a.p2 b.p2) (same_error a.p1 b.p2)
        (same_error a.p2 b.p1))

same_race_refl : (a : RaceDispInfo) → same_race a a ≡ true
unfolding same_race
same_race_refl a = ground (arith, same_error_refl a.p1, same_error_refl a.p2)

-- No two entries are equal.
abbrev pub NoRepeats : List RaceDispInfo → Type 0
NoRepeats [] = Unit
NoRepeats (x ∷ xs) = (is_reported x xs ≡ false) × NoRepeats xs

reported-append :
    (x y : RaceDispInfo) (xs : List RaceDispInfo)
    → is_reported x (xs ++ y ∷ []) ≡ (is_reported x xs || same_race x y)
unfolding is_reported
reported-append x y [] = or_false (same_race x y)
reported-append x y (z ∷ xs) =
    ap (λ b. same_race x z || b) (reported-append x y xs)
    ∙ or_assoc (same_race x z) (is_reported x xs) (same_race x y)

NoRepeats-append :
    (x : RaceDispInfo) (xs : List RaceDispInfo)
    → NoRepeats xs
    → is_reported x xs ≡ false
    → NoRepeats (xs ++ x ∷ [])
unfolding is_reported
NoRepeats-append x [] n h = (refl, tt)
NoRepeats-append x (y ∷ xs) n h =
    let (other, rest) = neither (same_race x y) (is_reported x xs) h in
    let turned : same_race y x ≡ false = same_race_comm y x ∙ other in
    (
      reported-append y x xs ∙ ap (λ b. b || same_race y x) (n.0) ∙ turned,
      NoRepeats-append x xs n.1 rest,
    )

-- A pair is in the report, if its indices stand for events.
abbrev pub IsIn : List RaceDispInfo → Option RaceDispInfo → Type 0
IsIn rs none = Unit
IsIn rs (some x) = is_reported x rs ≡ true

add_report-keeps :
    (x y : RaceDispInfo) (rs : List RaceDispInfo)
    → is_reported x rs ≡ true
    → is_reported x (add_report y rs) ≡ true
unfolding add_report
add_report-keeps x y rs h = elim (Bool-cases (is_reported y rs)) [
  | inl b ↦ rw b h
  | inr b ↦ rw b (reported-append x y rs ∙ or_true (is_reported x rs) (same_race x y) h)
]

add_report-in : (x : RaceDispInfo) (rs : List RaceDispInfo) → is_reported x (add_report x rs) ≡ true
unfolding add_report
add_report-in x rs = elim (Bool-cases (is_reported x rs)) [
  | inl b ↦ rw (b, b) refl
  | inr b ↦ rw b (reported-append x x rs ∙ ap (λ r. r || same_race x x) b ∙ same_race_refl x)
]

add_option-NoRepeats :
    (o : Option RaceDispInfo) (rs : List RaceDispInfo) → NoRepeats rs → NoRepeats (add_option o rs)
unfolding add_option add_report
add_option-NoRepeats none rs n = n
add_option-NoRepeats (some x) rs n = elim (Bool-cases (is_reported x rs)) [
  | inl b ↦ rw b n
  | inr b ↦ rw b (NoRepeats-append x rs n b)
]

add_option-IsIn : (o : Option RaceDispInfo) (rs : List RaceDispInfo) → IsIn (add_option o rs) o
unfolding add_option
add_option-IsIn none rs = tt
add_option-IsIn (some x) rs = add_report-in x rs

add_option-keeps :
    (o q : Option RaceDispInfo) (rs : List RaceDispInfo) → IsIn rs q → IsIn (add_option o rs) q
unfolding add_option
add_option-keeps o none rs h = tt
add_option-keeps none (some x) rs h = h
add_option-keeps (some y) (some x) rs h = add_report-keeps x y rs h

report_all-keeps :
    (m : MemEventChecker) (q : Option RaceDispInfo) (ps : List (EventIdxInfo × EventIdxInfo))
    (rs : List RaceDispInfo)
    → IsIn rs q
    → IsIn (report_all m ps rs) q
unfolding report_all
report_all-keeps m q [] rs h = h
report_all-keeps m q (p ∷ ps) rs h =
    report_all-keeps m q ps (add_option (report_pair m p) rs)
      (add_option-keeps (report_pair m p) q rs h)

report_all-IsIn :
    (m : MemEventChecker) (ps : List (EventIdxInfo × EventIdxInfo)) (rs : List RaceDispInfo)
    → All (λ p. IsIn (report_all m ps rs) (report_pair m p)) ps
unfolding report_all
report_all-IsIn m [] rs = tt
report_all-IsIn m (p ∷ ps) rs =
    let rs' = add_option (report_pair m p) rs in
    (
      report_all-keeps m (report_pair m p) ps rs' (add_option-IsIn (report_pair m p) rs),
      report_all-IsIn m ps rs',
    )

report_all-NoRepeats :
    (m : MemEventChecker) (ps : List (EventIdxInfo × EventIdxInfo)) (rs : List RaceDispInfo)
    → NoRepeats rs
    → NoRepeats (report_all m ps rs)
unfolding report_all
report_all-NoRepeats m [] rs n = n
report_all-NoRepeats m (p ∷ ps) rs n =
    report_all-NoRepeats m ps (add_option (report_pair m p) rs)
      (add_option-NoRepeats (report_pair m p) rs n)

-- For every checker and every table of kernel names: no two entries of the report of a run are equal
-- by `ErrorEventEqual`, and each pair that the scan finds is equal to an entry of the report.
pub run_algorithm-NoRepeats :
    (names : KernelNames) (m : MemEventChecker)
    → NoRepeats (run_algorithm names m)
      × All (λ p. IsIn (run_algorithm names m) (report_pair m p)) (scanline names m)
unfolding run_algorithm
run_algorithm-NoRepeats names m =
    (report_all-NoRepeats m (scanline names m) [] tt, report_all-IsIn m (scanline names m) [])
