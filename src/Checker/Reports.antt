-- ===== src/Checker/Reports.antt =====
-- The report of `ScanlineAlgorithm` of csrc/race_sanitizer/alg_framework/mem_event_checker.cpp, by
-- induction over its loop.
use ascend_mssanitizer.Checker.Scanline.{
  event_at, scan_end, first_idx, scan_event, events_meta_data, scanline, scan_start, add_entry,
  SortMetaData, compare_event, drop_entry, scan_all, lies_in, is_entry, History, has_entry,
  check_exist, acts_as, Scan,
}
use ascend_mssanitizer.Checker.Pairs.{KernelNames, check_pair}
use ascend_mssanitizer.Checker.Sound.{check_exist-Hit, Entries, Hit}
use ascend_mssanitizer.Base.{
  Option, inr, All, All-append, true, ◌≡◌, ◌⊎◌, ℕ, refl, none, arith, [], List, inl, ◌∷◌, ◌++◌,
  some, Bool-cases,
}
use ascend_mssanitizer.Checker.State.{MemEventChecker}
use ascend_mssanitizer.Event.{AccessType, MemEvent, write, MemType, is_write}
use ascend_mssanitizer.Checker.Overlap.{EventIdxInfo}
use ascend_mssanitizer.Base.Sort.{sort_by}

is_write-eq : (a : AccessType) → is_write a ≡ true → a ≡ write
is_write-eq a h = ground arith

drop_entry-All :
    (P : MemType × ℕ → Type 0) (t : MemType) (i : ℕ) (h : History)
    → All P h
    → All P (drop_entry t i h)
drop_entry-All P t i [] a = tt
drop_entry-All P t i (x ∷ h) a = elim (Bool-cases (is_entry t i x)) [
  | inl b ↦ rw b (drop_entry-All P t i h a.1)
  | inr b ↦ rw b (a.0, drop_entry-All P t i h a.1)
]

add_entry-All :
    (P : MemType × ℕ → Type 0) (t : MemType) (i : ℕ) (h : History)
    → P (t, i)
    → All P h
    → All P (add_entry t i h)
add_entry-All P t i h p a = elim (Bool-cases (has_entry t i h)) [
  | inl b ↦ rw b a
  | inr b ↦ rw b (p, a)
]

pub All-map :
    {A : Type 0} (P Q : A → Type 0) (xs : List A) → ((x : A) → P x → Q x) → All P xs → All Q xs
All-map P Q [] f a = tt
All-map P Q (x ∷ xs) f a = (f x a.0, All-map P Q xs f a.1)

abbrev pub IsWriter : MemEvent → Type 0
IsWriter e = acts_as e ≡ write

abbrev IsAny : MemEvent → Type 0
IsAny e = Unit

module _ (names : KernelNames) (m : MemEventChecker) where
  -- What a reported pair is: two accesses of one memory type, of which one writes, and on which the
  -- check of the checker's type answered `true`.
  pub record Reported (p : EventIdxInfo × EventIdxInfo) : Type 0 where
    pub first : MemEvent
    pub second : MemEvent
    pub first_is : event_at m p.0.event_idx ≡ some first
    pub second_is : event_at m p.1.event_idx ≡ some second
    pub one_space : lies_in second ≡ lies_in first
    pub one_writes : IsWriter first ⊎ IsWriter second
    pub idx1 : EventIdxInfo
    pub idx2 : EventIdxInfo
    pub checked : (check_pair m.check_type names m first second idx1 idx2).0 ≡ true

  pub record Scanned (s : Scan) : Type 0 where
    pub writes_ok : Entries names m IsWriter s.writes
    pub reads_ok : Entries names m IsAny s.reads
    pub found_ok : All Reported s.found

  of_Hit :
      (Q : MemEvent → Type 0) (e : MemEvent) (p : EventIdxInfo × EventIdxInfo)
      → ((o : MemEvent) → Q o → IsWriter e ⊎ IsWriter o)
      → Hit names m (lies_in e) Q e p
      → Reported p
  of_Hit Q e p w h = record {
    first = e;
    second = h.other;
    first_is = h.first_is;
    second_is = h.other_is;
    one_space = h.lies;
    one_writes = w h.other h.quality;
    idx1 = h.idx1;
    idx2 = h.idx2;
    checked = h.checked;
  }

  hits :
      (Q : MemEvent → Type 0) (i : ℕ) (e : MemEvent) (h : History)
      → ((o : MemEvent) → Q o → IsWriter e ⊎ IsWriter o)
      → event_at m i ≡ some e
      → Entries names m Q h
      → All Reported (check_exist names m (lies_in e) h (first_idx i) (first_idx 0))
  hits Q i e h w here en =
      All-map (Hit names m (lies_in e) Q e) Reported
        (check_exist names m (lies_in e) h (first_idx i) (first_idx 0)) (λ p. of_Hit Q e p w)
        (check_exist-Hit names m (lies_in e) Q e h (first_idx i) (first_idx 0) here en)

  start-Scanned :
      (i : ℕ) (e : MemEvent) (s : Scan)
      → event_at m i ≡ some e
      → Scanned s
      → Scanned (scan_start names m i e s)
  unfolding scan_start
  start-Scanned i e s here g =
      let t = lies_in e in
      let by_writes = hits IsWriter i e s.writes (λ o q. inr q) here g.writes_ok in
      let old = check_exist names m t s.writes (first_idx i) (first_idx 0) in
      let with_writes = All-append Reported s.found old g.found_ok by_writes in
      elim (Bool-cases (is_write (acts_as e))) [
        | inl b ↦
            let wr = is_write-eq (acts_as e) b in
            let by_reads = hits IsAny i e s.reads (λ o q. inl wr) here g.reads_ok in
            rw b (record {
              writes_ok = add_entry-All _ t i s.writes (e, here, refl, wr) g.writes_ok;
              reads_ok = g.reads_ok;
              found_ok = All-append Reported (s.found ++ old) _ with_writes by_reads;
            })
        | inr b ↦ rw b (record {
          writes_ok = g.writes_ok;
          reads_ok = add_entry-All _ t i s.reads (e, here, refl, tt) g.reads_ok;
          found_ok = with_writes;
        })
      ]

  event-Scanned :
      (d : SortMetaData) (o : Option MemEvent) (s : Scan)
      → event_at m d.event_idx ≡ o
      → Scanned s
      → Scanned (scan_event names m d o s)
  unfolding scan_end scan_event
  event-Scanned d none s here g = g
  event-Scanned d (some e) s here g = elim (Bool-cases d.is_start) [
    | inl b ↦ rw b (start-Scanned d.event_idx e s here g)
    | inr b ↦ rw b (record {
      writes_ok = drop_entry-All _ (lies_in e) d.event_idx s.writes g.writes_ok;
      reads_ok = drop_entry-All _ (lies_in e) d.event_idx s.reads g.reads_ok;
      found_ok = g.found_ok;
    })
  ]

  all-Scanned : (ds : List SortMetaData) (s : Scan) → Scanned s → Scanned (scan_all names m ds s)
  unfolding scan_all
  all-Scanned [] s g = g
  all-Scanned (d ∷ ds) s g =
      all-Scanned ds (scan_event names m d (event_at m d.event_idx) s)
        (event-Scanned d (event_at m d.event_idx) s refl g)

-- For every checker and every table of kernel names: each pair that the scan reports stands for two
-- accesses of the checker in one memory space, of which at least one counts as a write, and on which
-- the pair check of the checker's type answered `true`.
pub scanline-Reported :
    (names : KernelNames) (m : MemEventChecker) → All (Reported names m) (scanline names m)
unfolding scanline
scanline-Reported names m =
    (all-Scanned names m (sort_by compare_event (events_meta_data 0 m.events))
      (record { writes = []; reads = []; found = [] })
      (record { writes_ok = tt; reads_ok = tt; found_ok = tt })).found_ok
