-- ===== src/Checker/Sound.antt =====
-- What the pairs are that `ScanlineAlgorithm` of
-- csrc/race_sanitizer/alg_framework/mem_event_checker.cpp reports.
use ascend_mssanitizer.Base.{
  true, [], ℕ, List, ◌∷◌, if◌then◌else◌, ◌≡◌, Bool-cases, ltb, inr, not, ◌&&◌, suc, zero, ◌==◌, inl,
  some, refl, false, ◌∙◌, ◌+◌, All, Bool, length, arith, ap, ◌-◌,
}
use ascend_mssanitizer.Checker.Overlap.{
  EventIdxInfo, sm_itv, Found, meets, both_read, walk_records, CompareShadowMemoryRecord,
  is_mixed_overlap, trans_to_records, same_mem_type, is_dynamic_overlap,
}
use ascend_mssanitizer.Checker.Scanline.{event_at, lies_in, History, check_exist}
use ascend_mssanitizer.Event.{
  RaceCheckType, DynamicOpInfo, MemEvent, single_block_check, cross_block_check, MemOpInfo,
  single_pipe_check, cross_npu_check, MemType, block_type_index,
}
use ascend_mssanitizer.Checker.State.{MemEventChecker, expand_pipe_idx}
use ascend_mssanitizer.Checker.Pairs.{
  is_inner_core_race_event, check_pair, KernelNames, is_cross_npu_race_event,
  is_single_pipe_race_event, no_race, is_mem_space_overlap, is_cross_core_race_event, same_pipe,
  is_atomic_against, are_ordered, max_serial_number_diff, same_kernel,
}
use ascend_mssanitizer.Clock.{is_not_happens_before}

-- The overlap functions leave the indices of the events alone.
pub record Keeps (i1 i2 : EventIdxInfo) (f : Found) : Type 0 where
  pub keeps1 : f.1.event_idx ≡ i1.event_idx
  pub keeps2 : f.2.event_idx ≡ i2.event_idx

walk_records-Keeps :
    (n : ℕ) (rs1 rs2 : List CompareShadowMemoryRecord) (i1 i2 : EventIdxInfo) (f : Found)
    → Keeps i1 i2 f
    → Keeps i1 i2 (walk_records n rs1 rs2 f)
unfolding walk_records
walk_records-Keeps zero rs1 rs2 i1 i2 f k = k
walk_records-Keeps (suc n) [] rs2 i1 i2 f k = k
walk_records-Keeps (suc n) (a ∷ rs1) [] i1 i2 f k = k
walk_records-Keeps (suc n) (a ∷ rs1) (b ∷ rs2) i1 i2 (race, j1, j2) k =
    let ia = sm_itv a.sm_record in
    let ib = sm_itv b.sm_record in
    let hit = meets ia ib && not (both_read a.sm_record.access_type b.sm_record.access_type) in
    let found : Found =
      if hit
      then (true, record j1 { dynamic_error_idx = a.idx }, record j2 { dynamic_error_idx = b.idx })
      else (race, j1, j2) in
    let kept : Keeps i1 i2 found = elim (Bool-cases hit) [
      | inl h ↦ rw h (record { keeps1 = k.keeps1; keeps2 = k.keeps2 })
      | inr h ↦ rw h k
    ] in
    let far = walk_records-Keeps n rs1 (b ∷ rs2) i1 i2 found kept in
    let both = walk_records-Keeps n rs1 rs2 i1 i2 found kept in
    let near = walk_records-Keeps n (a ∷ rs1) rs2 i1 i2 found kept in
    elim (Bool-cases (hit && not (a.sm_record.pc == b.sm_record.pc))) [
      | inl x ↦ rw (walk_records, x) kept
      | inr x ↦ elim (Bool-cases (ltb ia.end ib.end)) [
        | inl y ↦ rw (walk_records, x, y) far
        | inr y ↦ elim (Bool-cases (ia.end == ib.end)) [
          | inl z ↦ rw (walk_records, x, y, z) both
          | inr z ↦ rw (walk_records, x, y, z) near
        ]
      ]
    ]

dynamic-Keeps :
    (d1 d2 : DynamicOpInfo) (i1 i2 : EventIdxInfo) → Keeps i1 i2 (is_dynamic_overlap d1 d2 i1 i2)
unfolding is_dynamic_overlap
dynamic-Keeps d1 d2 i1 i2 =
    let walked =
      walk_records-Keeps (length d1.buffer + length d2.buffer) (trans_to_records d1.buffer)
        (trans_to_records d2.buffer) i1 i2 (false, i1, i2)
        (record { keeps1 = refl; keeps2 = refl }) in
    elim (Bool-cases (d1.is_shadow_memory && d2.is_shadow_memory)) [
      | inl b ↦ rw b walked
      | inr b ↦ rw b (record { keeps1 = refl; keeps2 = refl })
    ]

mixed-keeps :
    (m : MemOpInfo) (d : DynamicOpInfo) (i : EventIdxInfo)
    → (is_mixed_overlap m d i).1.event_idx ≡ i.event_idx
unfolding is_mixed_overlap
mixed-keeps m d i = ground arith

space-Keeps :
    (e1 e2 : MemEvent) (i1 i2 : EventIdxInfo) → Keeps i1 i2 (is_mem_space_overlap e1 e2 i1 i2)
unfolding is_mem_space_overlap
space-Keeps e1 e2 i1 i2 =
    let both = dynamic-Keeps e1.dynamic_mem_info e2.dynamic_mem_info i1 i2 in
    let right = mixed-keeps e1.mem_info e2.dynamic_mem_info i2 in
    let left = mixed-keeps e2.mem_info e1.dynamic_mem_info i1 in
    elim (Bool-cases e1.is_dynamic) [
      | inl a ↦ elim (Bool-cases e2.is_dynamic) [
        | inl b ↦ rw (a, b) both
        | inr b ↦ rw (a, b) (record { keeps1 = left; keeps2 = refl })
      ]
      | inr a ↦ elim (Bool-cases e2.is_dynamic) [
        | inl b ↦ rw (a, b) (record { keeps1 = refl; keeps2 = right })
        | inr b ↦ rw (a, b) (record { keeps1 = refl; keeps2 = refl })
      ]
    ]

guard-Keeps :
    (b : Bool) (i1 i2 : EventIdxInfo) (f : Found)
    → Keeps i1 i2 f
    → Keeps i1 i2 (if b then no_race i1 i2 else f)
guard-Keeps true i1 i2 f k = record { keeps1 = refl; keeps2 = refl }
guard-Keeps false i1 i2 f k = k

check_pair-Keeps :
    (t : RaceCheckType) (names : KernelNames) (m : MemEventChecker) (e1 e2 : MemEvent)
    (i1 i2 : EventIdxInfo)
    → Keeps i1 i2 (check_pair t names m e1 e2 i1 i2)
unfolding check_pair is_inner_core_race_event is_single_pipe_race_event is_cross_core_race_event
    is_cross_npu_race_event
check_pair-Keeps single_block_check names m e1 e2 i1 i2 = guard-Keeps (same_pipe e1 e2) i1 i2 _ (
    guard-Keeps (are_ordered single_block_check m e1 e2) i1 i2 _
      (guard-Keeps (is_atomic_against e1 e2) i1 i2 _ (space-Keeps e1 e2 i1 i2)))
check_pair-Keeps single_pipe_check names m e1 e2 i1 i2 =
    guard-Keeps (not (same_mem_type e1.mem_info.mem_type e2.mem_info.mem_type)) i1 i2 _ (
      guard-Keeps (not (same_pipe e1 e2)) i1 i2 _ (
        guard-Keeps (e1.serial_no == e2.serial_no) i1 i2 _ (
          guard-Keeps (is_atomic_against e1 e2) i1 i2 _ (
            guard-Keeps
              (ltb max_serial_number_diff (
                if ltb e2.pipe_serial_no e1.pipe_serial_no
                then e1.pipe_serial_no - e2.pipe_serial_no
                else e2.pipe_serial_no - e1.pipe_serial_no))
              i1 i2 _
              (guard-Keeps (not (e1.barrier_no == e2.barrier_no)) i1 i2 _
                (space-Keeps e1 e2 i1 i2))))))
check_pair-Keeps cross_block_check names m e1 e2 i1 i2 =
    guard-Keeps
      ((e1.loc.core_id == e2.loc.core_id)
        && (block_type_index e1.loc.block_type == block_type_index e2.loc.block_type))
      i1 i2 _
      (guard-Keeps (are_ordered cross_block_check m e1 e2) i1 i2 _
        (guard-Keeps (is_atomic_against e1 e2) i1 i2 _ (space-Keeps e1 e2 i1 i2)))
check_pair-Keeps cross_npu_check names m e1 e2 i1 i2 =
    guard-Keeps (e1.loc.device_id == e2.loc.device_id) i1 i2 _ (
      guard-Keeps
        (not (
          is_not_happens_before e1.vt e2.vt (expand_pipe_idx e1 m.block_num)
            (expand_pipe_idx e2 m.block_num)))
        i1 i2 _
        (guard-Keeps
          (not (
            same_kernel (names e1.loc.device_id e1.loc.kernel_idx)
              (names e2.loc.device_id e2.loc.kernel_idx)))
          i1 i2 _ (space-Keeps e1 e2 i1 i2)))

same_mem_type-eq : (a b : MemType) → same_mem_type a b ≡ true → a ≡ b
same_mem_type-eq a b h = ground arith

module _ (names : KernelNames) (m : MemEventChecker) where
  -- An entry of a history: an access of its memory type, with a further property.
  abbrev pub Entries : (MemEvent → Type 0) → History → Type 0
  Entries Q h = All (λ x. (e : MemEvent) × (event_at m x.1 ≡ some e) × (lies_in e ≡ x.0) × Q e) h

  -- A pair on which the check of `e1` with an access of the memory type `t` answered `true`.
  pub record Hit (t : MemType) (Q : MemEvent → Type 0) (e1 : MemEvent)
      (p : EventIdxInfo × EventIdxInfo) : Type 0 where
    pub other : MemEvent
    pub first_is : event_at m p.0.event_idx ≡ some e1
    pub other_is : event_at m p.1.event_idx ≡ some other
    pub lies : lies_in other ≡ t
    pub quality : Q other
    pub idx1 : EventIdxInfo
    pub idx2 : EventIdxInfo
    pub checked : (check_pair m.check_type names m e1 other idx1 idx2).0 ≡ true

  pub check_exist-Hit :
      (t : MemType) (Q : MemEvent → Type 0) (e1 : MemEvent) (h : History) (i1 i2 : EventIdxInfo)
      → event_at m i1.event_idx ≡ some e1
      → Entries Q h
      → All (Hit t Q e1) (check_exist names m t h i1 i2)
  unfolding check_exist
  check_exist-Hit t Q e1 [] i1 i2 f en = tt
  check_exist-Hit t Q e1 (x ∷ h) i1 i2 f en =
      let (e, at_x, lies, qual) = en.0 in
      let i2' = record i2 { event_idx = x.1 } in
      let c = check_pair m.check_type names m e1 e i1 i2' in
      let kept : Keeps i1 i2' c = check_pair-Keeps m.check_type names m e1 e i1 i2' in
      let first : event_at m c.1.event_idx ≡ some e1 = ap (event_at m) kept.keeps1 ∙ f in
      let rest = check_exist-Hit t Q e1 h c.1 c.2 first en.1 in
      elim (Bool-cases (same_mem_type x.0 t)) [
        | inr b ↦ rw (check_exist, b) (check_exist-Hit t Q e1 h i1 i2 f en.1)
        | inl b ↦ elim (Bool-cases c.0) [
          | inr d ↦ rw (check_exist, b, f, at_x, d) rest
          | inl d ↦
              rw (check_exist, b, f, at_x, d)
                (
                  record {
                    other = e;
                    first_is = first;
                    other_is = ap (event_at m) kept.keeps2 ∙ at_x;
                    lies = lies ∙ same_mem_type-eq x.0 t b;
                    quality = qual;
                    idx1 = i1;
                    idx2 = i2';
                    checked = d;
                  },
                  rest,
                )
        ]
      ]
