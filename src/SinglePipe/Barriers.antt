-- ===== src/SinglePipe/Barriers.antt =====
-- How csrc/race_sanitizer/alg_framework/single_pipe_race_alg_impl.cpp counts the barriers of a pipe.
use ascend_mssanitizer.Base.{
  ◌==◌, ℕ, ◌<◌, ◌∷◌, ◌^◌, ◌≡◌, ◌&&◌, if◌then◌else◌, List, length, [], ◌+◌, set, refl, arith, inl,
  get_or-set_self, inr, length-set, ==_iff, get_or-set_ne, ◌∙◌, sym, subst, get_or, Bool-cases, suc,
  ◌≤◌, Bool,
}
use ascend_mssanitizer.SinglePipe.{
  is_pipe_barrier, process_single_info, SinglePipeState, pipe_num, process_single_sync_event,
  barriers_at, process_single_mem_event, count_serial, is_left_out,
}
use ascend_mssanitizer.Event.{
  SyncOpInfo, EventInfo, SanEvent, sync_event, mem_event, PipeType, pipe_index,
}
use ascend_mssanitizer.Base.Words.{u32}

-- The handler's state after events, one after another.
unfoldable pub handle_single : List SanEvent → SinglePipeState → SinglePipeState
handle_single [] r = r
handle_single (e ∷ es) r = handle_single es (process_single_info e.info e r)

abbrev on_pipe : PipeType → SanEvent → Bool
on_pipe p e = pipe_index e.pipe == pipe_index p

abbrev barrier_of : PipeType → SanEvent → EventInfo → ℕ
barrier_of p e (sync_event s) = if is_pipe_barrier s.op_type && on_pipe p e then 1 else 0
barrier_of p e _ = 0

-- The pipe barriers among events on a pipe.
pub barrier_count : PipeType → List SanEvent → ℕ
barrier_count p [] = 0
barrier_count p (e ∷ es) = barrier_of p e e.info + barrier_count p es

pipe_index_small : (p : PipeType) → pipe_index p ≤ 12
unfolding pipe_index
pipe_index_small p = ground arith

-- Each pipe has a counter of its own, and the scalar pipe has none.
same_counter :
    (p q : PipeType) (n : ℕ)
    → pipe_index p ≡ suc n
    → (pipe_num q == n) ≡ (pipe_index q == pipe_index p)
unfolding pipe_num
same_counter p q n h = ground (arith, h, pipe_index_small p, pipe_index_small q)

-- The counters of `r'` after an event on `r`: `k` barriers more at `n`, and as many pipes.
abbrev Counted : ℕ → ℕ → SinglePipeState → SinglePipeState → Type 0
Counted n k r r' =
    (barriers_at r' n ≡ u32 (barriers_at r n + k))
    × (length r'.counters.barriers ≡ length r.counters.barriers)

same-Counted : (n : ℕ) (r : SinglePipeState) → barriers_at r n < 2 ^ 32 → Counted n 0 r r
same-Counted n r small = (omega (arith, small), refl)

sync-Counted :
    (n : ℕ) (p : PipeType) (s : SyncOpInfo) (e : SanEvent) (r : SinglePipeState)
    → pipe_index p ≡ suc n
    → n < length r.counters.barriers
    → barriers_at r n < 2 ^ 32
    → Counted n (barrier_of p e (sync_event s)) r (process_single_sync_event s e.pipe r)
unfolding process_single_sync_event
sync-Counted n p s e r at h small =
    let bs = r.counters.barriers in
    let j = pipe_num e.pipe in
    let own = same_counter p e.pipe n at in
    elim (Bool-cases (is_pipe_barrier s.op_type)) [
      | inr b ↦ rw b (same-Counted n r small)
      | inl b ↦ elim (Bool-cases (j == n)) [
        | inl here ↦
            let mine = sym own ∙ here in
            let same : j ≡ n = ground (arith, here, ==_iff j n) in
            rw (b, mine)
              (
                subst
                    (λ i. get_or (set bs i (u32 (get_or bs i 0 + 1))) n 0 ≡ u32 (get_or bs n 0 + 1))
                    (sym same) (get_or-set_self bs n (u32 (get_or bs n 0 + 1)) 0 h),
                length-set bs j (u32 (get_or bs j 0 + 1)),
              )
        | inr away ↦
            let other = sym own ∙ away in
            rw (b, other)
              (
                get_or-set_ne bs j n (u32 (get_or bs j 0 + 1)) 0
                      (λ same. ground (arith, away, same, ==_iff j n))
                    ∙ (same-Counted n r small).0,
                length-set bs j (u32 (get_or bs j 0 + 1)),
              )
      ]
    ]

mem-Counted :
    (n : ℕ) (e : SanEvent) (r : SinglePipeState)
    → barriers_at r n < 2 ^ 32
    → Counted n 0 r (process_single_mem_event e r)
unfolding process_single_mem_event count_serial
mem-Counted n e r small =
    elim (Bool-cases (get_or r.counters.last_serial (pipe_num e.pipe) 0 == e.serial_no)) [
      | inl b ↦ rw b (same-Counted n r small)
      | inr b ↦ rw b (same-Counted n r small)
    ]

info-Counted :
    (n : ℕ) (p : PipeType) (x : EventInfo) (e : SanEvent) (r : SinglePipeState)
    → pipe_index p ≡ suc n
    → n < length r.counters.barriers
    → barriers_at r n < 2 ^ 32
    → Counted n (barrier_of p e x) r (process_single_info x e r)
unfolding process_single_info
info-Counted n p (sync_event s) e r at h small = sync-Counted n p s e r at h small
info-Counted n p (mem_event m) e r at h small =
    elim (Bool-cases (is_left_out r.device_type e.pipe)) [
      | inl b ↦ rw b (same-Counted n r small)
      | inr b ↦ rw b (mem-Counted n e r small)
    ]
info-Counted n p _ e r at h small = same-Counted n r small

-- For a pipe other than the scalar one whose counter is there and holds a uint32_t: after any events, the
-- counter has gone up by the pipe barriers among them on that pipe, modulo 2 ^ 32.
pub handle_single-barriers :
    (p : PipeType) (n : ℕ) (es : List SanEvent) (r : SinglePipeState)
    → pipe_index p ≡ suc n
    → n < length r.counters.barriers
    → barriers_at r n < 2 ^ 32
    → barriers_at (handle_single es r) n ≡ u32 (barriers_at r n + barrier_count p es)
unfolding handle_single barrier_count
handle_single-barriers p n [] r at h small = omega (arith, small)
handle_single-barriers p n (e ∷ es) r at h small =
    let r' = process_single_info e.info e r in
    let (step, len) = info-Counted n p e.info e r at h small in
    let later = handle_single-barriers p n es r' at (omega (arith, h, len)) (omega (arith, step)) in
    omega (arith, later, step)
