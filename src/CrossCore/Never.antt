-- ===== src/CrossCore/Never.antt =====
-- `SyncAll` of csrc/race_sanitizer/alg_framework/cross_core_sync_info_container.cpp over a whole run
-- of calls.
use ascend_mssanitizer.CrossCore.Soft.{
  join_sync_all, begin_sync_all, finish_sync_all, sync_all, sync_all_on, soft_at, clear_sync_all,
}
use ascend_mssanitizer.Base.{
  List, ◌≢◌, ◌∷◌, false, ◌⊎◌, ◌≡◌, ℕ, Bool, ◌≤◌, ◌<◌, inr, length, ◌==◌, Bool-cases, ltb, inl, not,
  arith, length-set, All, suc, true, [], map, get_or-set_self, ◌∙◌, refl, ap, ◌&&◌,
}
use ascend_mssanitizer.CrossCore.State.{
  CrossCoreSyncInfoContainer, sem_reset, is_sem_finished, no_soft_info, remain_sync_all_count,
  BlockSoftSyncInfo,
}
use ascend_mssanitizer.Base.Int.{pos}
use ascend_mssanitizer.Base.Words.{u8}
use ascend_mssanitizer.Event.{VectorTime}

-- Calls of `SyncAll` with one number of used cores, one after another: the block, the pipe and the
-- time of each. The result is that of each call.
unfoldable pub sync_all_calls :
    ℕ → List (ℕ × ℕ × VectorTime) → CrossCoreSyncInfoContainer → List Bool
sync_all_calls n [] c = []
sync_all_calls n ((block, pipe, vt) ∷ calls) c =
    let (done, _, c') = sync_all block (pos n) pipe vt c in done ∷ sync_all_calls n calls c'

-- No round is open, or one of `n` cores in which no core has been let through; the container has
-- `k` blocks.
pub record Waiting (n k : ℕ) (c : CrossCoreSyncInfoContainer) : Type 0 where
  pub sem : (c.sem_cores ≡ sem_reset 0) ⊎ (c.sem_cores ≡ sem_reset n)
  pub room : n ≤ c.max_block_num
  pub blocks : length c.block_soft_sync_info ≡ k

length-map :
    (f : BlockSoftSyncInfo → BlockSoftSyncInfo) (xs : List BlockSoftSyncInfo)
    → length (map f xs) ≡ length xs
length-map f [] = refl
length-map f (x ∷ xs) = ap suc (length-map f xs)

begin-Waiting :
    (n k : ℕ) (c : CrossCoreSyncInfoContainer)
    → Waiting n k c
    → Waiting n k (begin_sync_all n c) × ((begin_sync_all n c).sem_cores ≡ sem_reset n)
unfolding begin_sync_all
begin-Waiting n k c w = elim (Bool-cases (is_sem_finished c.sem_cores)) [
  | inl f ↦ rw f (
    record {
      sem = inr refl;
      room = w.room;
      blocks = length-map clear_sync_all c.block_soft_sync_info ∙ w.blocks;
    },
    refl,
  )
  | inr f ↦ rw f (w, elim w.sem [ inl e ↦ ground (arith, e, f) | inr e ↦ e ])
]

join-Waiting :
    (n k block pipe : ℕ) (vt : VectorTime) (c : CrossCoreSyncInfoContainer)
    → block < k
    → Waiting n k c
    → Waiting n k (join_sync_all block pipe vt c).1
      × ((join_sync_all block pipe vt c).1.sem_cores ≡ c.sem_cores)
      × ((soft_at (join_sync_all block pipe vt c).1 block).sync_all ≡ true)
unfolding join_sync_all
join-Waiting n k block pipe vt c h w = elim (Bool-cases (soft_at c block).sync_all) [
  | inl s ↦ rw s (w, refl, s)
  | inr s ↦
      let mine = record (soft_at c block) { sync_all = true; pipe_idx = pipe } in
      let kept = length-set c.block_soft_sync_info block mine in
      let here : block < length c.block_soft_sync_info = omega (arith, h, w.blocks) in
      rw s (
        record { sem = w.sem; room = w.room; blocks = kept ∙ w.blocks },
        refl,
        ap (λ x. x.sync_all) (get_or-set_self c.block_soft_sync_info block mine no_soft_info here),
      )
]

finish_blocked :
    (n block : ℕ) (vt : VectorTime) (c : CrossCoreSyncInfoContainer)
    → u8 n ≢ 0
    → c.sem_cores ≡ sem_reset n
    → (soft_at c block).sync_all ≡ true
    → finish_sync_all block (vt, c) ≡ (false, vt, c)
unfolding finish_sync_all
finish_blocked n block vt c odd e s =
    let left : (remain_sync_all_count c.sem_cores == 0) ≡ false = ground (arith, odd, e) in
    rw (s, left) refl

sync_all_on-Waiting :
    (n k block pipe : ℕ) (vt : VectorTime) (c : CrossCoreSyncInfoContainer)
    → u8 n ≢ 0
    → block < k
    → Waiting n k c
    → ((sync_all_on n block pipe vt c).0 ≡ false) × Waiting n k (sync_all_on n block pipe vt c).2
unfolding sync_all_on
sync_all_on-Waiting n k block pipe vt c odd h w =
    let begun = begin-Waiting n k c w in
    let (joined, sem, mine) = join-Waiting n k block pipe vt (begin_sync_all n c) h begun.0 in
    let (vt', c') = join_sync_all block pipe vt (begin_sync_all n c) in
    let stop : finish_sync_all block (vt', c') ≡ (false, vt', c') =
      finish_blocked n block vt' c' odd (sem ∙ begun.1) mine in
    elim (Bool-cases (not (is_sem_finished c.sem_cores) && not (c.sem_cores.cores == n))) [
      | inl b ↦ rw b (refl, w)
      | inr b ↦ rw (b, stop) (refl, joined)
    ]

sync_all-Waiting :
    (n k block pipe : ℕ) (vt : VectorTime) (c : CrossCoreSyncInfoContainer)
    → u8 n ≢ 0
    → block < k
    → Waiting n k c
    → ((sync_all block (pos n) pipe vt c).0 ≡ false)
      × Waiting n k (sync_all block (pos n) pipe vt c).2
unfolding sync_all
sync_all-Waiting n k block pipe vt c odd h w =
    let nonzero : (n == 0) ≡ false = ground (arith, odd) in
    let room : ltb c.max_block_num n ≡ false = ground (arith, w.room) in
    rw (room, nonzero) (sync_all_on-Waiting n k block pipe vt c odd h w)

-- From a container that waits for `n` cores or has no open round, where `n` is at most the number
-- of blocks and no multiple of 256: every one of any run of `SyncAll` calls for `n` cores on blocks
-- of the container is answered `false`, so no core that takes part is ever let through.
pub never_through :
    (n k : ℕ) (calls : List (ℕ × ℕ × VectorTime)) (c : CrossCoreSyncInfoContainer)
    → u8 n ≢ 0
    → All (λ call. call.0 < k) calls
    → Waiting n k c
    → All (λ done. done ≡ false) (sync_all_calls n calls c)
unfolding sync_all_calls
never_through n k [] c odd h w = tt
never_through n k ((block, pipe, vt) ∷ calls) c odd h w =
    let (refused, next) = sync_all-Waiting n k block pipe vt c odd h.0 w in
    (refused, never_through n k calls (sync_all block (pos n) pipe vt c).2 odd h.1 next)
