-- ===== src/CrossCore/Marks.antt =====
-- The mstx marks and the software events of
-- csrc/race_sanitizer/alg_framework/cross_core_sync_info_container.cpp as queues and slots.
use ascend_mssanitizer.Event.{VectorTime, MstxCrossInfo}
use ascend_mssanitizer.Base.{
  some, inr, false, List, [], ◌∷◌, inl, arith, ◌≡◌, Bool-cases, All, is_empty, ℕ, set,
  if◌then◌else◌, Option, length, none, get_or-set_self, ◌<◌, ◌++◌, leb, refl,
}
use ascend_mssanitizer.Base.Assoc.{insert, queue_of, lookup, erase, lookup-erase, lookup-insert}
use ascend_mssanitizer.CrossCore.State.{CrossCoreSyncInfoContainer, no_soft_info}
use ascend_mssanitizer.CrossCore.Soft.{
  pair_beq, pair_eq, int_eq, same_ℤ_iff, set_block_soft_sync_info, mstx_key, set_mstx_cross_info,
  take_mstx, get_block_soft_sync_info, pair_beq_iff, get_mstx_cross_info, soft_at,
}
use ascend_mssanitizer.Base.Int.{ℤ}
use ascend_mssanitizer.Clock.{update_vector_time}

-- The times that wait for a mark, oldest first.
abbrev pub mark_times : CrossCoreSyncInfoContainer → ℕ × ℕ → List VectorTime
mark_times c k = queue_of (lookup k c.mstx_cross_set_map)

abbrev Marks : Type 0
Marks = List ((ℕ × ℕ) × List VectorTime)

-- No mark is kept with an empty queue.
abbrev pub NoEmptyMark : CrossCoreSyncInfoContainer → Type 0
NoEmptyMark c = All (λ entry. is_empty entry.1 ≡ false) c.mstx_cross_set_map

insert-All :
    (P : (ℕ × ℕ) × List VectorTime → Type 0) (k : ℕ × ℕ) (v : List VectorTime) (x : Marks)
    → ((j : ℕ × ℕ) → P (j, v))
    → All P x
    → All P (insert k v x)
unfolding insert
insert-All P k v [] p a = (p k, tt)
insert-All P k v ((j, w) ∷ x) p a = elim (Bool-cases (pair_beq j k)) [
  | inl b ↦ rw b (p j, a.1)
  | inr b ↦ rw b (a.0, insert-All P k v x p a.1)
]

erase-All :
    (P : (ℕ × ℕ) × List VectorTime → Type 0) (k : ℕ × ℕ) (x : Marks) → All P x → All P (erase k x)
unfolding erase
erase-All P k [] a = tt
erase-All P k ((j, w) ∷ x) a = elim (Bool-cases (pair_beq j k)) [
  | inl b ↦ rw b (erase-All P k x a.1)
  | inr b ↦ rw b (a.0, erase-All P k x a.1)
]

abbrev Full : Option (List VectorTime) → Type 0
Full none = Unit
Full (some q) = is_empty q ≡ false

lookup-Full :
    (k : ℕ × ℕ) (x : Marks) → All (λ entry. is_empty entry.1 ≡ false) x → Full (lookup k x)
unfolding lookup
lookup-Full k [] a = tt
lookup-Full k ((j, w) ∷ x) a = elim (Bool-cases (pair_beq j k)) [
  | inl b ↦ rw b (a.0)
  | inr b ↦ rw b (lookup-Full k x a.1)
]

-- What a wait on the mark `k` did from `c`, for a caller at the time `vt`: no time was pending there
-- and it is blocked; or it took the oldest, joined it to the caller's, and left every other mark.
pub data Passed (k : ℕ × ℕ) (vt : VectorTime) (c : CrossCoreSyncInfoContainer)
    : Option (VectorTime × CrossCoreSyncInfoContainer) → Type 0 where
  blocked : mark_times c k ≡ [] → Passed k vt c none
  passed :
      (t : VectorTime) (c' : CrossCoreSyncInfoContainer)
      → ((j : ℕ × ℕ)
          → mark_times c j ≡ (if pair_beq k j then t ∷ mark_times c' j else mark_times c' j))
      → NoEmptyMark c'
      → Passed k vt c (some (update_vector_time t vt, c'))

take_mstx-Passed :
    (k : ℕ × ℕ) (vt : VectorTime) (c : CrossCoreSyncInfoContainer) (o : Option (List VectorTime))
    → NoEmptyMark c
    → lookup k c.mstx_cross_set_map ≡ o
    → Full o
    → Passed k vt c (take_mstx k vt c o)
take_mstx-Passed k vt c none n h f = blocked (rw h refl)
take_mstx-Passed k vt c (some []) n h f = ground (arith, f)
take_mstx-Passed k vt c (some (t ∷ [])) n h f =
    let x = c.mstx_cross_set_map in
    passed t (record c { mstx_cross_set_map = erase k x })
      (λ j. ground (arith, h, lookup-erase k j x, pair_beq_iff k j)) (erase-All _ k x n)
take_mstx-Passed k vt c (some (t ∷ u ∷ rest)) n h f =
    let x = c.mstx_cross_set_map in
    passed t (record c { mstx_cross_set_map = insert k (u ∷ rest) x })
      (λ j. ground (arith, h, lookup-insert k j (u ∷ rest) x, pair_beq_iff k j))
      (insert-All _ k (u ∷ rest) x (λ j. refl) n)

-- For a container that keeps no mark with an empty queue: a wait takes the oldest time that is pending
-- at its address and flag, joins it to the caller's and leaves every other mark as it was, and the
-- container still keeps no empty queue; it is blocked exactly when no time is pending there.
pub get_mstx_cross_info-Passed :
    (m : MstxCrossInfo) (vt : VectorTime) (c : CrossCoreSyncInfoContainer)
    → NoEmptyMark c
    → Passed (mstx_key m) vt c (get_mstx_cross_info m vt c)
unfolding get_mstx_cross_info
get_mstx_cross_info-Passed m vt c n =
    take_mstx-Passed (mstx_key m) vt c (lookup (mstx_key m) c.mstx_cross_set_map) n refl
      (lookup-Full (mstx_key m) c.mstx_cross_set_map n)

-- A set puts its time at the end of its mark's queue and leaves every other mark.
pub mark_times-set_mstx_cross_info :
    (m : MstxCrossInfo) (k : ℕ × ℕ) (vt : VectorTime) (c : CrossCoreSyncInfoContainer)
    → mark_times (set_mstx_cross_info m vt c) k
      ≡ (if pair_beq (mstx_key m) k then mark_times c (mstx_key m) ++ vt ∷ [] else mark_times c k)
unfolding set_mstx_cross_info
mark_times-set_mstx_cross_info m k vt c = ground (
  arith,
  lookup-insert (mstx_key m) k (mark_times c (mstx_key m) ++ vt ∷ []) c.mstx_cross_set_map,
)

abbrev pub outcome_time : Option (VectorTime × CrossCoreSyncInfoContainer) → Option VectorTime
outcome_time none = none
outcome_time (some (vt, _)) = some vt

-- The container after a software event was set on one of its blocks.
set_soft_lem :
    (event : ℤ) (block : ℕ) (vt : VectorTime) (c : CrossCoreSyncInfoContainer)
    → block < c.max_block_num
    → set_block_soft_sync_info event block vt c ≡ record c {
      block_soft_sync_info = set c.block_soft_sync_info block (record (soft_at c block) {
        map_vector_time = insert event vt (soft_at c block).map_vector_time;
      });
    }
unfolding set_block_soft_sync_info
set_soft_lem event block vt c h =
    let inside : leb c.max_block_num block ≡ false = ground (arith, h) in rw inside refl

-- For a container that has a slot for each of its blocks, and one of these blocks: after a software
-- event was set on the block, waiting for it there passes and joins the time of the set to the
-- caller's.
pub get_soft-set_soft :
    (event : ℤ) (block : ℕ) (vt self : VectorTime) (c : CrossCoreSyncInfoContainer)
    → length c.block_soft_sync_info ≡ c.max_block_num
    → block < c.max_block_num
    → outcome_time
        (get_block_soft_sync_info event block self (set_block_soft_sync_info event block vt c))
      ≡ some (update_vector_time vt self)
unfolding get_block_soft_sync_info
get_soft-set_soft event block vt self c len h =
    let s = soft_at c block in
    let new = record s { map_vector_time = insert event vt s.map_vector_time } in
    let inside : leb c.max_block_num block ≡ false = ground (arith, h) in
    let slot : soft_at (record c { block_soft_sync_info = set c.block_soft_sync_info block new })
          block
        ≡ new =
      get_or-set_self c.block_soft_sync_info block new no_soft_info (omega (arith, len, h)) in
    let there : lookup event (insert event vt s.map_vector_time) ≡ some vt =
      ground (arith, lookup-insert event event vt s.map_vector_time, same_ℤ_iff event event) in
    rw (set_soft_lem event block vt c h, inside, slot, there) refl
