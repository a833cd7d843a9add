-- ===== src/CrossCore/Groups.antt =====
-- Mode 2 of the flags of csrc/race_sanitizer/alg_framework/cross_core_sync_info_container.cpp, with two
-- vector cores to a cube core.
use ascend_mssanitizer.CrossCore.Flags.{
  set_in_mode, set_mode2_sync_info, set_block_sync_info, push_set2, block_before, pop_set2,
  push_wait,
}
use ascend_mssanitizer.Event.{mix, VectorTime, mode2, c220_vec_sub_blockdim, c220_mix_sub_blockdim}
use ascend_mssanitizer.Base.{
  get_or, ◌+◌, [], set, ◌≢◌, get_or-set_self, ◌==◌, ◌≤◌, get_or-set_ne, arith, ◌++◌, ◌%◌,
  if◌then◌else◌, ◌^◌, ◌<◌, ap, length-set, All-set, suc, ◌∷◌, ◌∙◌, All, zero, List, ℕ, length, ◌≡◌,
  ◌||◌, leb, false, Bool-cases, true, inl, sym, inr, ltb, refl, ==_iff, subst,
}
use ascend_mssanitizer.CrossCore.State.{
  max_flag_id, BlockSyncInfo, CrossCoreSyncInfoContainer, no_sync_info, sync_at, flags_at, at_sync,
  is_aic,
}

-- A slot for each flag of each block.
pub record IsSized (c : CrossCoreSyncInfoContainer) : Type 0 where
  pub blocks : length c.block_sync_event ≡ c.max_block_num
  pub slots : All (λ flags. length flags ≡ max_flag_id) c.block_sync_event

All-at :
    (P : List BlockSyncInfo → Type 0) (xs : List (List BlockSyncInfo)) (i : ℕ)
    → i < length xs
    → All P xs
    → P (get_or xs i [])
All-at P [] i h a = elim h [ ]
All-at P (x ∷ xs) zero h a = a.0
All-at P (x ∷ xs) (suc i) h a = All-at P xs i (omega arith) a.1

flags_at-length :
    (c : CrossCoreSyncInfoContainer) (b : ℕ)
    → IsSized c
    → b < c.max_block_num
    → length (flags_at c b) ≡ max_flag_id
flags_at-length c b s h =
    All-at (λ flags. length flags ≡ max_flag_id) c.block_sync_event b (omega (arith, h, s.blocks))
      s.slots

at_sync-IsSized :
    (b f : ℕ) (g : BlockSyncInfo → BlockSyncInfo) (c : CrossCoreSyncInfoContainer)
    → b < c.max_block_num
    → IsSized c
    → IsSized (at_sync b f g c)
unfolding at_sync
at_sync-IsSized b f g c h s =
    let new = set (flags_at c b) f (g (sync_at c b f)) in
    record {
      blocks = length-set c.block_sync_event b new ∙ s.blocks;
      slots =
          All-set _ c.block_sync_event b new s.slots
            (length-set (flags_at c b) f (g (sync_at c b f)) ∙ flags_at-length c b s h);
    }

sync_at_self :
    (b f : ℕ) (g : BlockSyncInfo → BlockSyncInfo) (c : CrossCoreSyncInfoContainer)
    → b < c.max_block_num
    → f < max_flag_id
    → IsSized c
    → sync_at (at_sync b f g c) b f ≡ g (sync_at c b f)
unfolding at_sync
sync_at_self b f g c h hf s =
    let new = set (flags_at c b) f (g (sync_at c b f)) in
    let row = get_or-set_self c.block_sync_event b new [] (omega (arith, h, s.blocks)) in
    ap (λ r. get_or r f no_sync_info) row
    ∙ get_or-set_self (flags_at c b) f (g (sync_at c b f)) no_sync_info
        (omega (arith, hf, flags_at-length c b s h))

sync_at_other :
    (b f b' f' : ℕ) (g : BlockSyncInfo → BlockSyncInfo) (c : CrossCoreSyncInfoContainer)
    → b ≢ b'
    → sync_at (at_sync b f g c) b' f' ≡ sync_at c b' f'
unfolding at_sync
sync_at_other b f b' f' g c ne =
    ap (λ r. get_or r f' no_sync_info)
      (get_or-set_ne c.block_sync_event b b' (set (flags_at c b) f (g (sync_at c b f))) [] ne)

-- The times that wait for a block at a flag.
abbrev pub waiting : CrossCoreSyncInfoContainer → ℕ → ℕ → List VectorTime
waiting c block flag = (sync_at c block flag).wait_vec

at_sync-max :
    (b f : ℕ) (g : BlockSyncInfo → BlockSyncInfo) (c : CrossCoreSyncInfoContainer)
    → (at_sync b f g c).max_block_num ≡ c.max_block_num
unfolding at_sync
at_sync-max b f g c = refl

-- A block and a flag of a container of `n` blocks with all its slots.
pub record InRange (n b f : ℕ) (c : CrossCoreSyncInfoContainer) : Type 0 where
  pub sized : IsSized c
  pub block_in : b < n
  pub flag_in : f < max_flag_id
  pub max_is : c.max_block_num ≡ n

at_sync-InRange :
    (n b f b' : ℕ) (g : BlockSyncInfo → BlockSyncInfo) (c : CrossCoreSyncInfoContainer)
    → InRange n b f c
    → b' < n
    → InRange n b' f (at_sync b f g c)
at_sync-InRange n b f b' g c r h = record {
  sized = at_sync-IsSized b f g c (omega (arith, r.block_in, r.max_is)) r.sized;
  block_in = h;
  flag_in = r.flag_in;
  max_is = at_sync-max b f g c ∙ r.max_is;
}

self_in :
    (n b f : ℕ) (g : BlockSyncInfo → BlockSyncInfo) (c : CrossCoreSyncInfoContainer)
    → InRange n b f c
    → waiting (at_sync b f g c) b f ≡ (g (sync_at c b f)).wait_vec
self_in n b f g c r =
    ap (λ s. s.wait_vec)
      (sync_at_self b f g c (omega (arith, r.block_in, r.max_is)) r.flag_in r.sized)

other_in :
    (b f o : ℕ) (g : BlockSyncInfo → BlockSyncInfo) (c : CrossCoreSyncInfoContainer)
    → (o == b) ≡ false
    → waiting (at_sync b f g c) o f ≡ waiting c o f
other_in b f o g c ne =
    ap (λ s. s.wait_vec) (sync_at_other b f o f g c (λ e. ground (arith, ne, sym e, ==_iff o b)))

-- A change of a slot that leaves its waiting times alone.
waiting-keep :
    (n b f o : ℕ) (g : BlockSyncInfo → BlockSyncInfo) (c : CrossCoreSyncInfoContainer)
    → InRange n b f c
    → ((s : BlockSyncInfo) → (g s).wait_vec ≡ s.wait_vec)
    → waiting (at_sync b f g c) o f ≡ waiting c o f
waiting-keep n b f o g c r keeps = elim (Bool-cases (o == b)) [
  | inr ne ↦ other_in b f o g c ne
  | inl e ↦
      let same : o ≡ b = ground (arith, e, ==_iff o b) in
      subst (λ x. waiting (at_sync b f g c) x f ≡ waiting c x f) (sym same)
        (self_in n b f g c r ∙ keeps (sync_at c b f))
]

-- A time for a block.
waiting-push :
    (n b f o : ℕ) (vt : VectorTime) (c : CrossCoreSyncInfoContainer)
    → InRange n b f c
    → waiting (at_sync b f (push_wait vt) c) o f
      ≡ (if o == b then waiting c o f ++ vt ∷ [] else waiting c o f)
waiting-push n b f o vt c r = elim (Bool-cases (o == b)) [
  | inr ne ↦ rw ne (other_in b f o (push_wait vt) c ne)
  | inl e ↦
      let same : o ≡ b = ground (arith, e, ==_iff o b) in
      rw e (
        subst (λ x. waiting (at_sync b f (push_wait vt) c) x f ≡ waiting c x f ++ vt ∷ [])
          (sym same) (self_in n b f (push_wait vt) c r))
]

-- What a cube core's set in mode 2 does.
abbrev mode2_cube : ℕ → ℕ → VectorTime → CrossCoreSyncInfoContainer → CrossCoreSyncInfoContainer
mode2_cube flag block vt c = at_sync block flag pop_set2 (
    at_sync (block_before block 2) flag (push_wait vt)
      (at_sync (block_before block 1) flag (push_wait vt) (at_sync block flag (push_set2 vt) c)))

mode2_cube_lem :
    (flag block dim : ℕ) (vt : VectorTime) (c : CrossCoreSyncInfoContainer)
    → c.kernel_type ≡ mix
    → block % c220_mix_sub_blockdim ≡ c220_vec_sub_blockdim
    → block < c.max_block_num
    → flag < max_flag_id
    → 2 ≤ dim
    → set_block_sync_info flag mode2 block vt dim c ≡ mode2_cube flag block vt c
unfolding set_block_sync_info set_in_mode set_mode2_sync_info
mode2_cube_lem flag block dim vt c k cube inside hf two =
    let flag_ok : ltb max_flag_id flag ≡ false = ground (arith, hf) in
    let block_ok : leb c.max_block_num block ≡ false = ground (arith, inside) in
    let some_dim : (dim == 0) ≡ false = ground (arith, two) in
    let not_one : (dim == 1) ≡ false = ground (arith, two) in
    let aic : is_aic block c.kernel_type ≡ true = rw (k, cube) refl in
    rw (flag_ok, block_ok, some_dim, not_one, aic) refl

-- In a mixed kernel, for a cube core of the container and a flag below 32: a set in mode 2 with two
-- vector cores puts its time at the end of the queue of each of the two vector cores of its group, and
-- of no other block.
pub waiting-set_mode2_cube :
    (flag block other dim : ℕ) (vt : VectorTime) (c : CrossCoreSyncInfoContainer)
    → IsSized c
    → c.kernel_type ≡ mix
    → block % c220_mix_sub_blockdim ≡ c220_vec_sub_blockdim
    → block < c.max_block_num
    → c.max_block_num < 2 ^ 32
    → flag < max_flag_id
    → 2 ≤ dim
    → waiting (set_block_sync_info flag mode2 block vt dim c) other flag ≡ (
        if (other + 1 == block) || (other + 2 == block)
        then waiting c other flag ++ vt ∷ []
        else waiting c other flag)
waiting-set_mode2_cube flag block other dim vt c s k cube inside small hf two =
    let n = c.max_block_num in
    let p = block_before block 1 in
    let q = block_before block 2 in
    let p_is : p + 1 ≡ block = omega (arith, cube, inside, small) in
    let q_is : q + 2 ≡ block = omega (arith, cube, inside, small) in
    let c1 = at_sync block flag (push_set2 vt) c in
    let c2 = at_sync p flag (push_wait vt) c1 in
    let c3 = at_sync q flag (push_wait vt) c2 in
    let r0 : InRange n block flag c = record {
      sized = s;
      block_in = inside;
      flag_in = hf;
      max_is = refl;
    } in
    let r1 = at_sync-InRange n block flag p (push_set2 vt) c r0 (omega (arith, p_is, inside)) in
    let r2 = at_sync-InRange n p flag q (push_wait vt) c1 r1 (omega (arith, q_is, inside)) in
    let r3 = at_sync-InRange n q flag block (push_wait vt) c2 r2 inside in
    let w1 = waiting-keep n block flag other (push_set2 vt) c r0 (λ x. refl) in
    let w2 = waiting-push n p flag other vt c1 r1 in
    let w3 = waiting-push n q flag other vt c2 r2 in
    let w4 = waiting-keep n block flag other pop_set2 c3 r3 (λ x. refl) in
    let whole =
      ap (λ x. waiting x other flag) (mode2_cube_lem flag block dim vt c k cube inside hf two) in
    whole
    ∙ w4
    ∙ collect (waiting c other flag) (waiting c1 other flag) (waiting c2 other flag)
        (waiting c3 other flag) p_is q_is w1 w2 w3
  where
    collect :
        (old v1 v2 v3 : List VectorTime)
        → block_before block 1 + 1 ≡ block
        → block_before block 2 + 2 ≡ block
        → v1 ≡ old
        → v2 ≡ (if other == block_before block 1 then v1 ++ vt ∷ [] else v1)
        → v3 ≡ (if other == block_before block 2 then v2 ++ vt ∷ [] else v2)
        → v3 ≡ (if (other + 1 == block) || (other + 2 == block) then old ++ vt ∷ [] else old)
    collect old v1 v2 v3 pi qi e1 e2 e3 = ground (arith, pi, qi, e1, e2, e3)
