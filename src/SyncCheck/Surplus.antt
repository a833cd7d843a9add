-- ===== src/SyncCheck/Surplus.antt =====
-- The loop of `Do`: the search for repeated instructions does not touch what the matching keeps.
use ascend_mssanitizer.Base.Assoc.{nat_eq}
use ascend_mssanitizer.Base.{
  List, sym, Bool-cases, ap, ℕ, inr, ◌≡◌, inl, subst, ◌||◌, ◌∷◌, refl, [], ◌==◌, if◌then◌else◌, ◌∙◌,
}
use ascend_mssanitizer.SyncCheck.{
  init_sync, get_pipe_type, check_on_pipe, SyncSanitizer, do_match_check, do_redundancy_check,
  is_target_block_id, do_each, match_info,
}
use ascend_mssanitizer.SyncCheck.Balance.{Balanced, match_each-Balanced, waits, sets, match_each}
use ascend_mssanitizer.Event.{
  SanEvent, sync_event, pipe_size, EventInfo, is_kernel_finish, pipe_index,
}
use ascend_mssanitizer.SinglePipe.{is_pipe_barrier}

-- The events that `Do` hands to the two checks.
unfoldable pub seen : SyncSanitizer → List SanEvent → List SanEvent
seen s [] = []
seen s (e ∷ es) =
    let rest = seen s es in
    if is_kernel_finish e then [] else if is_target_block_id s e.loc.core_id then e ∷ rest else rest

-- The same instructions kept, for the same block.
record Alike (a b : SyncSanitizer) : Type 0 where
  pub events : a.sync_events ≡ b.sync_events
  pub block : a.check_block_id ≡ b.check_block_id

pipe-Alike :
    (x : EventInfo) (p : ℕ) (e : SanEvent) (s : SyncSanitizer) → Alike (check_on_pipe x p e s) s
unfolding check_on_pipe
pipe-Alike (sync_event i) p e s = elim (Bool-cases (i.is_generated || is_pipe_barrier i.op_type)) [
  | inl h ↦ rw h (record { events = refl; block = refl })
  | inr h ↦ rw h (record { events = refl; block = refl })
]
pipe-Alike _ p e s = record { events = refl; block = refl }

redundancy-Alike : (e : SanEvent) (s : SyncSanitizer) → Alike (do_redundancy_check e s) s
unfolding do_redundancy_check
redundancy-Alike e s =
    elim (Bool-cases (pipe_index (get_pipe_type e.info e) == pipe_index pipe_size)) [
      | inl h ↦ rw (do_redundancy_check, h) (record { events = refl; block = refl })
      | inr h ↦
          rw (do_redundancy_check, h) (pipe-Alike e.info (pipe_index (get_pipe_type e.info e)) e s)
    ]

target_same :
    (a b : SyncSanitizer) (c : ℕ)
    → a.check_block_id ≡ b.check_block_id
    → is_target_block_id a c ≡ is_target_block_id b c
target_same a b c h = ap (λ i. is_target_block_id (record b { check_block_id = i }) c) h

do_each-match_each :
    (es : List SanEvent) (z y s : SyncSanitizer)
    → z.sync_events ≡ y.sync_events
    → z.check_block_id ≡ s.check_block_id
    → (do_each es z).sync_events ≡ (match_each (seen s es) y).sync_events
unfolding do_each match_each seen
do_each-match_each [] z y s h k = h
do_each-match_each (e ∷ es) z y s h k = elim (Bool-cases (is_kernel_finish e)) [
  | inl f ↦ rw f h
  | inr f ↦ elim (Bool-cases (is_target_block_id s e.loc.core_id)) [
    | inl t ↦
        let r = redundancy-Alike e (do_match_check e z) in
        rw (f, target_same z s e.loc.core_id k, t)
          (do_each-match_each es (do_redundancy_check e (do_match_check e z)) (do_match_check e y) s
            (r.events ∙ ap (match_info e.info e) h) (r.block ∙ k))
    | inr t ↦ rw (f, target_same z s e.loc.core_id k, t) (do_each-match_each es z y s h k)
  ]
]

-- At the end of the loop of `Do`, started on empty members, the instructions kept under a key of sets are
-- as many as the set_flags with that key exceed its wait_flags among the events up to the end of the kernel
-- on the blocks to check, and those kept under the key of its waits as many as these exceed the former.
pub do_each-Balanced :
    (es : List SanEvent) (z : SyncSanitizer)
    → Balanced
        (do_each es (init_sync z)).sync_events
        (λ k. sets k (seen z es))
        (λ k. waits k (seen z es))
do_each-Balanced es z =
    subst (λ m. Balanced m (λ k. sets k (seen z es)) (λ k. waits k (seen z es)))
      (sym (do_each-match_each es (init_sync z) (init_sync z) z refl refl))
      (match_each-Balanced (seen z es) z)
