-- ===== src/SyncCheck/Balance.antt =====
-- What waits for a partner is the surplus of sets over waits, or of waits over sets.
use ascend_mssanitizer.Base.Assoc.{nat_eq, lookup}
use ascend_mssanitizer.Base.{
  ◌%◌, ltb, suc, [], Bool, arith, ◌+◌, false, ◌&&◌, true, ◌≡◌, ◌-◌, if◌then◌else◌, List, ◌==◌, ◌∷◌,
  ℕ, ◌∙◌, ap, Bool-cases, ==_iff, inr, inl, refl,
}
use ascend_mssanitizer.Event.{
  sync_event, SyncOpInfo, SanEvent, wait_flag, set_flag, SyncType, EventInfo,
}
use ascend_mssanitizer.SyncCheck.{
  SyncSanitizer, SyncDispInfo, match_peer, do_match_check, calc_set_flag_sync_id, match_check,
  calc_wait_flag_sync_id, match_sync, sync_disp_info, match_info, init_sync,
}
use ascend_mssanitizer.SyncCheck.Keys.{pending, NoneEmpty, match_peer-Matched}

abbrev pub is_set : SyncType → Bool
is_set set_flag = true
is_set _ = false

abbrev pub is_wait : SyncType → Bool
is_wait wait_flag = true
is_wait _ = false

-- An event is an instruction of the given kind with the given key of sets.
unfoldable pub is_sync_on : (SyncType → Bool) → ℕ → EventInfo → SanEvent → Bool
is_sync_on kind k (sync_event i) e = kind i.op_type && calc_set_flag_sync_id e i == k
is_sync_on kind k _ e = false

-- The number of set_flag instructions with a key.
unfoldable pub sets : ℕ → List SanEvent → ℕ
unfolding is_sync_on
sets k [] = 0
sets k (e ∷ es) = (if is_sync_on is_set k e.info e then 1 else 0) + sets k es

-- The number of wait_flag instructions with a key.
unfoldable pub waits : ℕ → List SanEvent → ℕ
unfolding is_sync_on
waits k [] = 0
waits k (e ∷ es) = (if is_sync_on is_wait k e.info e then 1 else 0) + waits k es

-- `DoMatchCheck` of one event after another.
unfoldable pub match_each : List SanEvent → SyncSanitizer → SyncSanitizer
unfolding do_match_check
match_each [] s = s
match_each (e ∷ es) s = match_each es (do_match_check e s)

-- Under the key of the sets wait the sets that are too many, under the next one the waits that are.
pub record Balanced (m : List (ℕ × List SyncDispInfo)) (s w : ℕ → ℕ) : Type 0 where
  pub none_empty : NoneEmpty m
  pub sets_left : (k : ℕ) → k % 16 ≡ 0 → pending k m ≡ s k - w k
  pub waits_left : (k : ℕ) → k % 16 ≡ 0 → pending (k + 1) m ≡ w k - s k

key_aligned : (e : SanEvent) (i : SyncOpInfo) → calc_set_flag_sync_id e i % 16 ≡ 0
unfolding calc_set_flag_sync_id
key_aligned e i = omega arith

-- The arithmetic of one instruction: a set, seen from the key of sets and from that of waits.
set_own :
    (key k p q r s w : ℕ)
    → key % 16 ≡ 0
    → k % 16 ≡ 0
    → p ≡ s - w
    → (key ≡ k → q ≡ w - s)
    → r ≡ (if ltb 0 q then (if key + 1 == k then p - 1 else p) else if key == k then suc p else p)
    → r ≡ (if key == k then 1 else 0) + s - w
set_own key k p q r s w h l a b c = elim (Bool-cases (key == k)) [
  | inl e ↦ let q' = b ((==_iff key k).0 e) in ground arith
  | inr e ↦ ground arith
]

set_other :
    (key k p q r s w : ℕ)
    → key % 16 ≡ 0
    → k % 16 ≡ 0
    → p ≡ w - s
    → (key ≡ k → q ≡ w - s)
    → r ≡ (
        if ltb 0 q
        then (if key + 1 == k + 1 then p - 1 else p)
        else if key == k + 1
        then suc p
        else p)
    → r ≡ w - ((if key == k then 1 else 0) + s)
set_other key k p q r s w h l a b c = elim (Bool-cases (key == k)) [
  | inl e ↦ let q' = b ((==_iff key k).0 e) in ground arith
  | inr e ↦ ground arith
]

-- A wait, from the two keys.
wait_own :
    (key k p q r s w : ℕ)
    → key % 16 ≡ 0
    → k % 16 ≡ 0
    → p ≡ w - s
    → (key ≡ k → q ≡ s - w)
    → r ≡ (
        if ltb 0 q
        then (if key == k + 1 then p - 1 else p)
        else if key + 1 == k + 1
        then suc p
        else p)
    → r ≡ (if key == k then 1 else 0) + w - s
wait_own key k p q r s w h l a b c = elim (Bool-cases (key == k)) [
  | inl e ↦ let q' = b ((==_iff key k).0 e) in ground arith
  | inr e ↦ ground arith
]

wait_other :
    (key k p q r s w : ℕ)
    → key % 16 ≡ 0
    → k % 16 ≡ 0
    → p ≡ s - w
    → (key ≡ k → q ≡ s - w)
    → r ≡ (if ltb 0 q then (if key == k then p - 1 else p) else if key + 1 == k then suc p else p)
    → r ≡ s - ((if key == k then 1 else 0) + w)
wait_other key k p q r s w h l a b c = elim (Bool-cases (key == k)) [
  | inl e ↦ let q' = b ((==_iff key k).0 e) in ground arith
  | inr e ↦ ground arith
]

set-Balanced :
    (key : ℕ) (i : SyncDispInfo) (m : List (ℕ × List SyncDispInfo)) (s w : ℕ → ℕ)
    → key % 16 ≡ 0
    → Balanced m s w
    → Balanced (match_peer key (key + 1) i m) (λ k. (if key == k then 1 else 0) + s k) w
set-Balanced key i m s w h g =
    let t = match_peer-Matched key (key + 1) i m g.none_empty in
    record {
      none_empty = t.kept;
      sets_left = λ k l.
          set_own key k _ _ _ (s k) (w k) h l (g.sets_left k l)
            (λ e. ap (λ j. pending (j + 1) m) e ∙ g.waits_left k l) (t.counts k);
      waits_left = λ k l.
          set_other key k _ _ _ (s k) (w k) h l (g.waits_left k l)
            (λ e. ap (λ j. pending (j + 1) m) e ∙ g.waits_left k l) (t.counts (k + 1));
    }

wait-Balanced :
    (key : ℕ) (i : SyncDispInfo) (m : List (ℕ × List SyncDispInfo)) (s w : ℕ → ℕ)
    → key % 16 ≡ 0
    → Balanced m s w
    → Balanced (match_peer (key + 1) key i m) s (λ k. (if key == k then 1 else 0) + w k)
wait-Balanced key i m s w h g =
    let t = match_peer-Matched (key + 1) key i m g.none_empty in
    record {
      none_empty = t.kept;
      sets_left = λ k l.
          wait_other key k _ _ _ (s k) (w k) h l (g.sets_left k l)
            (λ e. ap (λ j. pending j m) e ∙ g.sets_left k l) (t.counts k);
      waits_left = λ k l.
          wait_own key k _ _ _ (s k) (w k) h l (g.waits_left k l)
            (λ e. ap (λ j. pending j m) e ∙ g.sets_left k l) (t.counts (k + 1));
    }

like :
    {m : List (ℕ × List SyncDispInfo)} {s w s' w' : ℕ → ℕ}
    → Balanced m s w
    → ((k : ℕ) → s k ≡ s' k)
    → ((k : ℕ) → w k ≡ w' k)
    → Balanced m s' w'
like g a b = record {
  none_empty = g.none_empty;
  sets_left = λ k l. omega (arith, g.sets_left k l, a k, b k);
  waits_left = λ k l. omega (arith, g.waits_left k l, a k, b k);
}

add_none : (n : ℕ) → n ≡ 0 + n
add_none n = omega arith

nothing_kept : Balanced [] (λ k. 0) (λ k. 0)
unfolding pending lookup
nothing_kept = record { none_empty = λ a. tt; sets_left = λ k l. refl; waits_left = λ k l. refl }

-- One event, by its kind.
type-Balanced :
    (t : SyncType) (e : SanEvent) (i : SyncOpInfo) (m : List (ℕ × List SyncDispInfo)) (s w : ℕ → ℕ)
    → Balanced m s w
    → Balanced
        (match_sync t e i m)
        (λ k. (if is_set t && calc_set_flag_sync_id e i == k then 1 else 0) + s k)
        (λ k. (if is_wait t && calc_set_flag_sync_id e i == k then 1 else 0) + w k)
unfolding match_sync calc_wait_flag_sync_id
type-Balanced set_flag e i m s w g =
    like
      (set-Balanced (calc_set_flag_sync_id e i) (sync_disp_info match_check e i) m s w
        (key_aligned e i) g)
      (λ k. refl) (λ k. add_none (w k))
type-Balanced wait_flag e i m s w g =
    like
      (wait-Balanced (calc_set_flag_sync_id e i) (sync_disp_info match_check e i) m s w
        (key_aligned e i) g)
      (λ k. add_none (s k)) (λ k. refl)
type-Balanced _ e i m s w g = like g (λ k. add_none (s k)) (λ k. add_none (w k))

info-Balanced :
    (x : EventInfo) (e : SanEvent) (m : List (ℕ × List SyncDispInfo)) (s w : ℕ → ℕ)
    → Balanced m s w
    → Balanced
        (match_info x e m)
        (λ k. (if is_sync_on is_set k x e then 1 else 0) + s k)
        (λ k. (if is_sync_on is_wait k x e then 1 else 0) + w k)
unfolding match_info is_sync_on
info-Balanced (sync_event i) e m s w g = type-Balanced i.op_type e i m s w g
info-Balanced _ e m s w g = like g (λ k. add_none (s k)) (λ k. add_none (w k))

each-Balanced :
    (es : List SanEvent) (z : SyncSanitizer) (s w : ℕ → ℕ)
    → Balanced z.sync_events s w
    → Balanced (match_each es z).sync_events (λ k. sets k es + s k) (λ k. waits k es + w k)
unfolding match_each sets waits do_match_check
each-Balanced [] z s w g = like g (λ k. add_none (s k)) (λ k. add_none (w k))
each-Balanced (e ∷ es) z s w g =
    like (each-Balanced es (do_match_check e z) _ _ (info-Balanced e.info e z.sync_events s w g))
      (λ k. omega arith) (λ k. omega arith)

-- After the match check of any sequence of events, from an empty map, the instructions kept under a key of
-- sets are as many as the set_flags with that key exceed its wait_flags, and those kept under the key of
-- its waits as many as these exceed the former, in whatever order the instructions came.
pub match_each-Balanced :
    (es : List SanEvent) (z : SyncSanitizer)
    → Balanced (match_each es (init_sync z)).sync_events (λ k. sets k es) (λ k. waits k es)
match_each-Balanced es z =
    like (each-Balanced es (init_sync z) (λ k. 0) (λ k. 0) nothing_kept) (λ k. omega arith)
      (λ k. omega arith)
