-- ===== src/SyncCheck/Keys.antt =====
-- The instructions that wait for a partner, under each key.
use ascend_mssanitizer.Base.Assoc.{nat_eq, lookup, queue_of, lookup-insert, lookup-erase}
use ascend_mssanitizer.Base.{
  Option-cases, suc, List, some, Option, inl, none, ℕ, ap, if◌then◌else◌, arith, refl, ltb, ◌==◌,
  ◌<◌, length, [], ◌-◌, inr, Bool-cases, ◌++◌, ◌∷◌, ◌≡◌, ==_iff, true, subst, sym, ◌∙◌, false,
}
use ascend_mssanitizer.SyncCheck.{SyncDispInfo, pop_back, match_peer}

-- How many instructions are kept under a key.
unfoldable pub pending : ℕ → List (ℕ × List SyncDispInfo) → ℕ
pending a m = length (queue_of (lookup a m))

-- A queue that is kept has an element.
abbrev pub HasOne : Option (List SyncDispInfo) → Type 0
HasOne none = Unit
HasOne (some q) = 0 < length q

-- No key is kept with an empty queue.
abbrev pub NoneEmpty : List (ℕ × List SyncDispInfo) → Type 0
NoneEmpty m = (a : ℕ) → HasOne (lookup a m)

length-pop_back : (q : List SyncDispInfo) → length (pop_back q) ≡ length q - 1
length-pop_back [] = refl
length-pop_back (x ∷ []) = refl
length-pop_back (x ∷ y ∷ ys) = omega (arith, length-pop_back (y ∷ ys))

length-snoc : (q : List SyncDispInfo) (i : SyncDispInfo) → length (q ++ i ∷ []) ≡ suc (length q)
length-snoc [] i = refl
length-snoc (x ∷ q) i = ap suc (length-snoc q i)

-- What one instruction does to the numbers: it takes a partner that waits, or waits itself.
pub record Matched (self peer : ℕ) (m m' : List (ℕ × List SyncDispInfo)) : Type 0 where
  pub kept : NoneEmpty m'
  pub counts :
      (a : ℕ)
      → pending a m' ≡ (
          if ltb 0 (pending peer m)
          then (if peer == a then pending a m - 1 else pending a m)
          else if self == a
          then suc (pending a m)
          else pending a m)

one_of :
    (o : Option (List SyncDispInfo)) (k a : ℕ) (v : List SyncDispInfo)
    → 0 < length v
    → HasOne o
    → HasOne (if k == a then some v else o)
one_of o k a v h g = elim (Bool-cases (k == a)) [ inl e ↦ rw e h | inr e ↦ rw e g ]

none_of :
    (o : Option (List SyncDispInfo)) (k a : ℕ) → HasOne o → HasOne (if k == a then none else o)
none_of o k a g = elim (Bool-cases (k == a)) [ inl e ↦ rw e tt | inr e ↦ rw e g ]

new_waits :
    (self a : ℕ) (i : SyncDispInfo) (m : List (ℕ × List SyncDispInfo))
    → length
        (queue_of (if self == a then some (queue_of (lookup self m) ++ i ∷ []) else lookup a m))
      ≡ (if self == a then suc (pending a m) else pending a m)
unfolding pending
new_waits self a i m = elim (Bool-cases (self == a)) [
  | inl c ↦ rw c (
      length-snoc (queue_of (lookup self m)) i
      ∙ ap (λ k. suc (length (queue_of (lookup k m)))) ((==_iff self a).0 c))
  | inr c ↦ rw c refl
]

same_key :
    (peer a n : ℕ) (m : List (ℕ × List SyncDispInfo))
    → (peer == a) ≡ true
    → pending peer m ≡ n
    → pending a m ≡ n
same_key peer a n m c e = ap (λ k. pending k m) (sym ((==_iff peer a).0 c)) ∙ e

popped :
    (peer self a : ℕ) (q : List SyncDispInfo) (m : List (ℕ × List SyncDispInfo))
    → pending peer m ≡ length q
    → ltb 1 (length q) ≡ true
    → length (queue_of (if peer == a then some (pop_back q) else lookup a m)) ≡ (
        if ltb 0 (length q)
        then (if peer == a then pending a m - 1 else pending a m)
        else if self == a
        then suc (pending a m)
        else pending a m)
unfolding pending
popped peer self a q m e b =
    let pos : ltb 0 (length q) ≡ true = ground arith in
    elim (Bool-cases (peer == a)) [
      | inl c ↦
          rw (c, pos) (length-pop_back q ∙ ap (λ k. k - 1) (sym (same_key peer a (length q) m c e)))
      | inr c ↦ rw (c, pos) refl
    ]

last_gone :
    (peer self a : ℕ) (q : List SyncDispInfo) (m : List (ℕ × List SyncDispInfo))
    → pending peer m ≡ length q
    → 0 < length q
    → ltb 1 (length q) ≡ false
    → length (queue_of (if peer == a then none else lookup a m)) ≡ (
        if ltb 0 (length q)
        then (if peer == a then pending a m - 1 else pending a m)
        else if self == a
        then suc (pending a m)
        else pending a m)
unfolding pending
last_gone peer self a q m e l b =
    let pos : ltb 0 (length q) ≡ true = ground arith in
    let one : length q ≡ 1 = ground arith in
    elim (Bool-cases (peer == a)) [
      | inl c ↦ rw (c, pos) (ap (λ k. k - 1) (sym (same_key peer a (length q) m c e ∙ one)))
      | inr c ↦ rw (c, pos) refl
    ]

pub match_peer-Matched :
    (self peer : ℕ) (i : SyncDispInfo) (m : List (ℕ × List SyncDispInfo))
    → NoneEmpty m
    → Matched self peer m (match_peer self peer i m)
unfolding match_peer pending
match_peer-Matched self peer i m h = elim (Option-cases (lookup peer m)) [
  | inl e ↦
      rw (match_peer, e)
        (record {
          kept = λ a. rw (lookup-insert self a (queue_of (lookup self m) ++ i ∷ []) m) (
              one_of (lookup a m) self a _ (omega (arith, length-snoc (queue_of (lookup self m)) i))
                (h a));
          counts = λ a.
              rw (lookup-insert self a (queue_of (lookup self m) ++ i ∷ []) m, e)
                (new_waits self a i m);
        })
  | inr (q, e) ↦ elim (Bool-cases (ltb 1 (length q))) [
    | inl b ↦
        rw (match_peer, e, b)
          (record {
            kept = λ a.
                rw (lookup-insert peer a (pop_back q) m)
                  (one_of (lookup a m) peer a _ (ground (arith, length-pop_back q)) (h a));
            counts = λ a.
                rw (lookup-insert peer a (pop_back q) m, e)
                  (popped peer self a q m (ap (λ o. length (queue_of o)) e) b);
          })
    | inr b ↦
        rw (match_peer, e, b)
          (record {
            kept = λ a. rw (lookup-erase peer a m) (none_of (lookup a m) peer a (h a));
            counts = λ a.
                rw (lookup-erase peer a m, e)
                  (last_gone peer self a q m (ap (λ o. length (queue_of o)) e)
                    (subst HasOne e (h peer)) b);
          })
  ]
]
