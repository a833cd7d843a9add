-- ===== src/Asan/Shadow/Walk.antt =====
-- The walks by runs do to every byte what a walk byte by byte would do.
use ascend_mssanitizer.Asan.Shadow.{
  store_core, default_core_id, get_core_id, defined, trampled, undefined, get_mem_status,
  set_mem_status, store_run,
}
use ascend_mssanitizer.Asan.Memory.{Memory}
use ascend_mssanitizer.Base.{
  if◌then◌else◌, ◌≡◌, ◌==◌, ◌<◌, leb, Bool-cases, ◌+◌, ltb, inr, ℕ, ◌&&◌, inl, Bool, refl, ◌≤◌, ◌∙◌,
  true, ap, subst, not, false, sym, ◌-◌, arith,
}
use ascend_mssanitizer.Asan.Shadow.Bytes.{
  mark_core, tramples, mark_byte, get_core_id-set_mem_status,
}
use ascend_mssanitizer.Event.{is_gm}

pub in_run : (it n x : ℕ) → (leb it x && ltb x (it + n)) ≡ true → x ≡ it + (x - it)
in_run it n x h = ground arith

twice :
    (b : Bool) (v w a c : ℕ)
    → a ≡ (if b then v else c)
    → (if b then w else a) ≡ (if b then w else c)
twice true v w a c h = refl
twice false v w a c h = h

-- A walk over a range in two parts, of which the first reads alike.
pub parts_of :
    (it n end x v a b : ℕ) (f : ℕ → ℕ)
    → it + n ≤ end
    → ((leb it x && ltb x (it + n)) ≡ true → f b ≡ v)
    → a ≡ (if leb it x && ltb x (it + n) then v else b)
    → (if leb (it + n) x && ltb x end then f a else a) ≡ (if leb it x && ltb x end then f b else b)
parts_of it n end x v a b f h k e = elim (Bool-cases (leb it x && ltb x (it + n))) [
  | inl c ↦
      let value : a ≡ v = e ∙ ap (λ t. if t then v else b) c in
      let late : (leb (it + n) x && ltb x end) ≡ false = ground arith in
      let now : (leb it x && ltb x end) ≡ true = ground arith in rw (late, now) (value ∙ sym (k c))
  | inr c ↦
      let value : a ≡ b = e ∙ ap (λ t. if t then v else b) c in
      let tests : (leb (it + n) x && ltb x end) ≡ (leb it x && ltb x end) = ground arith in
      rw (tests, value) refl
]

module _ (mem : Memory) where
  open mem use {
    Map, get, put_range, unified, limit, same_limit, reads, unified_pos, unified_fits, unified_same,
  }

  -- One map reads like another but for a range that reads as one value.
  pub record Fills (m m' : Map) (it n v : ℕ) : Type 0 where
    pub limits : limit m' ≡ limit m
    pub values :
        (x : ℕ) → x < limit m → get m' x ≡ (if leb it x && ltb x (it + n) then v else get m x)

  module _ (m : Map) (it n : ℕ) (fits : it + n ≤ limit m) where
    fill_none : (v : ℕ) → ((k : ℕ) → k < n → get m (it + k) ≡ v) → Fills m m it n v
    fill_none v h = record {
      limits = refl;
      values = λ x l. elim (Bool-cases (leb it x && ltb x (it + n))) [
        | inl e ↦ rw e (ap (get m) (in_run it n x e) ∙ h (x - it) (ground arith))
        | inr e ↦ rw e refl
      ];
    }

    fill_again : (m1 : Map) (v w : ℕ) → Fills m m1 it n v → Fills m (put_range m1 it n w) it n w
    fill_again m1 v w f = record {
      limits = same_limit m1 it n w ∙ f.limits;
      values = λ x l.
          reads m1 it n w x (subst (λ k. it + n ≤ k) (sym f.limits) fits)
            (subst (λ k. x < k) (sym f.limits) l)
          ∙ twice (leb it x && ltb x (it + n)) v w _ _ (f.values x l);
    }

    -- The part on the core.
    fill_core :
        (m1 : Map) (atomic : Bool) (core bits : ℕ)
        → Fills m m1 it n bits
        → Fills m (store_core mem atomic core m1 it n bits).0 it n (mark_core atomic core bits)
    unfolding store_core mark_core
    fill_core m1 atomic core bits f = elim (Bool-cases (core == 255)) [
      | inl a ↦ rw a (fill_again m1 bits _ f)
      | inr a ↦ elim (Bool-cases (get_core_id bits == default_core_id)) [
        | inl b ↦ rw (a, b) (fill_again m1 bits _ f)
        | inr b ↦ elim (Bool-cases (get_core_id bits == core)) [
          | inl c ↦ rw (a, b, c) f
          | inr c ↦ elim (Bool-cases atomic) [
            | inl d ↦ rw (a, b, c, d) f
            | inr d ↦ rw (a, b, c, d) (fill_again m1 bits _ f)
          ]
        ]
      ]
    ]

    -- One turn gives all bytes of the run the state that a store gives to one of them.
    pub fill_run :
        (is_gm atomic : Bool) (core : ℕ)
        → ((k : ℕ) → k < n → get m (it + k) ≡ get m it)
        → Fills m
            (store_run mem is_gm atomic core m it n).0
            it
            n
            (mark_byte is_gm atomic core (get m it))
    unfolding store_run mark_byte
    fill_run is_gm atomic core h =
        let none = fill_none (get m it) h in
        let some_value = fill_again m (get m it) (set_mem_status (get m it) defined) none in
        elim (Bool-cases (get_mem_status (get m it) == trampled)) [
          | inl a ↦ rw a none
          | inr a ↦ elim (Bool-cases (get_mem_status (get m it) == undefined)) [
            | inl b ↦ elim (Bool-cases is_gm) [
              | inl c ↦
                  rw (a, b, c)
                    (fill_core (put_range m it n (set_mem_status (get m it) defined)) atomic core
                      (set_mem_status (get m it) defined) some_value)
              | inr c ↦ rw (a, b, c) some_value
            ]
            | inr b ↦ elim (Bool-cases is_gm) [
              | inl c ↦ rw (a, b, c) (fill_core m atomic core (get m it) none)
              | inr c ↦ rw (a, b, c) none
            ]
          ]
        ]

    -- It counts the run when its bytes are trampled.
    count_core :
        (m1 : Map) (atomic : Bool) (core bits b : ℕ)
        → get_core_id bits ≡ get_core_id b
        → (store_core mem atomic core m1 it n bits).1 ≡ (
            if not (core == 255)
              && not (get_core_id b == default_core_id)
              && not (get_core_id b == core)
              && not atomic
            then n
            else 0)
    unfolding store_core
    count_core m1 atomic core bits b e = rw e (elim (Bool-cases (core == 255)) [
      | inl a ↦ rw a refl
      | inr a ↦ elim (Bool-cases (get_core_id b == default_core_id)) [
        | inl c ↦ rw (a, c) refl
        | inr c ↦ elim (Bool-cases (get_core_id b == core)) [
          | inl d ↦ rw (a, c, d) refl
          | inr d ↦ elim (Bool-cases atomic) [
            | inl g ↦ rw (a, c, d, g) refl
            | inr g ↦ rw (a, c, d, g) refl
          ]
        ]
      ]
    ])

    pub count_run :
        (is_gm atomic : Bool) (core : ℕ)
        → (store_run mem is_gm atomic core m it n).1
          ≡ (if tramples is_gm atomic core (get m it) then n else 0)
    unfolding store_run tramples
    count_run is_gm atomic core = elim (Bool-cases (get_mem_status (get m it) == trampled)) [
      | inl a ↦ elim (Bool-cases is_gm) [ inl c ↦ rw (a, c) refl | inr c ↦ rw (a, c) refl ]
      | inr a ↦ elim (Bool-cases (get_mem_status (get m it) == undefined)) [
        | inl b ↦ elim (Bool-cases is_gm) [
          | inl c ↦
              rw (a, b, c)
                (count_core (put_range m it n (set_mem_status (get m it) defined)) atomic core
                  (set_mem_status (get m it) defined) (get m it)
                  (get_core_id-set_mem_status (get m it) defined))
          | inr c ↦ rw (a, b, c) refl
        ]
        | inr b ↦ elim (Bool-cases is_gm) [
          | inl c ↦ rw (a, b, c) (count_core m atomic core (get m it) (get m it) refl)
          | inr c ↦ rw (a, b, c) refl
        ]
      ]
    ]
