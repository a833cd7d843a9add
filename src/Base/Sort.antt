-- ===== src/Base/Sort.antt =====
-- `std::sort` with a comparison, as insertion sort: the comparisons of the checkers tell apart all
-- elements but equal ones, so that every correct sort gives the same list.
use ascend_mssanitizer.Base.{Bool-cases, [], inr, List, if◌then◌else◌, ◌∷◌, Bool, inl, All}

module _ {A : Type 0} (before : A → A → Bool) where
  unfoldable pub insert_by : A → List A → List A
  insert_by x [] = x ∷ []
  insert_by x (y ∷ ys) = let rest = insert_by x ys in if before x y then x ∷ y ∷ ys else y ∷ rest

  unfoldable pub sort_by : List A → List A
  unfolding insert_by
  sort_by [] = []
  sort_by (x ∷ xs) = insert_by x (sort_by xs)

  module _ (P : A → Type 0) where
    insert_by-All : (x : A) (ys : List A) → P x → All P ys → All P (insert_by x ys)
    unfolding insert_by
    insert_by-All x [] p h = (p, tt)
    insert_by-All x (y ∷ ys) p h = elim (Bool-cases (before x y)) [
      | inl b ↦ rw b (p, h)
      | inr b ↦ rw b (h.0, insert_by-All x ys p h.1)
    ]

    pub sort_by-All : (xs : List A) → All P xs → All P (sort_by xs)
    unfolding sort_by
    sort_by-All [] h = tt
    sort_by-All (x ∷ xs) h = insert_by-All x (sort_by xs) h.0 (sort_by-All xs h.1)
