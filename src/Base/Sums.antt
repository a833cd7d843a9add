-- ===== src/Base/Sums.antt =====
-- Weighted sums over a vector of queues, under a write at one position.
use Prim.Native.Nat.{ℕ, zero, suc, ◌+◌, ◌<◌}
use mathlib.Core.Path.{◌≡◌}
use mathlib.Core.List.{List, [], ◌∷◌, ◌++◌}
use native.Mathlib.Omega.{arith}
use ascend_mssanitizer.Base.Lists.{length, get_or, set}

module _ {ℓ} {A : Type ℓ} where
  -- The weight of a queue.
  unfoldable pub sum_of : (A → ℕ) → List A → ℕ
  sum_of w [] = 0
  sum_of w (x ∷ xs) = w x + sum_of w xs

  unfoldable pub sum_of-append :
      (w : A → ℕ) (xs ys : List A) → sum_of w (xs ++ ys) ≡ sum_of w xs + sum_of w ys
  unfolding sum_of
  sum_of-append w [] ys = omega arith
  sum_of-append w (x ∷ xs) ys = omega (arith, sum_of-append w xs ys)

  -- Queue `k + j` of the vector is weighed by `w (k + j)`, counting from `k`.
  unfoldable pub weigh : (ℕ → List A → ℕ) → ℕ → List (List A) → ℕ
  weigh w k [] = 0
  weigh w k (q ∷ qs) = w k q + weigh w (suc k) qs

  pub weigh-set :
      (w : ℕ → List A → ℕ) (k i : ℕ) (qs : List (List A)) (q : List A)
      → i < length qs
      → weigh w k (set qs i q) + w (k + i) (get_or qs i []) ≡ weigh w k qs + w (k + i) q
  unfolding weigh
  weigh-set w k i [] q h = elim h [ ]
  weigh-set w k zero (x ∷ xs) q h = ground (arith, k_add_zero)
    where
      k_add_zero : k + 0 ≡ k
      k_add_zero = omega arith
  weigh-set w k (suc i) (x ∷ xs) q h =
      let shift : k + suc i ≡ suc k + i = omega arith in
      ground (arith, shift, weigh-set w (suc k) i xs q (omega arith))
