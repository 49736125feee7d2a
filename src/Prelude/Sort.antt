-- ===== src/Prelude/Sort.antt =====
-- Python's `sorted`: a stable sort by a total preorder given as a Boolean test. Insertion sort gives
-- the one stable result.
use mathlib.Core.Path.{◌≡◌, refl}
use mathlib.Core.Bool.{Bool, ◌&&◌, ◌||◌}
use mathlib.Core.List.{List, [], ◌∷◌}
use native.Mathlib.Omega.{arith}
use govpars.Prelude.Tests.{if◌then◌else◌}
use govpars.Prelude.Lists.{any, all}

module _ {ℓ} {A : Type ℓ} where
  -- before the first element that is not below it
  unfoldable pub insert_by : (A → A → Bool) → A → List A → List A
  insert_by le x [] = x ∷ []
  insert_by le x (y ∷ ys) = if le x y then x ∷ y ∷ ys else y ∷ insert_by le x ys

  unfoldable pub sort_by : (A → A → Bool) → List A → List A
  unfolding insert_by
  sort_by le [] = []
  sort_by le (x ∷ xs) = insert_by le x (sort_by le xs)

  -- Sorting changes neither what some element satisfies nor what all do.
  any-insert_by :
      (p : A → Bool) (le : A → A → Bool) (x : A) (xs : List A)
      → any p (insert_by le x xs) ≡ (p x || any p xs)
  unfolding insert_by
  any-insert_by p le x [] = refl
  any-insert_by p le x (y ∷ ys) = ground (arith, any-insert_by p le x ys)

  pub any-sort_by :
      (p : A → Bool) (le : A → A → Bool) (xs : List A) → any p (sort_by le xs) ≡ any p xs
  unfolding sort_by
  any-sort_by p le [] = refl
  any-sort_by p le (x ∷ xs) =
      ground (arith, any-insert_by p le x (sort_by le xs), any-sort_by p le xs)

  all-insert_by :
      (p : A → Bool) (le : A → A → Bool) (x : A) (xs : List A)
      → all p (insert_by le x xs) ≡ (p x && all p xs)
  unfolding insert_by
  all-insert_by p le x [] = refl
  all-insert_by p le x (y ∷ ys) = ground (arith, all-insert_by p le x ys)

  pub all-sort_by :
      (p : A → Bool) (le : A → A → Bool) (xs : List A) → all p (sort_by le xs) ≡ all p xs
  unfolding sort_by
  all-sort_by p le [] = refl
  all-sort_by p le (x ∷ xs) =
      ground (arith, all-insert_by p le x (sort_by le xs), all-sort_by p le xs)
