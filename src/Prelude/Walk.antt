-- ===== src/Prelude/Walk.antt =====
-- A walk once round a list from a place: the elements from there to the end, and then those before.
use Prim.Native.Nat.{ℕ, zero, suc, ◌+◌, ◌%◌, ◌≤◌, ◌<◌}
use mathlib.Core.Path.{◌≡◌, refl, sym, ap, ◌∙◌}
use mathlib.Core.Logic.{◌⊎◌, inl, inr}
use mathlib.Core.Bool.{Bool, true, not, ◌&&◌}
use mathlib.Core.Option.{none}
use mathlib.Core.List.{List, [], ◌∷◌, ◌++◌}
use native.Mathlib.Omega.{arith}
use native.Mathlib.Nat.{mod-eq_of_lt, mod_self}
use native.Mathlib.Decide.{dec_lt}
use govpars.Prelude.Lists.{
  length, take, drop, all, find?, take-append, drop_all, take-append_past, length-drop,
}

-- the next place, as a case split
place-cases :
    (c n : ℕ) → c < n → ((c + 1 < n) × ((c + 1) % n ≡ suc c)) ⊎ ((suc c ≡ n) × ((c + 1) % n ≡ 0))
place-cases c n h = elim (dec_lt (c + 1) n) [
  | yes p ↦ inl (p, mod-eq_of_lt p ∙ omega arith)
  | no p ↦
      let e : suc c ≡ n = omega arith in
      let e' : c + 1 ≡ n = omega arith in inr (e, ap (λ k. k % n) e' ∙ mod_self n)
]

pub mod-lt_of_lt : (a n c : ℕ) → c < n → a % n < n
mod-lt_of_lt a n c h = omega arith

&&_comm : (a b : Bool) → (a && b) ≡ (b && a)
&&_comm a b = ground arith

module _ {ℓ} {A : Type ℓ} where
  -- The walk from place `i`, cut after `r` elements.
  abbrev pub walk_from : List A → ℕ → ℕ → List A
  walk_from xs i r = take r (drop i xs ++ xs)

  pub walk_from_next :
      (xs : List A) (c r : ℕ)
      → c < length xs
      → r ≤ length xs
      → take r (drop (suc c) xs ++ xs) ≡ walk_from xs ((c + 1) % length xs) r
  walk_from_next xs c r h k = elim (place-cases c (length xs) h) [
    | inl (_, e) ↦ rw e
    | inr (e, z) ↦ rw (z, drop_all xs (suc c) (sym e)) (sym (take-append r xs xs k))
  ]

  unfoldable pub walk : List A → ℕ → List A
  walk xs i = drop i xs ++ take i xs

  pub walk_from_all : (xs : List A) (i : ℕ) → i < length xs → walk_from xs i (length xs) ≡ walk xs i
  unfolding walk
  walk_from_all xs i h =
      take-append_past (drop i xs) xs i (length xs) (omega (arith, length-drop i xs))

  pub find?-none : (f : A → Bool) (xs : List A) → find? f xs ≡ none → all (λ x. not (f x)) xs ≡ true
  find?-none f [] h = refl
  find?-none f (x ∷ xs) h = ground (arith, find?-none f xs)

  all-append : (f : A → Bool) (xs ys : List A) → all f (xs ++ ys) ≡ (all f xs && all f ys)
  all-append f [] ys = refl
  all-append f (x ∷ xs) ys = ground (arith, all-append f xs ys)

  all-take-drop :
      (f : A → Bool) (n : ℕ) (xs : List A) → (all f (take n xs) && all f (drop n xs)) ≡ all f xs
  all-take-drop f zero xs = refl
  all-take-drop f (suc n) [] = refl
  all-take-drop f (suc n) (x ∷ xs) = ground (arith, all-take-drop f n xs)

  -- A walk meets every element.
  pub all-walk : (f : A → Bool) (xs : List A) (i : ℕ) → all f (walk xs i) ≡ all f xs
  unfolding walk
  all-walk f xs i =
      all-append f (drop i xs) (take i xs)
      ∙ &&_comm (all f (drop i xs)) (all f (take i xs))
      ∙ all-take-drop f i xs
