-- ===== src/Prelude/Lists.antt =====
-- Lists measured by native numbers, membership as a sum, and predicates on all elements.
use Prim.Native.Nat.{ℕ, zero, suc, ◌+◌, min}
use mathlib.Core.Path.{◌≡◌}
use mathlib.Core.Logic.{◌⊎◌, inl, inr}
use mathlib.Core.List.{List, [], ◌∷◌, ◌++◌}
use native.Mathlib.Omega.{arith}

module _ {ℓ} {A : Type ℓ} where
  abbrev pub length : List A → ℕ
  length [] = 0
  length (x ∷ xs) = suc (length xs)

  abbrev pub take : ℕ → List A → List A
  take zero xs = []
  take (suc n) [] = []
  take (suc n) (x ∷ xs) = x ∷ take n xs

  abbrev pub drop : ℕ → List A → List A
  drop zero xs = xs
  drop (suc n) [] = []
  drop (suc n) (x ∷ xs) = drop n xs

  pub length-append : (xs ys : List A) → length (xs ++ ys) ≡ length xs + length ys
  length-append [] ys = omega arith
  length-append (x ∷ xs) ys = omega (arith, length-append xs ys)

  pub length-take : (n : ℕ) (xs : List A) → length (take n xs) ≡ min n (length xs)
  length-take zero xs = omega arith
  length-take (suc n) [] = omega arith
  length-take (suc n) (x ∷ xs) = omega (arith, length-take n xs)

-- `a` is one of the rows of the list
abbrev pub Among : {A : Type 0} → A → List A → Type 0
Among a [] = ⊥
Among a (x ∷ xs) = (a ≡ x) ⊎ Among a xs

abbrev pub All : {A : Type 0} → (A → Type 0) → List A → Type 0
All P [] = Unit
All P (x ∷ xs) = P x × All P xs

pub All-at : {A : Type 0} (P : A → Type 0) (xs : List A) (a : A) → All P xs → Among a xs → P a
All-at P [] a h m = absurd m
All-at P (x ∷ xs) a h (inl e) = rw e h.0
All-at P (x ∷ xs) a h (inr m) = All-at P xs a h.1 m

pub Among-take : {A : Type 0} (n : ℕ) (xs : List A) (a : A) → Among a (take n xs) → Among a xs
Among-take zero xs a m = absurd m
Among-take (suc n) [] a m = absurd m
Among-take (suc n) (x ∷ xs) a (inl e) = inl e
Among-take (suc n) (x ∷ xs) a (inr m) = inr (Among-take n xs a m)

pub Among-drop : {A : Type 0} (n : ℕ) (xs : List A) (a : A) → Among a (drop n xs) → Among a xs
Among-drop zero xs a m = m
Among-drop (suc n) [] a m = absurd m
Among-drop (suc n) (x ∷ xs) a m = inr (Among-drop n xs a m)
