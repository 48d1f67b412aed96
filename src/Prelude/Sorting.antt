-- ===== src/Prelude/Sorting.antt =====
-- `Array.prototype.sort` with a comparator: a stable sort. `before x y` says that the comparator
-- does not put `x` behind `y`. Insertion sort stands for whichever stable sort the engine has:
-- under a total order that no two elements share they agree.
use Prim.Native.Nat.{ℕ, suc, ◌+◌}
use mathlib.Core.Path.{◌≡◌, refl}
use mathlib.Core.Bool.{Bool, true, false}
use mathlib.Core.List.{List, [], ◌∷◌}
use native.Mathlib.Omega.{arith}
use clycites_platform.Prelude.Tests.{if◌then◌else◌}
use clycites_platform.Prelude.Lists.{length, sum_by, All}

module _ {ℓ} {A : Type ℓ} (before : A → A → Bool) where
  abbrev pub sort_insert : A → List A → List A
  sort_insert x [] = x ∷ []
  sort_insert x (y ∷ ys) = if before x y then x ∷ y ∷ ys else y ∷ sort_insert x ys

  abbrev pub sort_by : List A → List A
  sort_by [] = []
  sort_by (x ∷ xs) = sort_insert x (sort_by xs)

  sum_by-sort_insert :
      (f : A → ℕ) (x : A) (xs : List A) → sum_by f (sort_insert x xs) ≡ f x + sum_by f xs
  sum_by-sort_insert f x [] = refl
  sum_by-sort_insert f x (y ∷ ys) = ground (arith, sum_by-sort_insert f x ys)

  pub sum_by-sort_by : (f : A → ℕ) (xs : List A) → sum_by f (sort_by xs) ≡ sum_by f xs
  sum_by-sort_by f [] = refl
  sum_by-sort_by f (x ∷ xs) =
      omega (arith, sum_by-sort_insert f x (sort_by xs), sum_by-sort_by f xs)

  length-sort_insert : (x : A) (xs : List A) → length (sort_insert x xs) ≡ suc (length xs)
  length-sort_insert x [] = refl
  length-sort_insert x (y ∷ ys) = ground (arith, length-sort_insert x ys)

  pub length-sort_by : (xs : List A) → length (sort_by xs) ≡ length xs
  length-sort_by [] = refl
  length-sort_by (x ∷ xs) = omega (arith, length-sort_insert x (sort_by xs), length-sort_by xs)

  module _ {κ} (P : A → Type κ) where
    All-sort_insert : (x : A) (xs : List A) → P x → All P xs → All P (sort_insert x xs)
    All-sort_insert x [] h k = (h, tt)
    All-sort_insert x (y ∷ ys) h k = place (before x y) (All-sort_insert x ys h k.1)
      where
        place :
            (b : Bool)
            → All P (sort_insert x ys)
            → All P (if b then x ∷ y ∷ ys else y ∷ sort_insert x ys)
        place true r = (h, k)
        place false r = (k.0, r)

    pub All-sort_by : (xs : List A) → All P xs → All P (sort_by xs)
    All-sort_by [] h = tt
    All-sort_by (x ∷ xs) h = All-sort_insert x (sort_by xs) h.0 (All-sort_by xs h.1)
