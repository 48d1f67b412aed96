-- ===== src/Prelude/Mapping.antt =====
-- What a `map` whose callback may throw carries over from the list to its result.
use Prim.Native.Nat.{ℕ}
use mathlib.Core.Path.{◌≡◌, refl}
use mathlib.Core.List.{List, [], ◌∷◌}
use native.Mathlib.Omega.{arith}
use clycites_platform.Prelude.Lists.{sum_by, All}
use clycites_platform.Prelude.Throwing.{Result, ok, ◌>>=◌, map_result, >>=-eq-ok}

module _ {E A B : Type 0} (f : A → Result E B) where
  map_result-cons :
      (x : A) (xs : List A) {ys : List B}
      → map_result f (x ∷ xs) ≡ ok ys
      → (y : B) × (rest : List B) × (f x ≡ ok y) × (map_result f xs ≡ ok rest) × (ys ≡ y ∷ rest)
  map_result-cons x xs {ys} h =
      let (y, headed, h') = >>=-eq-ok (f x) (λ z. map_result f xs >>= λ zs. ok (z ∷ zs)) h in
      let (rest, tailed, h'') = >>=-eq-ok (map_result f xs) (λ zs. ok (y ∷ zs)) h' in
      (y, rest, headed, tailed, cc)

  pub map_result-All :
      (P : A → Type 0) (Q : B → Type 0)
      → ((x : A) (y : B) → f x ≡ ok y → P x → Q y)
      → (xs : List A) {ys : List B} → All P xs
      → map_result f xs ≡ ok ys
      → All Q ys
  map_result-All P Q step [] {ys} a h = let e : ys ≡ [] = cc in rw e tt
  map_result-All P Q step (x ∷ xs) {ys} a h =
      let (y, rest, headed, tailed, e) = map_result-cons x xs h in
      rw e (step x y headed a.0, map_result-All P Q step xs a.1 tailed)

  pub map_result-sum :
      (g : B → ℕ) (k : A → ℕ)
      → ((x : A) (y : B) → f x ≡ ok y → g y ≡ k x)
      → (xs : List A) {ys : List B} → map_result f xs ≡ ok ys
      → sum_by g ys ≡ sum_by k xs
  map_result-sum g k step [] {ys} h = let e : ys ≡ [] = cc in rw e
  map_result-sum g k step (x ∷ xs) {ys} h =
      let (y, rest, headed, tailed, e) = map_result-cons x xs h in
      rw e (omega (arith, step x y headed, map_result-sum g k step xs tailed))

  -- If every call returns, so does the map.
  pub map_result-returns :
      (P : A → Type 0)
      → ((x : A) → P x → (y : B) × (f x ≡ ok y))
      → (xs : List A) → All P xs
      → (ys : List B) × (map_result f xs ≡ ok ys)
  map_result-returns P step [] a = ([], refl)
  map_result-returns P step (x ∷ xs) a =
      let (y, headed) = step x a.0 in
      let (ys, tailed) = map_result-returns P step xs a.1 in (y ∷ ys, rw (headed, tailed))
