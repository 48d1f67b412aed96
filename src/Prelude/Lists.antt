-- ===== src/Prelude/Lists.antt =====
-- Lists over the native numbers: lengths, sums of a measure (`reduce((sum, x) => sum + f(x), 0n)`),
-- predicates on every element, `filter` by a Boolean test.
use mathlib.Core.Option.{Option, none, some}
use Prim.Native.Nat.{zero, ℕ, suc, ◌+◌, ◌≤◌}
use mathlib.Core.Path.{◌≡◌, refl, ap, sym}
use mathlib.Core.Bool.{Bool, true, false, not}
use mathlib.Core.List.{List, [], ◌∷◌, ◌++◌, map}
use native.Mathlib.Omega.{arith}
use clycites_platform.Prelude.Tests.{if◌then◌else◌}

module _ {ℓ} {A : Type ℓ} where
  abbrev pub length : List A → ℕ
  length [] = 0
  length (x ∷ xs) = suc (length xs)

  -- `xs[i]`, and `xs` with the element at `i` replaced.
  abbrev pub get_elem? : List A → ℕ → Option A
  get_elem? [] i = none
  get_elem? (x ∷ xs) zero = some x
  get_elem? (x ∷ xs) (suc i) = get_elem? xs i

  abbrev pub set : List A → ℕ → A → List A
  set [] i v = []
  set (x ∷ xs) zero v = v ∷ xs
  set (x ∷ xs) (suc i) v = x ∷ set xs i v

  abbrev pub sum_by : (A → ℕ) → List A → ℕ
  sum_by f [] = 0
  sum_by f (x ∷ xs) = f x + sum_by f xs

  abbrev pub All {κ} : (A → Type κ) → List A → Type κ
  All P [] = Unit
  All P (x ∷ xs) = P x × All P xs

  abbrev pub filter : (A → Bool) → List A → List A
  filter p [] = []
  filter p (x ∷ xs) = let rest = filter p xs in if p x then x ∷ rest else rest

  pub get_elem?-set :
      (ds : List A) (i : ℕ) (d e : A) → get_elem? ds i ≡ some d → get_elem? (set ds i e) i ≡ some e
  get_elem?-set [] i d e h = cc
  get_elem?-set (x ∷ ds) zero d e h = refl
  get_elem?-set (x ∷ ds) (suc i) d e h = get_elem?-set ds i d e h

  pub length-append : (xs ys : List A) → length (xs ++ ys) ≡ length xs + length ys
  length-append [] ys = omega arith
  length-append (x ∷ xs) ys = omega (arith, length-append xs ys)

  pub sum_by-append : (f : A → ℕ) (xs ys : List A) → sum_by f (xs ++ ys) ≡ sum_by f xs + sum_by f ys
  sum_by-append f [] ys = omega arith
  sum_by-append f (x ∷ xs) ys = omega (arith, sum_by-append f xs ys)

  -- A filter and its complement split every sum.
  pub sum_by-filter :
      (f : A → ℕ) (p : A → Bool) (xs : List A)
      → sum_by f (filter p xs) + sum_by f (filter (λ x. not (p x)) xs) ≡ sum_by f xs
  sum_by-filter f p [] = omega arith
  sum_by-filter f p (x ∷ xs) = ground (arith, sum_by-filter f p xs)

  pub All-filter {κ} :
      (P : A → Type κ) (p : A → Bool) (xs : List A)
      → ((x : A) → p x ≡ true → P x)
      → All P (filter p xs)
  All-filter P p [] h = tt
  All-filter P p (x ∷ xs) h = filter_head (p x) (h x) (All-filter P p xs h)
    where
      filter_head :
          (b : Bool)
          → (b ≡ true → P x)
          → All P (filter p xs)
          → All P (if b then x ∷ filter p xs else filter p xs)
      filter_head true k r = (k refl, r)
      filter_head false k r = r

-- Lists of which one element is replaced.
module _ {ℓ} {A : Type ℓ} where
  pub sum_by-set :
      (f : A → ℕ) (ds : List A) (i : ℕ) (d e : A)
      → get_elem? ds i ≡ some d
      → sum_by f (set ds i e) + f d ≡ sum_by f ds + f e
  sum_by-set f [] i d e h = cc
  sum_by-set f (x ∷ ds) zero d e h = let k : x ≡ d = cc in rw k (omega arith)
  sum_by-set f (x ∷ ds) (suc i) d e h = omega (arith, sum_by-set f ds i d e h)

  pub get_elem?-sum_by :
      (f : A → ℕ) (ds : List A) (i : ℕ) (d : A) → get_elem? ds i ≡ some d → f d ≤ sum_by f ds
  get_elem?-sum_by f [] i d h = cc
  get_elem?-sum_by f (x ∷ ds) zero d h = let k : x ≡ d = cc in rw k (omega arith)
  get_elem?-sum_by f (x ∷ ds) (suc i) d h = omega (arith, get_elem?-sum_by f ds i d h)

  pub All-set {κ} :
      (P : A → Type κ) (ds : List A) (i : ℕ) (e : A) → All P ds → P e → All P (set ds i e)
  All-set P [] i e a p = tt
  All-set P (x ∷ ds) zero e a p = (p, a.1)
  All-set P (x ∷ ds) (suc i) e a p = (a.0, All-set P ds i e a.1 p)

  pub All-get_elem? {κ} :
      (P : A → Type κ) (ds : List A) (i : ℕ) (d : A) → All P ds → get_elem? ds i ≡ some d → P d
  All-get_elem? P [] i d a h = cc
  All-get_elem? P (x ∷ ds) zero d a h = let k : x ≡ d = cc in rw (sym k) a.0
  All-get_elem? P (x ∷ ds) (suc i) d a h = All-get_elem? P ds i d a.1 h

  pub All-append {κ} : (P : A → Type κ) (ds es : List A) → All P ds → All P es → All P (ds ++ es)
  All-append P [] es a b = b
  All-append P (x ∷ ds) es a b = (a.0, All-append P ds es a.1 b)

  pub set-set : (ds : List A) (i : ℕ) (d e : A) → set (set ds i d) i e ≡ set ds i e
  set-set [] i d e = refl
  set-set (x ∷ ds) zero d e = refl
  set-set (x ∷ ds) (suc i) d e = ap (λ r. x ∷ r) (set-set ds i d e)

module _ {ℓ κ} {A : Type ℓ} {B : Type κ} where
  pub sum_by-map :
      (g : B → ℕ) (f : A → B) (xs : List A) → sum_by g (map f xs) ≡ sum_by (λ x. g (f x)) xs
  sum_by-map g f [] = refl
  sum_by-map g f (x ∷ xs) = omega (arith, sum_by-map g f xs)

  pub length-map : (f : A → B) (xs : List A) → length (map f xs) ≡ length xs
  length-map f [] = refl
  length-map f (x ∷ xs) = ap suc (length-map f xs)

  abbrev pub flat_map : (A → List B) → List A → List B
  flat_map f [] = []
  flat_map f (x ∷ xs) = f x ++ flat_map f xs
