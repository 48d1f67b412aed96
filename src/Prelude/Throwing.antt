-- ===== src/Prelude/Throwing.antt =====
-- Code that throws: a value or the error thrown.
use mathlib.Core.Path.{◌≡◌, refl, sym}
use mathlib.Core.Logic.{◌⊎◌, inl, inr}
use mathlib.Core.Bool.{Bool, true, false}
use mathlib.Core.Option.{Option, none, some}
use mathlib.Core.List.{List, [], ◌∷◌, ◌++◌}

pub data Result (E A : Type 0) : Type 0 where
  ok : A → Result E A
  err : E → Result E A

infixl 5 ◌>>=◌ ◌>>◌
-- The rest of the code is not run behind a throw.
abbrev pub ◌>>=◌ : {E A B : Type 0} → Result E A → (A → Result E B) → Result E B
err thrown >>= rest = err thrown
ok value >>= rest = rest value

abbrev pub ◌>>◌ : {E B : Type 0} → Result E (Unit {0}) → Result E B → Result E B
check >> rest = check >>= λ _. rest

-- `if (test) throw new E()`
abbrev pub throw_if : {E : Type 0} → Bool → E → Result E (Unit {0})
throw_if true e = err e
throw_if false e = ok tt

-- A missing row or key that the code answers by a throw.
abbrev pub or_throw : {E A : Type 0} → Option A → E → Result E A
or_throw none e = err e
or_throw (some a) e = ok a

-- Code that returned got a value from its first part and returned from its second.
pub >>=-eq-ok :
    {E A B : Type 0} (first : Result E A) (rest : A → Result E B) {returned : B}
    → (first >>= rest) ≡ ok returned
    → (value : A) × (first ≡ ok value) × (rest value ≡ ok returned)
>>=-eq-ok (err thrown) rest h = cc
>>=-eq-ok (ok value) rest h = (value, refl, h)

pub throw_if-eq-ok :
    {E B : Type 0} (test : Bool) (e : E) (k : Result E B) {b : B}
    → (throw_if test e >> k) ≡ ok b
    → (test ≡ false) × (k ≡ ok b)
throw_if-eq-ok true e k h = cc
throw_if-eq-ok false e k h = (refl, h)

-- Code that threw did so in its first part or behind it.
pub >>=-eq-err :
    {E A B : Type 0} (first : Result E A) (rest : A → Result E B) {thrown : E}
    → (first >>= rest) ≡ err thrown
    → (first ≡ err thrown) ⊎ ((value : A) × (first ≡ ok value) × (rest value ≡ err thrown))
>>=-eq-err (err e) rest h = inl cc
>>=-eq-err (ok value) rest h = inr (value, refl, h)

pub throw_if-eq-err :
    {E B : Type 0} (test : Bool) (e : E) (k : Result E B) {thrown : E}
    → (throw_if test e >> k) ≡ err thrown
    → ((test ≡ true) × (e ≡ thrown)) ⊎ ((test ≡ false) × (k ≡ err thrown))
throw_if-eq-err true e k h = inl (refl, cc)
throw_if-eq-err false e k h = inr (refl, h)

-- If the code returns, what it returns satisfies `P`.
unfoldable pub Ensures : {E A : Type 0} → (A → Type 0) → Result E A → Type 0
Ensures P (ok a) = P a
Ensures P (err e) = Unit

pub Ensures-throw_if :
    {E A : Type 0} (P : A → Type 0) (test : Bool) (e : E) (k : Result E A)
    → (test ≡ false → Ensures P k)
    → Ensures P (throw_if test e >> k)
unfolding Ensures
Ensures-throw_if P true e k h = tt
Ensures-throw_if P false e k h = h refl

pub Ensures-or_throw :
    {E A B : Type 0} (P : B → Type 0) (o : Option A) (e : E) (f : A → Result E B)
    → ((a : A) → o ≡ some a → Ensures P (f a))
    → Ensures P (or_throw o e >>= f)
unfolding Ensures
Ensures-or_throw P none e f h = tt
Ensures-or_throw P (some a) e f h = h a refl

pub Ensures->>= :
    {E A B : Type 0} (P : B → Type 0) (m : Result E A) (f : A → Result E B)
    → ((a : A) → m ≡ ok a → Ensures P (f a))
    → Ensures P (m >>= f)
unfolding Ensures
Ensures->>= P (err e) f h = tt
Ensures->>= P (ok a) f h = h a refl

pub Ensures-weaken :
    {E A : Type 0} (P Q : A → Type 0) (r : Result E A)
    → ((a : A) → P a → Q a)
    → Ensures P r
    → Ensures Q r
unfolding Ensures
Ensures-weaken P Q (ok a) f h = f a h
Ensures-weaken P Q (err e) f h = tt

pub Ensures-ok :
    {E A : Type 0} (P : A → Type 0) (r : Result E A) {a : A} → Ensures P r → r ≡ ok a → P a
unfolding Ensures
Ensures-ok P (ok b) {a} h e = let same : b ≡ a = cc in rw (sym same) h
Ensures-ok P (err e) h k = cc

-- `list.map(f)` and `list.flatMap(f)` where `f` may throw: the first throw ends the loop.
module _ {E A B : Type 0} where
  abbrev pub map_result : (A → Result E B) → List A → Result E (List B)
  map_result f [] = ok []
  map_result f (x ∷ xs) = f x >>= λ y. map_result f xs >>= λ ys. ok (y ∷ ys)

  abbrev pub flat_map_result : (A → Result E (List B)) → List A → Result E (List B)
  flat_map_result f [] = ok []
  flat_map_result f (x ∷ xs) = f x >>= λ ys. flat_map_result f xs >>= λ zs. ok (ys ++ zs)
