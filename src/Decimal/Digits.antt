-- ===== src/Decimal/Digits.antt =====
-- Reading what was shown: the digits of a number, with zeros in front, read as that number, and
-- no digit is a point.
use native.Mathlib.Nat.{pow-suc}
use clycites_platform.Prelude.{
  ℕ, zero, suc, ◌+◌, ◌-◌, ◌*◌, ◌/◌, ◌%◌, ◌^◌, ◌≤◌, ◌<◌, ◌≡◌, refl, ap, ◌∙◌, true, inl, inr,
  Bool-cases, some, [], ◌∷◌, ◌++◌, arith, ltb, length, length-append, All,
}
use clycites_platform.Decimal.{
  Text, replicate, pad_start, read_digits, big_int, show_digits, show, combine,
}

abbrev pub IsDigit : ℕ → Type 0
IsDigit c = (b'0' ≤ c) × (c ≤ b'9')

-- The value of a text of digits behind `value`.
abbrev pub digits_value : ℕ → Text → ℕ
digits_value value [] = value
digits_value value (c ∷ text) = digits_value (value * 10 + (c - b'0')) text

pub read_digits-digits_value :
    (value : ℕ) (text : Text)
    → All IsDigit text
    → read_digits value text ≡ some (digits_value value text)
unfolding read_digits
read_digits-digits_value value [] h = refl
read_digits-digits_value value (c ∷ text) h =
    ground (arith, read_digits-digits_value (value * 10 + (c - b'0')) text h.1)

pub big_int-digits_value :
    (text : Text) → All IsDigit text → big_int text ≡ some (digits_value 0 text)
unfolding big_int
big_int-digits_value text h = read_digits-digits_value 0 text h

digits_value-append :
    (value : ℕ) (xs ys : Text)
    → digits_value value (xs ++ ys) ≡ digits_value (digits_value value xs) ys
digits_value-append value [] ys = refl
digits_value-append value (c ∷ xs) ys = digits_value-append (value * 10 + (c - b'0')) xs ys

All-append : (xs ys : Text) → All IsDigit xs → All IsDigit ys → All IsDigit (xs ++ ys)
All-append [] ys h k = k
All-append (c ∷ xs) ys h k = (h.0, All-append xs ys h.1 k)

show_digits-IsDigit : (fuel n : ℕ) → All IsDigit (show_digits fuel n)
unfolding show_digits
show_digits-IsDigit zero n = tt
show_digits-IsDigit (suc fuel) n = elim (Bool-cases (ltb n 10)) [
  | inl small ↦ rw small (ground arith, tt)
  | inr large ↦ rw large (
      All-append (show_digits fuel (n / 10)) ((b'0' + n % 10) ∷ [])
        (show_digits-IsDigit fuel (n / 10)) (omega arith, tt))
]

digits_value-show_digits : (fuel n : ℕ) → n < fuel → digits_value 0 (show_digits fuel n) ≡ n
unfolding show_digits
digits_value-show_digits zero n h = elim h [ ]
digits_value-show_digits (suc fuel) n h = elim (Bool-cases (ltb n 10)) [
  | inl small ↦ rw small (omega arith)
  | inr large ↦ rw large (
      let smaller : n / 10 < fuel = ground arith in
      digits_value-append 0 (show_digits fuel (n / 10)) ((b'0' + n % 10) ∷ [])
      ∙ (omega (arith, digits_value-show_digits fuel (n / 10) smaller)))
]

-- A number below 10 ^ k has at most k digits.
length-show_digits : (fuel n k : ℕ) → n < 10 ^ suc k → length (show_digits fuel n) ≤ suc k
unfolding show_digits
length-show_digits zero n k h = omega arith
length-show_digits (suc fuel) n zero h =
    let small : ltb n 10 ≡ true = ground arith in rw small (omega arith)
length-show_digits (suc fuel) n (suc k) h = elim (Bool-cases (ltb n 10)) [
  | inl small ↦ rw small (omega arith)
  | inr large ↦
      rw (large, length-append (show_digits fuel (n / 10)) ((b'0' + n % 10) ∷ []))
        (omega
          (arith, length-show_digits fuel (n / 10) k (omega (arith, rw (pow-suc 10 (suc k)) at h))))
]

replicate-IsDigit : (n : ℕ) → All IsDigit (replicate n b'0')
replicate-IsDigit zero = tt
replicate-IsDigit (suc n) = (omega arith, replicate-IsDigit n)

digits_value-replicate :
    (n : ℕ) (text : Text) → digits_value 0 (replicate n b'0' ++ text) ≡ digits_value 0 text
digits_value-replicate zero text = refl
digits_value-replicate (suc n) text = digits_value-replicate n text

-- A shown number is made of digits, whatever zeros stand in front.
pub padded-IsDigit : (k n : ℕ) → All IsDigit (pad_start k (show n))
unfolding show
padded-IsDigit k n =
    All-append (replicate (k - length (show n)) b'0') (show n)
      (replicate-IsDigit (k - length (show n))) (show_digits-IsDigit (suc n) n)

pub show-IsDigit : (n : ℕ) → All IsDigit (show n)
unfolding show
show-IsDigit n = show_digits-IsDigit (suc n) n

-- It reads back as the number.
pub big_int-padded : (k n : ℕ) → big_int (pad_start k (show n)) ≡ some n
unfolding big_int show
big_int-padded k n =
    read_digits-digits_value 0 (pad_start k (show n)) (padded-IsDigit k n)
    ∙ ap some (
        digits_value-replicate (k - length (show n)) (show n)
        ∙ digits_value-show_digits (suc n) n (omega arith))

pub big_int-show : (n : ℕ) → big_int (show n) ≡ some n
unfolding big_int show
big_int-show n =
    read_digits-digits_value 0 (show n) (show-IsDigit n)
    ∙ ap some (digits_value-show_digits (suc n) n (omega arith))

length-replicate : (n c : ℕ) → length (replicate n c) ≡ n
length-replicate zero c = refl
length-replicate (suc n) c = ap suc (length-replicate n c)

-- A number below 10 ^ k, padded to k places, has exactly k of them.
pub length-padded : (k n : ℕ) → n < 10 ^ suc k → length (pad_start (suc k) (show n)) ≡ suc k
unfolding show
length-padded k n h =
    length-append (replicate (suc k - length (show n)) b'0') (show n)
    ∙ (omega
        (arith, length-replicate (suc k - length (show n)) b'0', length-show_digits (suc n) n k h))

pub combine-some :
    (scale a b : ℕ) (whole fraction : Text)
    → big_int whole ≡ some a
    → big_int fraction ≡ some b
    → combine scale whole fraction ≡ some (a * scale + b)
unfolding combine
combine-some scale a b whole fraction h k = ground arith
