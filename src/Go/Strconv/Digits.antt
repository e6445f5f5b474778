-- ===== src/Go/Strconv/Digits.antt =====
-- Printing and reading numbers.
use pgwarden.Prelude.{
  ℕ, zero, suc, ◌+◌, ◌-◌, ◌*◌, ◌/◌, ◌%◌, ◌<◌, ◌≡◌, refl, ◌∙◌, ap, true, false, Option, none, some,
  [], ◌∷◌, ◌++◌, Bytes, arith, ltb, if◌then◌else◌, Bool-cases, inl, inr,
}
use pgwarden.Go.Strconv.{is_digit, itoa, itoa_fuel, parse_digits}

abbrev pub and_then : Option ℕ → Bytes → Option ℕ
and_then none ys = none
and_then (some v) ys = parse_digits v ys

pub parse_digits-append :
    (acc : ℕ) (xs ys : Bytes) → parse_digits acc (xs ++ ys) ≡ and_then (parse_digits acc xs) ys
unfolding parse_digits
parse_digits-append acc [] ys = refl
parse_digits-append acc (c ∷ xs) ys = elim (Bool-cases (is_digit c)) [
  | inl d ↦ rw d (parse_digits-append (acc * 10 + (c - 48)) xs ys)
  | inr d ↦ rw d refl
]

pub digit_range : (d : ℕ) → d < 10 → is_digit (48 + d) ≡ true
unfolding is_digit
digit_range d h = ground arith

parse_digit : (acc d : ℕ) → d < 10 → parse_digits acc ((48 + d) ∷ []) ≡ some (acc * 10 + d)
unfolding parse_digits
parse_digit acc d h = rw (digit_range d h) (ap (λ (v : ℕ). some v) (omega arith))

digit_behind :
    (acc v d : ℕ) (xs : Bytes)
    → parse_digits acc xs ≡ some v
    → d < 10
    → parse_digits acc (xs ++ (48 + d) ∷ []) ≡ some (v * 10 + d)
digit_behind acc v d xs h small =
    parse_digits-append acc xs ((48 + d) ∷ []) ∙ rw h (parse_digit v d small)

some_eq : (m n : ℕ) → m ≡ n → ◌≡◌ {A = Option ℕ} (some m) (some n)
some_eq m n e = ap (λ (v : ℕ). some v) e

itoa_fuel-value : (f n : ℕ) → n < f → parse_digits 0 (itoa_fuel f n) ≡ some n
unfolding itoa_fuel
itoa_fuel-value zero n h = absurd (omega arith)
itoa_fuel-value (suc f) n h = elim (Bool-cases (ltb n 10)) [
  | inl one ↦ rw one (parse_digit 0 n (ground arith) ∙ some_eq _ _ (omega arith))
  | inr more ↦ rw more (
      digit_behind 0 (n / 10) (n % 10) (itoa_fuel f (n / 10))
        (itoa_fuel-value f (n / 10) (ground arith)) (omega arith)
      ∙ some_eq _ _ (omega arith))
]

-- The digits of `itoa n` stand for `n`.
pub itoa-value : (n : ℕ) → parse_digits 0 (itoa n) ≡ some n
unfolding itoa
itoa-value n = itoa_fuel-value (suc n) n (omega arith)

-- What is not a digit ends a number.
pub lead : ℕ → Bytes → ℕ
lead acc [] = acc
lead acc (c ∷ s) = let rest = lead (acc * 10 + (c - 48)) s in if is_digit c then rest else acc

pub lead-digits :
    (acc v c : ℕ) (xs rest : Bytes)
    → is_digit c ≡ false
    → parse_digits acc xs ≡ some v
    → lead acc (xs ++ c ∷ rest) ≡ v
unfolding lead parse_digits
lead-digits acc v c [] rest stop h = rw stop (cc)
lead-digits acc v c (d ∷ xs) rest stop h = elim (Bool-cases (is_digit d)) [
  | inl digit ↦ rw digit (lead-digits (acc * 10 + (d - 48)) v c xs rest stop (rw digit at h))
  | inr other ↦ ground (arith, rw other at h)
]
