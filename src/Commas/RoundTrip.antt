-- ===== src/Commas/RoundTrip.antt =====
-- The fuel of IntWithCommas, and its commas taken away again.
use pgwarden.Prelude.{
  ℕ, zero, suc, ◌+◌, ◌-◌, ◌*◌, ◌/◌, ◌%◌, ◌<◌, ◌≡◌, refl, ap, ◌∙◌, true, false, Option, some, [],
  ◌∷◌, ◌++◌, Bytes, arith, ltb, ◌==◌, if◌then◌else◌, Bool-cases, inl, inr,
}
use pgwarden.Go.Strings.{remove_all}
use pgwarden.Go.Strconv.{is_digit, itoa, parse_digits}
use pgwarden.Go.Strconv.Digits.{itoa-value, digit_range, parse_digits-append}
use pgwarden.Commas.{pad3, commas_fuel, int_with_commas}

-- Any fuel above the number gives the same text.
commas_fuel-enough : (f g n : ℕ) → n < f → n < g → commas_fuel f n ≡ commas_fuel g n
unfolding commas_fuel
commas_fuel-enough zero g n h k = absurd (omega arith)
commas_fuel-enough (suc f) zero n h k = absurd (omega arith)
commas_fuel-enough (suc f) (suc g) n h k = elim (Bool-cases (ltb n 1000)) [
  | inl small ↦ rw small
  | inr large ↦ rw (large, commas_fuel-enough f g (n / 1000) (ground arith) (ground arith))
]

-- IntWithCommas ends for every number: the text is the one that the recursion of the code gives, in which
-- the groups before the last come from the number divided by 1000.
pub commas_recur :
    (n : ℕ)
    → int_with_commas n
      ≡ (if ltb n 1000 then itoa n else int_with_commas (n / 1000) ++ (b',' ∷ pad3 (n % 1000)))
unfolding int_with_commas commas_fuel
commas_recur n = elim (Bool-cases (ltb n 1000)) [
  | inl small ↦ rw small
  | inr large ↦
      rw (large, commas_fuel-enough n (suc (n / 1000)) (n / 1000) (ground arith) (omega arith))
]

remove_all-append : (d : ℕ) (s t : Bytes) → remove_all d (s ++ t) ≡ remove_all d s ++ remove_all d t
unfolding remove_all
remove_all-append d [] t = refl
remove_all-append d (c ∷ s) t = elim (Bool-cases (c == d)) [
  | inl hit ↦ rw (hit, remove_all-append d s t)
  | inr other ↦ rw (other, remove_all-append d s t)
]

not_comma : (c : ℕ) → is_digit c ≡ true → (c == b',') ≡ false
unfolding is_digit
not_comma c h = ground arith

-- A text of digits has no comma.
remove_all-digits : (acc v : ℕ) (s : Bytes) → parse_digits acc s ≡ some v → remove_all b',' s ≡ s
unfolding remove_all parse_digits
remove_all-digits acc v [] h = refl
remove_all-digits acc v (c ∷ s) h = elim (Bool-cases (is_digit c)) [
  | inl digit ↦ rw (not_comma c digit, remove_all-digits (acc * 10 + (c - 48)) v s (rw digit at h))
  | inr other ↦ absurd (let no = rw other at h in cc)
]

some_eq : (m n : ℕ) → m ≡ n → ◌≡◌ {A = Option ℕ} (some m) (some n)
some_eq m n e = ap (λ (v : ℕ). some v) e

pad3-value : (acc n : ℕ) → n < 1000 → parse_digits acc (pad3 n) ≡ some (acc * 1000 + n)
unfolding parse_digits pad3
pad3-value acc n h =
    rw
      (
        digit_range (n / 100) (omega arith),
        digit_range (n / 10 % 10) (omega arith),
        digit_range (n % 10) (omega arith),
      )
      (some_eq _ _ (omega arith))

fuel-value : (f n : ℕ) → n < f → parse_digits 0 (remove_all b',' (commas_fuel f n)) ≡ some n
unfolding commas_fuel remove_all
fuel-value zero n h = absurd (omega arith)
fuel-value (suc f) n h = elim (Bool-cases (ltb n 1000)) [
  | inl small ↦ rw (small, remove_all-digits 0 n (itoa n) (itoa-value n)) (itoa-value n)
  | inr large ↦
      rw
        (
          large,
          remove_all-append b',' (commas_fuel f (n / 1000)) (b',' ∷ pad3 (n % 1000)),
          remove_all-digits 0 (0 * 1000 + n % 1000) (pad3 (n % 1000))
              (pad3-value 0 (n % 1000) (omega arith)),
          parse_digits-append 0 (remove_all b',' (commas_fuel f (n / 1000))) (pad3 (n % 1000)),
          fuel-value f (n / 1000) (ground arith),
        )
        (pad3-value (n / 1000) (n % 1000) (omega arith) ∙ some_eq _ _ (omega arith))
]

-- Without its commas, a printed number is read back.
pub commas_round_trip : (n : ℕ) → parse_digits 0 (remove_all b',' (int_with_commas n)) ≡ some n
unfolding int_with_commas
commas_round_trip n = fuel-value (suc n) n (omega arith)
