-- ===== src/Go/Strconv.antt =====
-- The functions of package `strconv` that the source calls, and the integers that they read.
pub mod Digits
use pgwarden.Prelude.{
  ℕ, zero, suc, ◌+◌, ◌-◌, ◌*◌, ◌/◌, ◌%◌, ◌^◌, ◌<◌, ◌≡◌, refl, ◌∙◌, Bool, true, false, ◌&&◌, Option,
  none, some, [], ◌∷◌, ◌++◌, Bytes, length, arith, leb, ltb, ◌==◌, if◌then◌else◌, Bool-cases, inl,
  inr,
}

-- A Go integer. `negsuc n` is -(n + 1).
pub data ℤ : Type 0 where
  pos : ℕ → ℤ
  negsuc : ℕ → ℤ

-- `a < b` for a number `b` that is at least 0
abbrev pub less : ℤ → ℕ → Bool
less (pos a) b = ltb a b
less (negsuc a) b = true

-- `a > b` for a number `b` that is at least 0
abbrev pub exceeds : ℤ → ℕ → Bool
exceeds (pos a) b = ltb b a
exceeds (negsuc a) b = false

-- The number, where it is at least 0.
abbrev pub pos_part : ℤ → ℕ
pos_part (pos n) = n
pos_part (negsuc n) = 0

unfoldable pub is_digit : ℕ → Bool
is_digit c = leb 48 c && leb c 57

unfoldable pub itoa_fuel : ℕ → ℕ → Bytes
itoa_fuel zero n = []
itoa_fuel (suc f) n =
    let rest = itoa_fuel f (n / 10) in
    if ltb n 10 then (48 + n) ∷ [] else rest ++ (48 + n % 10) ∷ []

-- strconv.Itoa of a number that is at least 0, and `%d`
unfoldable pub itoa : ℕ → Bytes
unfolding itoa_fuel
itoa n = itoa_fuel (suc n) n

-- The number that the digits stand for, read behind those of `acc`.
unfoldable pub parse_digits : ℕ → Bytes → Option ℕ
unfolding is_digit
parse_digits acc [] = some acc
parse_digits acc (c ∷ s) =
    let rest = parse_digits (acc * 10 + (c - 48)) s in if is_digit c then rest else none

abbrev positive : Option ℕ → Option ℤ
positive none = none
positive (some n) = if ltb n (2 ^ 63) then some (pos n) else none

abbrev negative : Option ℕ → Option ℤ
negative none = none
negative (some zero) = some (pos 0)
negative (some (suc n)) = if ltb n (2 ^ 63) then some (negsuc n) else none

-- At least one digit, and nothing else.
unfoldable pub parse_number : Bytes → Option ℕ
unfolding parse_digits
parse_number [] = none
parse_number (c ∷ s) = parse_digits 0 (c ∷ s)

-- strconv.Atoi and strconv.ParseInt(s, 10, 64); `none` is an error.
unfoldable pub atoi : Bytes → Option ℤ
unfolding parse_number
atoi [] = none
atoi (c ∷ s) =
    if c == b'-'
    then negative (parse_number s)
    else if c == b'+'
    then positive (parse_number s)
    else positive (parse_number (c ∷ s))
