-- ===== src/Commas.antt =====
-- internal/util/numutil/int_with_commas.go: numbers with a comma before each group of three digits. The
-- smallest number of a signed type, whose negation is itself, is left out.
pub mod RoundTrip
mod Tests
use pgwarden.Prelude.{ℕ, zero, suc, ◌+◌, ◌/◌, ◌%◌, [], ◌∷◌, ◌++◌, Bytes, ltb, if◌then◌else◌}
use pgwarden.Go.Strconv.{ℤ, pos, negsuc, itoa}

-- `%03d` of a number below 1000
pub pad3 : ℕ → Bytes
pad3 n = (48 + n / 100) ∷ (48 + n / 10 % 10) ∷ (48 + n % 10) ∷ []

pub commas_fuel : ℕ → ℕ → Bytes
commas_fuel zero n = []
commas_fuel (suc f) n =
    let rest = commas_fuel f (n / 1000) in
    if ltb n 1000 then itoa n else rest ++ (b',' ∷ pad3 (n % 1000))

-- IntWithCommas of a number that is at least 0. The fuel is more than the number, which each round divides.
pub int_with_commas : ℕ → Bytes
int_with_commas n = commas_fuel (suc n) n

-- IntWithCommas
pub signed_with_commas : ℤ → Bytes
signed_with_commas (pos n) = int_with_commas n
signed_with_commas (negsuc n) = b'-' ∷ int_with_commas (suc n)
