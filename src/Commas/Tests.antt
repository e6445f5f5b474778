-- ===== src/Commas/Tests.antt =====
-- A number of three groups.
use pgwarden.Prelude.{◌≡◌, refl, codes}
use pgwarden.Go.Strconv.{negsuc, itoa}
use pgwarden.Commas.{pad3, commas_fuel, int_with_commas, signed_with_commas}

groups : signed_with_commas (negsuc 1234006) ≡ codes "-1,234,007"
unfolding signed_with_commas int_with_commas commas_fuel itoa pad3
groups = refl
