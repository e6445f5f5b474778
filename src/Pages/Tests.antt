-- ===== src/Pages/Tests.antt =====
-- Five rows, two to a page.
use pgwarden.Prelude.{ℕ, ◌≡◌, refl, false, List, [], ◌∷◌, concat}
use pgwarden.Go.Strconv.{pos, negsuc}
use pgwarden.Pages.{
  paginate_events, create_paginate_response, clamped, create_offset_from_params, total_pages_of,
}
use pgwarden.Pages.Cover.{pages_from, pages_cover}

abbrev rows : List ℕ
rows = 1 ∷ 2 ∷ 3 ∷ 4 ∷ 5 ∷ []

last_page : (paginate_events (pos 3) (pos 2) rows).1 ≡ 5 ∷ []
unfolding paginate_events clamped create_offset_from_params
last_page = refl

no_next : (paginate_events (pos 3) (pos 2) rows).0.has_next_page ≡ false
unfolding paginate_events create_paginate_response total_pages_of clamped
no_next = refl

-- A page below 1 is the first one, and a limit below 1 is 1.
first_page : (paginate_events (negsuc 4) (negsuc 0) rows).1 ≡ 1 ∷ []
unfolding paginate_events clamped create_offset_from_params
first_page = refl

pages_cover_example :
    concat (pages_from (pos 2) rows (paginate_events (pos 1) (pos 2) rows).0.total_pages 0) ≡ rows
pages_cover_example = pages_cover (pos 2) rows
