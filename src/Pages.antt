-- ===== src/Pages.antt =====
-- internal/util/paginateutil, and PaginateEvents of internal/service/discovery/discovery.go: a page of a
-- list. The rows that match the filters, in the order of the statement, are the argument `rows`;
-- LIMIT and OFFSET take a page of them.
pub mod Cover
mod Tests
use pgwarden.Prelude.{
  ℕ, suc, ◌+◌, ◌-◌, ◌*◌, ◌/◌, ◌%◌, min, max, Bool, true, false, ◌||◌, List, take, drop, length, leb,
  ltb, ◌==◌, if◌then◌else◌,
}
use pgwarden.Go.Strconv.{ℤ, pos, negsuc, pos_part}

pub record PaginateParams : Type 0 where
  pub page : ℕ
  pub limit : ℕ

pub record PaginateResponse : Type 0 where
  pub total_items : ℕ
  pub total_pages : ℕ
  pub items_per_page : ℕ
  pub previous_page : ℕ
  pub has_previous_page : Bool
  pub current_page : ℕ
  pub next_page : ℕ
  pub has_next_page : Bool

pub create_offset_from_params : PaginateParams → ℕ
create_offset_from_params p = if p.page == 0 || p.limit == 0 then 0 else (p.page - 1) * p.limit

-- The limit is not 0, by which the code would divide.
pub total_pages_of : ℕ → ℕ → ℕ
total_pages_of total limit = if total % limit == 0 then total / limit else suc (total / limit)

pub create_paginate_response : PaginateParams → ℕ → PaginateResponse
create_paginate_response p total =
    let total_pages = total_pages_of total p.limit in
    let previous_page = p.page - 1 in
    let next_page = if ltb total_pages (p.page + 1) then 0 else p.page + 1 in
    record {
      total_items = total;
      total_pages = total_pages;
      items_per_page = p.limit;
      previous_page = previous_page;
      has_previous_page = ltb 0 previous_page;
      current_page = p.page;
      next_page = next_page;
      has_next_page = ltb 0 next_page;
    }

-- The page and the limit that PaginateEvents uses for those of the request.
pub clamped : ℤ → ℤ → PaginateParams
clamped page limit = record {
  page = max (pos_part page) 1;
  limit = min (max (pos_part limit) 1) 100;
}

-- PaginateEvents where the database answers; an offset that passes 2^31 is out of the model.
pub paginate_events {ℓ} : {A : Type ℓ} → ℤ → ℤ → List A → PaginateResponse × List A
paginate_events page limit rows =
    let p = clamped page limit in
    (
      create_paginate_response p (length rows),
      take p.limit (drop (create_offset_from_params p) rows),
    )
