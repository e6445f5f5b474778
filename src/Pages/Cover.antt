-- ===== src/Pages/Cover.antt =====
-- The pages of a list: internal/util/paginateutil and PaginateEvents.
use pgwarden.Prelude.{
  ℕ, zero, suc, ◌+◌, ◌-◌, ◌*◌, ◌%◌, ◌≤◌, ◌<◌, ◌≡◌, refl, ap, sym, subst, ◌∙◌, min, max, ◌||◌, List,
  [], ◌∷◌, ◌++◌, take, drop, length, drop-drop, take-append-drop, concat, ◌==◌, ==_iff, arith,
  Bool-cases, inl, inr, if◌then◌else◌,
}
use native.Mathlib.Nat.{mod-eq-sub-div-mul, lt-div-mul-add}
use pgwarden.Go.Strconv.{ℤ, pos, pos_part}
use pgwarden.Pages.{
  create_offset_from_params, total_pages_of, create_paginate_response, clamped, paginate_events,
}

-- The last page ends at the last row or behind it.
total_pages-le : (total limit : ℕ) → 0 < limit → total ≤ total_pages_of total limit * limit
unfolding total_pages_of
total_pages-le total limit h = elim (Bool-cases (total % limit == 0)) [
  | inl even ↦ rw even (
      let none_left = (==_iff (total % limit) 0).0 even in
      omega (arith, none_left, mod-eq-sub-div-mul total limit))
  | inr odd ↦ rw odd (let bound = lt-div-mul-add {a = total} h in omega (arith, bound))
]

offset-value :
    (m i l : ℕ) → m ≡ suc i → 1 ≤ l → (if m == 0 || l == 0 then 0 else (m - 1) * l) ≡ i * l
offset-value m i l e h = elim (Bool-cases (m == 0 || l == 0)) [
  | inl none_of ↦ absurd (ground (arith, none_of))
  | inr some_of ↦ rw some_of (ap (λ (k : ℕ). k * l) {x = m - 1} {y = i} (omega arith))
]

-- `n` pages in a row, from page `i + 1` on.
pub pages_from {ℓ} : {A : Type ℓ} → ℤ → List A → ℕ → ℕ → List (List A)
pages_from limit rows zero i = []
pages_from limit rows (suc n) i =
    (paginate_events (pos (suc i)) limit rows).1 ∷ pages_from limit rows n (suc i)

clamped-limit :
    (i : ℕ) (limit : ℤ) → (clamped (pos i) limit).limit ≡ min (max (pos_part limit) 1) 100
unfolding clamped
clamped-limit i limit = refl

module _ {ℓ} {A : Type ℓ} where
  drop-all : (n : ℕ) (xs : List A) → length xs ≤ n → drop n xs ≡ []
  drop-all zero [] h = refl
  drop-all zero (x ∷ xs) h = absurd (omega arith)
  drop-all (suc n) [] h = refl
  drop-all (suc n) (x ∷ xs) h = drop-all n xs (omega arith)

  page-rows :
      (limit : ℤ) (rows : List A) (i : ℕ)
      → let l = (clamped (pos (suc i)) limit).limit in
        (paginate_events (pos (suc i)) limit rows).1 ≡ take l (drop (i * l) rows)
  unfolding paginate_events clamped create_offset_from_params
  page-rows limit rows i =
      ap (λ (k : ℕ). take (min (max (pos_part limit) 1) 100) (drop k rows))
        (offset-value (max (suc i) 1) i (min (max (pos_part limit) 1) 100) (omega arith)
          (omega arith))

  pages-drop :
      (limit : ℤ) (rows : List A) (n i l : ℕ)
      → l ≡ min (max (pos_part limit) 1) 100
      → length rows ≤ (i + n) * l
      → concat (pages_from limit rows n i) ≡ drop (i * l) rows
  unfolding pages_from
  pages-drop limit rows zero i l e h = sym (drop-all (i * l) rows (omega arith))
  pages-drop limit rows (suc n) i l e h =
      let behind =
        pages-drop limit rows n (suc i) l e (
          subst (λ (k : ℕ). length rows ≤ k * l) {x = i + suc n} {y = suc i + n} (omega arith) h) in
      let here = page-rows limit rows i in
      rw (here, behind)
        (rw (clamped-limit (suc i) limit, ← e)
          (ap (λ (r : List A). take l (drop (i * l) rows) ++ r)
              (ap (λ (k : ℕ). drop k rows) {x = suc i * l} {y = i * l + l} (omega arith)
                ∙ sym (drop-drop l (i * l) rows))
            ∙ take-append-drop l (drop (i * l) rows)))

-- Asked for page after page, whatever the limit of the request, the service returns each row once and in order: the
-- pages 1 to `total_pages` of the reply, one behind the other, are the rows.
pub pages_cover {ℓ} :
    {A : Type ℓ} (limit : ℤ) (rows : List A)
    → concat (pages_from limit rows (paginate_events (pos 1) limit rows).0.total_pages 0) ≡ rows
unfolding paginate_events create_paginate_response clamped
pages_cover limit rows =
    let l = min (max (pos_part limit) 1) 100 in
    pages-drop limit rows (total_pages_of (length rows) l) 0 l refl (
      subst (λ (k : ℕ). length rows ≤ k * l) {x = total_pages_of (length rows) l} (omega arith)
        (total_pages-le (length rows) l (omega arith)))
    ∙ ap (λ (k : ℕ). drop k rows) {x = 0 * l} {y = 0} (omega arith)
