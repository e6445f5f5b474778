-- ===== src/Sanitize/Filter.antt =====
-- What the filter keeps of a dump.
use pgwarden.Prelude.{
  not, ◌||◌, keep, map, if◌then◌else◌, ◌≡◌, refl, ap, ◌∙◌, Bool, true, false, List, [], ◌∷◌, ◌++◌,
  concat, Bytes, All, inl, inr, Bool-cases,
}
use pgwarden.Sanitize.{
  Patterns, lines, is_copy_data_terminator, should_skip_dump_line, kept_lines, sanitize_dump,
}
use pgwarden.Sanitize.Lines.{
  AreLines, lines-AreLines, lines-concat, lines-of_concat, AreLines-tail, AreLines-cons,
}

module _ (p : Patterns) where
  kept-nil : (b : Bool) (ls : List Bytes) → ls ≡ [] → kept_lines p b ls ≡ []
  unfolding kept_lines
  kept-nil b ls h = rw h

  kept-AreLines : (b : Bool) (ls : List Bytes) → AreLines ls → AreLines (kept_lines p b ls)
  unfolding kept_lines
  kept-AreLines b [] h = tt
  kept-AreLines b (l ∷ ls) h =
      let after = (should_skip_dump_line p l b).1 in
      let rest = kept-AreLines after ls (AreLines-tail l ls h) in
      elim (Bool-cases (should_skip_dump_line p l b).0) [
        | inl skip ↦ rw skip rest
        | inr keep ↦ rw keep (AreLines-cons l ls (kept_lines p after ls) h rest (kept-nil after ls))
      ]

  -- Whether the data of a COPY goes on behind some lines.
  unfoldable pub in_copy_data : Bool → List Bytes → Bool
  in_copy_data b [] = b
  in_copy_data true (l ∷ ls) = in_copy_data (not (is_copy_data_terminator l)) ls
  in_copy_data false (l ∷ ls) = in_copy_data (p.copy_start l) ls

  -- A line and those behind it, where the line is kept or dropped.
  kept-cons :
      (skip : Bool) (l : Bytes) (xs ys : List Bytes)
      → (if skip then xs ++ ys else l ∷ (xs ++ ys)) ≡ (if skip then xs else l ∷ xs) ++ ys
  kept-cons true l xs ys = refl
  kept-cons false l xs ys = refl

  kept-append :
      (b : Bool) (xs ys : List Bytes)
      → kept_lines p b (xs ++ ys) ≡ kept_lines p b xs ++ kept_lines p (in_copy_data b xs) ys
  unfolding kept_lines should_skip_dump_line in_copy_data
  kept-append b [] ys = refl
  kept-append true (l ∷ xs) ys =
      ap (λ (r : List Bytes). l ∷ r) (kept-append (not (is_copy_data_terminator l)) xs ys)
  kept-append false (l ∷ xs) ys = elim (Bool-cases (p.copy_start l)) [
    | inl copy ↦ rw copy (ap (λ (r : List Bytes). l ∷ r) (kept-append true xs ys))
    | inr other ↦
        rw (other, kept-append false xs ys)
          (kept-cons (p.incompatible_set l || p.role_dependent l) l (kept_lines p false xs)
            (kept_lines p (in_copy_data false xs) ys))
  ]

  -- Each line with whether it passes unexamined: it starts the data of a COPY, or belongs to them.
  pub marked : Bool → List Bytes → List (Bool × Bytes)
  marked b [] = []
  marked true (l ∷ ls) = (true, l) ∷ marked (not (is_copy_data_terminator l)) ls
  marked false (l ∷ ls) = (p.copy_start l, l) ∷ marked (p.copy_start l) ls

  -- A line is kept if it passes unexamined or matches neither pattern.
  pub stays : Bool × Bytes → Bool
  stays (b, l) = b || not (p.incompatible_set l || p.role_dependent l)

  kept-marked :
      (b : Bool) (ls : List Bytes)
      → kept_lines p b ls ≡ map (λ (m : Bool × Bytes). m.1) (keep stays (marked b ls))
  unfolding kept_lines should_skip_dump_line marked stays
  kept-marked b [] = refl
  kept-marked true (l ∷ ls) =
      ap (λ (r : List Bytes). l ∷ r) (kept-marked (not (is_copy_data_terminator l)) ls)
  kept-marked false (l ∷ ls) = elim (Bool-cases (p.copy_start l)) [
    | inl copy ↦ rw copy (ap (λ (r : List Bytes). l ∷ r) (kept-marked true ls))
    | inr other ↦ elim (Bool-cases (p.incompatible_set l || p.role_dependent l)) [
      | inl drop ↦ rw (other, drop) (kept-marked false ls)
      | inr fine ↦ rw (other, fine) (ap (λ (r : List Bytes). l ∷ r) (kept-marked false ls))
    ]
  ]

  kept_data :
      (data_lines : List Bytes) (term : Bytes) (rest : List Bytes)
      → All (λ l. is_copy_data_terminator l ≡ false) data_lines
      → is_copy_data_terminator term ≡ true
      → kept_lines p true (data_lines ++ term ∷ rest) ≡ data_lines ++ term ∷ kept_lines p false rest
  unfolding kept_lines should_skip_dump_line
  kept_data [] term rest h k = rw k
  kept_data (l ∷ data_lines) term rest h k = rw (h.0, kept_data data_lines term rest h.1 k)

-- The lines of a filtered dump, the last one without a break included, are exactly those lines of the dump
-- that start or belong to the data of a COPY (up to the line that ends them), or match neither the pattern
-- of incompatible settings nor that of role-dependent statements, in their order.
pub sanitize_exact :
    (p : Patterns) (dump : Bytes)
    → lines (sanitize_dump p dump)
      ≡ map (λ (m : Bool × Bytes). m.1) (keep (stays p) (marked p false (lines dump)))
unfolding sanitize_dump
sanitize_exact p dump =
    lines-of_concat (kept_lines p false (lines dump))
      (kept-AreLines p false (lines dump) (lines-AreLines dump))
    ∙ kept-marked p false (lines dump)

-- Table data passes untouched: a line that starts a COPY, wherever it stands in the dump but for the data of
-- another COPY, the lines behind it that do not end the data, and the line that does, are all written, whatever
-- they look like. The filter goes on behind them as at the start of a dump, and the lines before them are
-- written as if they were the whole dump.
pub copy_data_untouched :
    (p : Patterns) (dump start term : Bytes) (before data_lines rest : List Bytes)
    → lines dump ≡ before ++ (start ∷ (data_lines ++ term ∷ rest))
    → in_copy_data p false before ≡ false
    → p.copy_start start ≡ true
    → All (λ l. is_copy_data_terminator l ≡ false) data_lines
    → is_copy_data_terminator term ≡ true
    → sanitize_dump p dump
      ≡ concat
          (kept_lines p false before ++ (start ∷ (data_lines ++ term ∷ kept_lines p false rest)))
unfolding sanitize_dump
copy_data_untouched p dump start term before data_lines rest read outside copy h k =
    let one : kept_lines p false (start ∷ (data_lines ++ term ∷ rest))
        ≡ start ∷ (data_lines ++ term ∷ kept_lines p false rest) =
      unfold kept_lines should_skip_dump_line in
      rw (copy, kept_data p data_lines term rest h k) refl in
    rw (read, kept-append p false before (start ∷ (data_lines ++ term ∷ rest)), outside, one) refl

-- A dump of which no line is dropped is written as it was read, the last line without a break included.
sanitize_keeps :
    (p : Patterns) (dump : Bytes)
    → kept_lines p false (lines dump) ≡ lines dump
    → sanitize_dump p dump ≡ dump
unfolding sanitize_dump
sanitize_keeps p dump h = rw h (lines-concat dump)
