-- ===== src/Sanitize/Tests.antt =====
-- A dump with a GRANT before and among the data of a table.
use pgwarden.Prelude.{
  Bool, keep, map, ◌≡◌, refl, false, [], ◌∷◌, ◌++◌, concat, Bytes, codes, text_eq,
}
use pgwarden.Go.Strings.{has_prefix, trim_right}
use pgwarden.Sanitize.{
  Patterns, lines, is_copy_data_terminator, should_skip_dump_line, kept_lines, sanitize_dump,
}
use pgwarden.Sanitize.Filter.{in_copy_data, marked, stays, sanitize_exact, copy_data_untouched}

abbrev patterns : Patterns
patterns = record {
  copy_start = λ l. has_prefix l (codes "COPY ");
  incompatible_set = λ l. has_prefix l (codes "SET transaction_timeout");
  role_dependent = λ l. has_prefix l (codes "GRANT ");
}

abbrev copy_line : Bytes
copy_line = codes "COPY t FROM stdin;" ++ 10 ∷ []

abbrev grant_line : Bytes
grant_line = codes "GRANT ALL;" ++ 10 ∷ []

abbrev end_line : Bytes
end_line = 92 ∷ 46 ∷ 10 ∷ []

abbrev table : Bytes
table = copy_line ++ (grant_line ++ end_line)

drops_grant : sanitize_dump patterns (grant_line ++ table) ≡ table
unfolding sanitize_dump lines kept_lines should_skip_dump_line is_copy_data_terminator has_prefix
    trim_right text_eq
drops_grant = refl

sanitize_exact_example :
    lines (sanitize_dump patterns (grant_line ++ table))
    ≡ map
        (λ (m : Bool × Bytes). m.1)
        (keep (stays patterns) (marked patterns false (lines (grant_line ++ table))))
sanitize_exact_example = sanitize_exact patterns (grant_line ++ table)

-- The data of a table stand behind a GRANT.
copy_data_untouched_example :
    sanitize_dump patterns (grant_line ++ table)
    ≡ concat (
        kept_lines patterns false (grant_line ∷ [])
        ++ (copy_line ∷ ((grant_line ∷ []) ++ end_line ∷ kept_lines patterns false [])))
unfolding lines is_copy_data_terminator has_prefix trim_right text_eq in_copy_data
copy_data_untouched_example =
    copy_data_untouched patterns (grant_line ++ table) copy_line end_line (grant_line ∷ [])
      (grant_line ∷ []) [] refl refl refl (refl, tt) refl
