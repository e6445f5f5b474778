-- ===== src/Sanitize.antt =====
-- internal/integration/postgres/dump_sanitize.go: the filter on the lines of a dump. The three regular
-- expressions are arguments. A dump is read to its end.
pub mod Lines
pub mod Filter
mod Tests
use pgwarden.Prelude.{
  ℕ, Bool, true, false, not, ◌&&◌, ◌||◌, List, [], ◌∷◌, ◌++◌, concat, Bytes, codes, text_eq,
  is_empty, ◌==◌, if◌then◌else◌,
}
use pgwarden.Go.Strings.{trim_right}

-- copyStartLine, incompatibleDumpSetLine and roleDependentDumpLine
pub record Patterns : Type 0 where
  pub copy_start : Bytes → Bool
  pub incompatible_set : Bytes → Bool
  pub role_dependent : Bytes → Bool

abbrev push_line : ℕ → List Bytes → List Bytes
push_line c [] = (c ∷ []) ∷ []
push_line c (l ∷ ls) = (c ∷ l) ∷ ls

-- What the calls of ReadString('\n') return, without the empty text at the end.
unfoldable pub lines : Bytes → List Bytes
lines [] = []
lines (c ∷ s) = let rest = lines s in if c == 10 then (c ∷ []) ∷ rest else push_line c rest

abbrev is_line_end : ℕ → Bool
is_line_end c = c == 13 || c == 10

-- isCopyDataTerminator
unfoldable pub is_copy_data_terminator : Bytes → Bool
unfolding trim_right text_eq
is_copy_data_terminator line = text_eq (trim_right is_line_end line) (b'\\' ∷ b'.' ∷ [])

-- shouldSkipDumpLine: whether the line is dropped, and inCopyData after it
unfoldable pub should_skip_dump_line : Patterns → Bytes → Bool → Bool × Bool
should_skip_dump_line p line true = (false, not (is_copy_data_terminator line))
should_skip_dump_line p line false =
    if p.copy_start line
    then (false, true)
    else (p.incompatible_set line || p.role_dependent line, false)

-- The lines that are written.
unfoldable pub kept_lines : Patterns → Bool → List Bytes → List Bytes
kept_lines p in_copy [] = []
kept_lines p in_copy (l ∷ ls) =
    let (skip, after) = should_skip_dump_line p l in_copy in
    let rest = kept_lines p after ls in if skip then rest else l ∷ rest

-- sanitizeDumpReader
unfoldable pub sanitize_dump : Patterns → Bytes → Bytes
unfolding lines kept_lines
sanitize_dump p dump = concat (kept_lines p false (lines dump))
