-- ===== src/LogTail/Tests.antt =====
-- A dump that writes three lines, the second one in two pieces.
use pgwarden.Prelude.{◌+◌, ◌≡◌, refl, true, [], ◌∷◌, ◌++◌, Bytes, codes, inl}
use pgwarden.LogTail.{
  Tail, Flush, new_tail, write, drained, drain, add_line, maybe_flush, flush_now, join_lines, parse,
  trimmed, read,
}
use pgwarden.LogTail.Lines.{IsOneLine, text_of, write_split}
use pgwarden.LogTail.Flushes.{here, next, wrote, land_all, flush_now-wins}

abbrev first_piece : Bytes
first_piece = codes "dumping a\n dump"

abbrev second_piece : Bytes
second_piece = codes "ing b\n\n"

abbrev after_first : Tail
after_first = write (new_tail true) 100 first_piece

abbrev after_second : Tail
after_second = write after_first 101 second_piece

two_lines : after_second.lines ≡ codes "dumping a" ∷ codes "dumping b" ∷ []
unfolding write drained drain add_line maybe_flush new_tail pgwarden.Go.Strings.cut
    pgwarden.Go.Strings.before_cut pgwarden.Go.Strings.trim_space
two_lines = refl

parsed : parse (codes " a\n\n b ") ≡ codes "a" ∷ codes "b" ∷ []
unfolding parse trimmed pgwarden.Go.Strings.trim_space pgwarden.Go.Strings.split
parsed = refl

joined : join_lines (codes "a" ∷ codes "b" ∷ []) ≡ codes "a\nb"
unfolding join_lines pgwarden.Go.Strings.join
joined = refl

-- The second read comes too early for a report.
reported :
    (read (read (record { total = 0; last_flush = 0; reported = [] }) 100 5) 101 7).reported
    ≡ 5 ∷ []
unfolding read
reported = refl

write_split_example :
    (text_of (write (write (new_tail true) 100 first_piece) 101 second_piece)
      ≡ text_of (write (new_tail true) 100 (first_piece ++ second_piece)))
    × IsOneLine (write (new_tail true) 100 (first_piece ++ second_piece)).pending
unfolding new_tail
write_split_example = write_split (new_tail true) 100 101 100 first_piece second_piece refl

abbrev early : Flush
early = record { seq = 1; lines = codes "dumping a" ∷ [] }

flush_now-wins_example :
    (land_all (flush_now after_second) (early ∷ [])).flushed
    ≡ record { seq = after_second.seq + 1; lines = after_second.lines } ∷ after_second.flushed
unfolding new_tail write drained drain add_line maybe_flush pgwarden.Go.Strings.cut
    pgwarden.Go.Strings.before_cut pgwarden.Go.Strings.trim_space
flush_now-wins_example =
    flush_now-wins after_second (early ∷ [])
      (next (next here (wrote (new_tail true) 100 first_piece))
        (wrote after_first 101 second_piece))
      refl refl (inl refl, tt)
