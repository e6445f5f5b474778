-- ===== src/LogTail.antt =====
-- internal/util/logtail/logtail.go and internal/util/progress/progress.go. Times are seconds since the
-- zero time of Go, so the first write is far from `last_flush`. A flush that `Write` starts runs in a
-- goroutine of its own: it waits among `in_flight` until `run_flush` takes it, in any order. The
-- counters `seq` and `flushed_seq` (uint64) stay below 2^64.
pub mod Lines
pub mod Flushes
mod Tests
use pgwarden.Prelude.{
  ℕ, zero, suc, ◌+◌, ◌-◌, Bool, true, false, not, ◌&&◌, ◌||◌, Option, none, some, List, [], ◌∷◌,
  ◌++◌, Bytes, codes, length, is_empty, keep_last, keep, ltb, leb, if◌then◌else◌,
}
use pgwarden.Go.Strings.{cut, trim_space, join, split}

abbrev pub max_lines : ℕ
max_lines = 20

abbrev pub min_flush_gap : ℕ
min_flush_gap = 2

-- A flush with its sequence number.
pub record Flush : Type 0 where
  pub seq : ℕ
  pub lines : List Bytes

pub record Tail : Type 0 where
  pub lines : List Bytes
  pub pending : Bytes
  pub has_flush : Bool
  pub last_flush : ℕ
  pub seq : ℕ
  pub flushed_seq : ℕ
  pub in_flight : List Flush
  -- the calls of the flush function, the last one first
  pub flushed : List Flush

pub new_tail : Bool → Tail
new_tail has_flush = record {
  lines = [];
  pending = [];
  has_flush = has_flush;
  last_flush = 0;
  seq = 0;
  flushed_seq = 0;
  in_flight = [];
  flushed = [];
}

-- What is done with the text of a line.
pub add_line : Bytes → List Bytes → List Bytes
add_line line lines = if is_empty line then lines else keep_last max_lines (lines ++ line ∷ [])

-- The loop of `Write` over the pending text; each round takes a line break, so the length of the text
-- is enough fuel.
pub drain : ℕ → Bytes → List Bytes → Bytes × List Bytes
drain zero s lines = (s, lines)
drain (suc f) s lines = elim (cut b'\n' s) [
  | none ↦ (s, lines)
  | some (line, rest) ↦ drain f rest (add_line (trim_space line) lines)
]

pub drained : Tail → Bytes → Bytes × List Bytes
drained t p = let s = t.pending ++ p in drain (length s) s t.lines

-- maybeFlushLocked
pub maybe_flush : ℕ → Tail → Tail
maybe_flush now t =
    if not t.has_flush || is_empty t.lines
    then t
    else if ltb (now - t.last_flush) min_flush_gap
    then t
    else record t {
      last_flush = now;
      seq = t.seq + 1;
      in_flight = t.in_flight ++ record { seq = t.seq + 1; lines = t.lines } ∷ [];
    }

pub write : Tail → ℕ → Bytes → Tail
write t now p =
    let (pending, lines) = drained t p in
    maybe_flush now (record t { pending = pending; lines = lines })

pub run_flush : Tail → Flush → Tail
run_flush t f =
    if leb f.seq t.flushed_seq then t else record t { flushed_seq = f.seq; flushed = f ∷ t.flushed }

-- FlushNow
pub flush_now : Tail → Tail
flush_now t =
    if not t.has_flush || is_empty t.lines
    then t
    else run_flush (record t { seq = t.seq + 1 }) (record { seq = t.seq + 1; lines = t.lines })

-- Join
pub join_lines : List Bytes → Bytes
join_lines lines = join (codes "\n") (keep_last max_lines lines)

pub trimmed : List Bytes → List Bytes
trimmed [] = []
trimmed (l ∷ lines) = trim_space l ∷ trimmed lines

-- Parse; `nil` is the empty list.
pub parse : Bytes → List Bytes
parse raw =
    let raw = trim_space raw in
    if is_empty raw
    then []
    else keep_last max_lines (keep (λ l. not (is_empty l)) (trimmed (split b'\n' raw)))

-- The state of progress.Reader, and what it has reported.
pub record Reader : Type 0 where
  pub total : ℕ
  pub last_flush : ℕ
  pub reported : List ℕ

-- Read, when the reader below it has returned `n` bytes.
pub read : Reader → ℕ → ℕ → Reader
read r now n =
    if ltb 0 n
    then (if leb min_flush_gap (now - r.last_flush)
        then record r {
          total = r.total + n;
          last_flush = now;
          reported = r.reported ++ (r.total + n) ∷ [];
        }
        else record r { total = r.total + n })
    else r
