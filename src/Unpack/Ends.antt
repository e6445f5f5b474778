-- ===== src/Unpack/Ends.antt =====
-- restoreDataFiles (internal/integration/postgres/restore.go): how far its goroutines go.
use pgwarden.Prelude.{ℕ, suc, ◌+◌, ◌*◌, Bool, true, false, Option, Bytes, length}
use pgwarden.Unpack.{ZipFile}
use pgwarden.Unpack.Phase.{Pool, Steps, here, next}

-- How many moves the goroutines have made.
pub moves : {psql : ZipFile → Option Bytes} {s t : Pool} → Steps psql s t → ℕ
moves here = 0
moves (next r step) = suc (moves r)

abbrev flag : Bool → ℕ
flag true = 0
flag false = 1

-- A bound of the moves that are left.
abbrev left : Pool → ℕ
left s = 2 * length s.queue + (length s.in_work + (s.workers + (flag s.cancelled + flag s.aborted)))
