-- ===== src/Unpack/Phase.antt =====
-- restoreDataFiles (internal/integration/postgres/restore.go): the goroutines that restore the data
-- files, as steps. psql's answer for a file is a parameter.
use pgwarden.Prelude.{
  ℕ, suc, ◌-◌, ◌<◌, ◌≡◌, Bool, true, false, Option, none, some, List, [], ◌∷◌, ◌++◌, Bytes, length,
  ◌⊎◌,
}
use pgwarden.Unpack.{ZipFile, UnpackError, file_failed, data_workers}

-- The channels and goroutines: the files in the queue and whether it is closed, those in work, restored
-- and given up, the number of goroutines that have not ended and of those that found the queue empty and
-- ended, the errors sent and how many the channel `errs` holds, and whether the context of the phase, or that
-- of its caller, is cancelled.
pub record Pool : Type 0 where
  pub queue : List ZipFile
  pub closed : Bool
  pub in_work : List ZipFile
  pub restored : List ZipFile
  pub given_up : List ZipFile
  pub workers : ℕ
  pub ended : ℕ
  pub errors : List UnpackError
  pub capacity : ℕ
  pub cancelled : Bool
  pub aborted : Bool

unfoldable pub start : ℕ → List ZipFile → Pool
start jobs files = record {
  queue = files;
  closed = true;
  in_work = [];
  restored = [];
  given_up = [];
  workers = data_workers jobs files;
  ended = 0;
  errors = [];
  capacity = data_workers jobs files;
  cancelled = false;
  aborted = false;
}

-- One move of a goroutine: it takes a file and starts psql; psql ends well or badly; it sees that the
-- context is cancelled and ends, the file that it took with it; it finds the closed queue empty and ends; the
-- cancellation that follows an error takes effect; the caller's context is cancelled. An error can be sent only
-- while the channel has room, and an empty queue ends a goroutine only if it is closed: else these wait.
pub data Step (psql : ZipFile → Option Bytes) (s : Pool) : Pool → Type 0 where
  take_file :
      (f : ZipFile) (rest : List ZipFile)
      → s.queue ≡ f ∷ rest
      → length s.in_work < s.workers
      → Step psql s (record s { queue = rest; in_work = f ∷ s.in_work })
  finish :
      (before after : List ZipFile) (f : ZipFile)
      → s.in_work ≡ before ++ f ∷ after
      → psql f ≡ none
      → Step psql s (record s { in_work = before ++ after; restored = s.restored ++ f ∷ [] })
  fail :
      (before after : List ZipFile) (f : ZipFile) (e : Bytes)
      → s.in_work ≡ before ++ f ∷ after
      → psql f ≡ some e
      → length s.errors < s.capacity
      → Step psql s (record s {
        in_work = before ++ after;
        given_up = f ∷ s.given_up;
        workers = s.workers - 1;
        errors = s.errors ++ file_failed f.name e ∷ [];
      })
  kill :
      (before after : List ZipFile) (f : ZipFile) (e : Bytes)
      → s.in_work ≡ before ++ f ∷ after
      → (s.cancelled ≡ true) ⊎ (s.aborted ≡ true)
      → length s.errors < s.capacity
      → Step psql s (record s {
        in_work = before ++ after;
        given_up = f ∷ s.given_up;
        workers = s.workers - 1;
        errors = s.errors ++ file_failed f.name e ∷ [];
      })
  drop_file :
      (f : ZipFile) (rest : List ZipFile)
      → s.queue ≡ f ∷ rest
      → length s.in_work < s.workers
      → (s.cancelled ≡ true) ⊎ (s.aborted ≡ true)
      → Step psql s (record s { queue = rest; given_up = f ∷ s.given_up; workers = s.workers - 1 })
  leave :
      s.queue ≡ []
      → s.closed ≡ true
      → length s.in_work < s.workers
      → Step psql s (record s { workers = s.workers - 1; ended = suc s.ended })
  cancel :
      s.cancelled ≡ false
      → (e : UnpackError) (errors : List UnpackError) → s.errors ≡ e ∷ errors
      → Step psql s (record s { cancelled = true })
  abort : s.aborted ≡ false → Step psql s (record s { aborted = true })

pub data Steps (psql : ZipFile → Option Bytes) (s : Pool) : Pool → Type 0 where
  here : Steps psql s s
  next : {a b : Pool} → Steps psql s a → Step psql a b → Steps psql s b

-- wg.Wait has returned: every goroutine has ended.
pub record IsFinished (s : Pool) : Type 0 where
  pub idle : s.in_work ≡ []
  pub all_ended : s.workers ≡ 0

abbrev pub first {ℓ} : {A : Type ℓ} → List A → Option A
first [] = none
first (e ∷ errors) = some e

-- `return <-errs` on the closed channel
unfoldable pub result : Pool → Option UnpackError
result s = first s.errors
