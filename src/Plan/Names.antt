-- ===== src/Plan/Names.antt =====
-- The file names of a plan.
use pgwarden.Prelude.{
  ℕ, zero, suc, ◌+◌, ◌-◌, ◌≡◌, ◌≢◌, refl, ap, some, List, [], ◌∷◌, ◌++◌, Bytes, length, drop, arith,
  Bool-cases, inl, inr, leb, is_empty, get_elem?,
}
use pgwarden.Go.Strconv.{is_digit, itoa, parse_digits}
use pgwarden.Go.Strconv.Digits.{lead, lead-digits, itoa-value}
use pgwarden.Plan.{
  ParallelDumpJob, ParallelDumpTableInfo, PlanState, pad5, zeros, solo_name, batch_name, solo_job,
  flush, batch_is_full, add_to_batch, batch_loop, solo_loop, plan_data_jobs,
  parallel_dump_solo_bytes,
}

zeros-value :
    (k v : ℕ) (s : Bytes) → parse_digits 0 s ≡ some v → parse_digits 0 (zeros k ++ s) ≡ some v
unfolding parse_digits
zeros-value zero v s h = h
zeros-value (suc k) v s h = zeros-value k v s h

pad5-value : (n : ℕ) → parse_digits 0 (pad5 n) ≡ some n
unfolding pad5
pad5-value n = zeros-value (5 - length (itoa n)) n (itoa n) (itoa-value n)

-- The number that a file name carries.
abbrev number_of : Bytes → ℕ
number_of name = lead 0 (drop 8 name)

solo_name-number :
    (jobs : List ParallelDumpJob) (p : Bytes) → number_of (solo_name jobs p) ≡ length jobs + 1
unfolding solo_name is_digit
solo_name-number jobs p =
    lead-digits 0 (length jobs + 1) b'-' (pad5 (length jobs + 1)) _ refl (pad5-value _)

batch_name-number : (jobs : List ParallelDumpJob) → number_of (batch_name jobs) ≡ length jobs + 1
unfolding batch_name is_digit
batch_name-number jobs =
    lead-digits 0 (length jobs + 1) b'-' (pad5 (length jobs + 1)) _ refl (pad5-value _)

-- The jobs carry the numbers from `n` on.
abbrev NumberedFrom : ℕ → List ParallelDumpJob → Type 0
NumberedFrom n [] = Unit
NumberedFrom n (j ∷ js) = (number_of j.file_name ≡ n) × NumberedFrom (suc n) js

NumberedFrom-append :
    (n : ℕ) (js : List ParallelDumpJob) (j : ParallelDumpJob)
    → NumberedFrom n js
    → number_of j.file_name ≡ n + length js
    → NumberedFrom n (js ++ j ∷ [])
NumberedFrom-append n [] j h e = (omega arith, tt)
NumberedFrom-append n (k ∷ js) j h e = (h.0, NumberedFrom-append (suc n) js j h.1 (omega arith))

NumberedFrom-get_elem? :
    (n : ℕ) (js : List ParallelDumpJob) (i : ℕ) (j : ParallelDumpJob)
    → NumberedFrom n js
    → get_elem? js i ≡ some j
    → number_of j.file_name ≡ n + i
NumberedFrom-get_elem? n [] i j h e = cc
NumberedFrom-get_elem? n (k ∷ js) zero j h e = ground (arith, h.0)
NumberedFrom-get_elem? n (k ∷ js) (suc i) j h e =
    omega (arith, NumberedFrom-get_elem? (suc n) js i j h.1 e)

flush-Numbered : (s : PlanState) → NumberedFrom 1 s.jobs → NumberedFrom 1 (flush s).jobs
unfolding flush
flush-Numbered s h = elim (Bool-cases (is_empty s.batch)) [
  | inl e ↦ rw e h
  | inr e ↦ rw e (NumberedFrom-append 1 s.jobs _ h (omega (arith, batch_name-number s.jobs)))
]

batch_loop-Numbered :
    (s : PlanState) (tables : List ParallelDumpTableInfo)
    → NumberedFrom 1 s.jobs
    → NumberedFrom 1 (batch_loop s tables).jobs
unfolding batch_loop add_to_batch
batch_loop-Numbered s [] h = h
batch_loop-Numbered s (t ∷ tables) h =
    batch_loop-Numbered (add_to_batch s t) tables
      (elim (Bool-cases (batch_is_full s t)) [ inl e ↦ rw e (flush-Numbered s h) | inr e ↦ rw e h ])

solo_loop-Numbered :
    (jobs : List ParallelDumpJob) (tables : List ParallelDumpTableInfo)
    → NumberedFrom 1 jobs
    → NumberedFrom 1 (solo_loop jobs tables).jobs
unfolding solo_loop solo_job
solo_loop-Numbered jobs [] h = h
solo_loop-Numbered jobs (t ∷ tables) h = elim (Bool-cases (leb parallel_dump_solo_bytes t.bytes)) [
  | inl e ↦ rw e (
      solo_loop-Numbered (jobs ++ solo_job jobs t ∷ []) tables
        (NumberedFrom-append 1 jobs _ h (omega (arith, solo_name-number jobs t.pattern))))
  | inr e ↦ rw e (batch_loop-Numbered _ (t ∷ tables) h)
]

-- Two jobs at different places of a plan write files of different names.
pub plan_names_distinct :
    (tables : List ParallelDumpTableInfo) (i k : ℕ) (a b : ParallelDumpJob)
    → get_elem? (plan_data_jobs tables) i ≡ some a
    → get_elem? (plan_data_jobs tables) k ≡ some b
    → i ≢ k
    → a.file_name ≢ b.file_name
unfolding plan_data_jobs
plan_names_distinct tables i k a b ha hb ne e =
    let numbered = flush-Numbered (solo_loop [] tables) (solo_loop-Numbered [] tables tt) in
    ne (
      omega (
        arith,
        NumberedFrom-get_elem? 1 _ i a numbered ha,
        NumberedFrom-get_elem? 1 _ k b numbered hb,
        ap number_of e,
      ))
