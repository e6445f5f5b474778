-- ===== src/Plan/Partition.antt =====
-- How `plan_data_jobs` spreads the tables over the jobs.
use pgwarden.Prelude.{
  ℕ, suc, ◌+◌, ◌≤◌, ◌≡◌, refl, ap, sym, ◌∙◌, ◌⊎◌, inl, inr, true, false, List, [], ◌∷◌, ◌++◌, Bytes,
  length, length-append, is_empty, concat, concat-append, arith, Bool-cases, leb,
}
use mathlib.Core.List.{append_assoc, append-nil}
use pgwarden.Plan.{
  ParallelDumpJob, ParallelDumpTableInfo, PlanState, parallel_dump_batch_bytes,
  parallel_dump_batch_max_count, parallel_dump_solo_bytes, flush, solo_job, batch_is_full,
  add_to_batch, batch_loop, solo_loop, plan_data_jobs,
}

abbrev pub total_bytes : List ParallelDumpTableInfo → ℕ
total_bytes [] = 0
total_bytes (t ∷ ts) = t.bytes + total_bytes ts

abbrev pub patterns_of : List ParallelDumpTableInfo → List Bytes
patterns_of [] = []
patterns_of (t ∷ ts) = t.pattern ∷ patterns_of ts

-- A group of tables that one job may take: a single table of any size, or a batch within bounds.
abbrev pub IsBoundedGroup : List ParallelDumpTableInfo → Type 0
IsBoundedGroup ts =
    (1 ≤ length ts)
    × ((length ts ≡ 1)
        ⊎ ((total_bytes ts ≤ parallel_dump_batch_bytes)
            × (length ts ≤ parallel_dump_batch_max_count)))

-- The jobs take these groups of tables, each job its group.
pub data Takes : List ParallelDumpJob → List (List ParallelDumpTableInfo) → Type 0 where
  none_taken : Takes [] []
  one_more :
      {jobs : List ParallelDumpJob} {groups : List (List ParallelDumpTableInfo)}
      (job : ParallelDumpJob) (group : List ParallelDumpTableInfo)
      → Takes jobs groups
      → job.patterns ≡ patterns_of group
      → IsBoundedGroup group
      → Takes (jobs ++ job ∷ []) (groups ++ group ∷ [])

total_bytes-append :
    (xs ys : List ParallelDumpTableInfo) → total_bytes (xs ++ ys) ≡ total_bytes xs + total_bytes ys
total_bytes-append [] ys = omega arith
total_bytes-append (x ∷ xs) ys = omega (arith, total_bytes-append xs ys)

patterns_of-append :
    (xs ys : List ParallelDumpTableInfo) → patterns_of (xs ++ ys) ≡ patterns_of xs ++ patterns_of ys
patterns_of-append [] ys = refl
patterns_of-append (x ∷ xs) ys = rw (patterns_of-append xs ys)

length-patterns_of : (xs : List ParallelDumpTableInfo) → length (patterns_of xs) ≡ length xs
length-patterns_of [] = refl
length-patterns_of (x ∷ xs) = ap suc (length-patterns_of xs)

abbrev close : List ParallelDumpTableInfo → List (List ParallelDumpTableInfo)
close [] = []
close (t ∷ ts) = (t ∷ ts) ∷ []

concat-close :
    (gs : List (List ParallelDumpTableInfo)) (ts : List ParallelDumpTableInfo)
    → concat (gs ++ close ts) ≡ concat gs ++ ts
concat-close gs [] = rw append-nil (rw append-nil)
concat-close gs (t ∷ ts) = rw concat-append (rw append-nil)

-- The state of the loops after they have taken the tables `seen`: the jobs their groups, and the
-- batch the rest.
record HasTaken (seen : List ParallelDumpTableInfo) (s : PlanState) : Type 0 where
  groups : List (List ParallelDumpTableInfo)
  pending : List ParallelDumpTableInfo
  takes : Takes s.jobs groups
  all_seen : concat groups ++ pending ≡ seen
  in_batch : s.batch ≡ patterns_of pending
  batch_bytes : s.batch_bytes ≡ total_bytes pending
  bounded :
      (length pending ≤ 1)
      ⊎ ((total_bytes pending ≤ parallel_dump_batch_bytes)
          × (length pending ≤ parallel_dump_batch_max_count))

bounded_group :
    (t : ParallelDumpTableInfo) (ts : List ParallelDumpTableInfo)
    → ((length (t ∷ ts) ≤ 1)
        ⊎ ((total_bytes (t ∷ ts) ≤ parallel_dump_batch_bytes)
            × (length (t ∷ ts) ≤ parallel_dump_batch_max_count)))
    → IsBoundedGroup (t ∷ ts)
bounded_group t ts (inl one) = (omega arith, inl (omega arith))
bounded_group t ts (inr many) = (omega arith, inr many)

flush-Takes :
    (jobs : List ParallelDumpJob) (batch : List Bytes) (n : ℕ)
    (gs : List (List ParallelDumpTableInfo)) (ts : List ParallelDumpTableInfo)
    → Takes jobs gs
    → batch ≡ patterns_of ts
    → ((length ts ≤ 1)
        ⊎ ((total_bytes ts ≤ parallel_dump_batch_bytes)
            × (length ts ≤ parallel_dump_batch_max_count)))
    → Takes (flush (record { jobs = jobs; batch = batch; batch_bytes = n })).jobs (gs ++ close ts)
unfolding flush
flush-Takes jobs [] n gs [] k e b = rw append-nil k
flush-Takes jobs [] n gs (t ∷ ts) k e b = cc
flush-Takes jobs (p ∷ ps) n gs [] k e b = cc
flush-Takes jobs (p ∷ ps) n gs (t ∷ ts) k e b = one_more _ (t ∷ ts) k e (bounded_group t ts b)

-- What `flush` leaves: no batch.
flush-batch :
    (jobs : List ParallelDumpJob) (batch : List Bytes) (n : ℕ)
    → (flush (record { jobs = jobs; batch = batch; batch_bytes = n })).batch ≡ []
unfolding flush
flush-batch jobs [] n = refl
flush-batch jobs (p ∷ ps) n = refl

flush-batch_bytes :
    (jobs : List ParallelDumpJob) (batch : List Bytes) (n : ℕ)
    → is_empty batch ≡ false
    → (flush (record { jobs = jobs; batch = batch; batch_bytes = n })).batch_bytes ≡ 0
unfolding flush
flush-batch_bytes jobs [] n h = cc
flush-batch_bytes jobs (p ∷ ps) n h = refl

regroup :
    (gs : List (List ParallelDumpTableInfo)) (ts : List ParallelDumpTableInfo)
    (t : ParallelDumpTableInfo)
    → concat (gs ++ close ts) ++ t ∷ [] ≡ (concat gs ++ ts) ++ t ∷ []
regroup gs ts t = rw (concat-close gs ts)

full_batch :
    (s : PlanState) (t : ParallelDumpTableInfo)
    → batch_is_full s t ≡ true
    → is_empty s.batch ≡ false
unfolding batch_is_full
full_batch s t h = ground arith

-- What is left below the limits has room for one more table.
room_bounds :
    (s : PlanState) (t : ParallelDumpTableInfo) (ts : List ParallelDumpTableInfo)
    → batch_is_full s t ≡ false
    → s.batch ≡ patterns_of ts
    → s.batch_bytes ≡ total_bytes ts
    → (length (ts ++ t ∷ []) ≤ 1)
      ⊎ ((total_bytes (ts ++ t ∷ []) ≤ parallel_dump_batch_bytes)
          × (length (ts ++ t ∷ []) ≤ parallel_dump_batch_max_count))
unfolding batch_is_full
room_bounds s t [] h e n = inl (omega arith)
room_bounds s t (u ∷ us) h e n = ground (
  arith,
  rw e at h,
  total_bytes-append (u ∷ us) (t ∷ []),
  length-append (u ∷ us) (t ∷ []),
  length-patterns_of (u ∷ us),
)

module _ {seen : List ParallelDumpTableInfo} (s : PlanState) (h : HasTaken seen s)
    (t : ParallelDumpTableInfo) where
  -- A round that finds the batch full: the batch becomes a job, and `t` begins the next one.
  add_full : batch_is_full s t ≡ true → HasTaken (seen ++ t ∷ []) (add_to_batch s t)
  unfolding add_to_batch
  add_full full = rw full (record {
    groups = h.groups ++ close h.pending;
    pending = t ∷ [];
    takes =
        flush-Takes s.jobs s.batch s.batch_bytes h.groups h.pending h.takes h.in_batch h.bounded;
    all_seen = regroup h.groups h.pending t ∙ ap (λ l. l ++ t ∷ []) h.all_seen;
    in_batch = ap (λ l. l ++ t.pattern ∷ []) (flush-batch s.jobs s.batch s.batch_bytes);
    batch_bytes =
        rw (flush-batch_bytes s.jobs s.batch s.batch_bytes (full_batch s t full)) (omega arith);
    bounded = inl (omega arith);
  })

  add_room : batch_is_full s t ≡ false → HasTaken (seen ++ t ∷ []) (add_to_batch s t)
  unfolding add_to_batch
  add_room room = rw room (record {
    groups = h.groups;
    pending = h.pending ++ t ∷ [];
    takes = h.takes;
    all_seen =
        sym (append_assoc (concat h.groups) h.pending (t ∷ [])) ∙ ap (λ l. l ++ t ∷ []) h.all_seen;
    in_batch =
        ap (λ l. l ++ t.pattern ∷ []) h.in_batch ∙ sym (patterns_of-append h.pending (t ∷ []));
    batch_bytes = omega (arith, total_bytes-append h.pending (t ∷ []), h.batch_bytes);
    bounded = room_bounds s t h.pending room h.in_batch h.batch_bytes;
  })

batch_loop-HasTaken :
    (seen : List ParallelDumpTableInfo) (s : PlanState) (tables : List ParallelDumpTableInfo)
    → HasTaken seen s
    → HasTaken (seen ++ tables) (batch_loop s tables)
unfolding batch_loop
batch_loop-HasTaken seen s [] h = rw append-nil h
batch_loop-HasTaken seen s (t ∷ tables) h = rw (← append_assoc seen (t ∷ []) tables) (
    batch_loop-HasTaken (seen ++ t ∷ []) (add_to_batch s t) tables
      (elim (Bool-cases (batch_is_full s t)) [
        | inl full ↦ add_full s h t full
        | inr room ↦ add_room s h t room
      ]))

solo_loop-HasTaken :
    (seen : List ParallelDumpTableInfo) (jobs : List ParallelDumpJob)
    (gs : List (List ParallelDumpTableInfo)) (tables : List ParallelDumpTableInfo)
    → Takes jobs gs
    → concat gs ≡ seen
    → HasTaken (seen ++ tables) (solo_loop jobs tables)
unfolding solo_loop solo_job
solo_loop-HasTaken seen jobs gs [] k e = record {
  groups = gs;
  pending = [];
  takes = k;
  all_seen = ap (λ l. l ++ []) e;
  in_batch = refl;
  batch_bytes = refl;
  bounded = inl (omega arith);
}
solo_loop-HasTaken seen jobs gs (t ∷ tables) k e =
    elim (Bool-cases (leb parallel_dump_solo_bytes t.bytes)) [
      | inl solo ↦ rw solo (
          rw (← append_assoc seen (t ∷ []) tables) (
            solo_loop-HasTaken (seen ++ t ∷ []) _ (gs ++ (t ∷ []) ∷ []) tables
              (one_more _ (t ∷ []) k refl (omega arith, inl refl))
              (concat-append gs ((t ∷ []) ∷ []) ∙ ap (λ l. l ++ t ∷ []) e)))
      | inr small ↦ rw small (
          batch_loop-HasTaken seen _ (t ∷ tables) (record {
            groups = gs;
            pending = [];
            takes = k;
            all_seen = append-nil (concat gs) ∙ e;
            in_batch = refl;
            batch_bytes = refl;
            bounded = inl (omega arith);
          }))
    ]

-- The jobs of a plan take, in order, groups of tables that together are the tables given, each table
-- once and none left out, and each group is a single table or a batch of at most 200 tables and
-- 256 MiB.
pub plan_partition :
    (tables : List ParallelDumpTableInfo)
    → (groups : List (List ParallelDumpTableInfo)) × Takes (plan_data_jobs tables) groups
      × (concat groups ≡ tables)
unfolding plan_data_jobs
plan_partition tables =
    let h = solo_loop-HasTaken [] [] [] tables none_taken refl in
    let s = solo_loop [] tables in
    (
      h.groups ++ close h.pending,
      flush-Takes s.jobs s.batch s.batch_bytes h.groups h.pending h.takes h.in_batch h.bounded,
      concat-close h.groups h.pending ∙ h.all_seen,
    )
