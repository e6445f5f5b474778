-- ===== src/Unpack/Tests.antt =====
-- The archive of a dump of one table, and the run of its data phase by one goroutine.
use pgwarden.Prelude.{
  true, ◌≡◌, refl, Bool, false, Option, none, List, [], ◌∷◌, Bytes, codes, text_eq, text_eq_iff,
  All, arith, ◌>>◌,
}
use pgwarden.Dump.{Arrival, run_parallel_dump, pre_data_file_name, post_data_file_name}
use pgwarden.Unpack.{
  data_workers, ZipFile, Manifest, find_file, unit_or, file_error, restore_parallel_dump,
}
use pgwarden.Unpack.Phase.{
  Pool, start, take_file, finish, leave, Steps, here, next, IsFinished, result,
}
use pgwarden.Unpack.Drains.{count, phase_restores_all}
use pgwarden.Unpack.Order.{IsDataName, dump_restores}

abbrev pre_data : ZipFile
pre_data = record { name = codes "00-pre-data.sql"; text = codes "CREATE TABLE t ();" }

abbrev globals : ZipFile
globals = record { name = codes "10-data-globals.sql"; text = codes "COPY t FROM stdin;" }

abbrev post_data : ZipFile
post_data = record { name = codes "99-post-data.sql"; text = codes "CREATE INDEX i;" }

abbrev entries : List ZipFile
entries = pre_data ∷ globals ∷ post_data ∷ []

abbrev arrivals : List Arrival
arrivals = record { name = codes "10-data-globals.sql"; error = none } ∷ []

abbrev manifest : Manifest
manifest = record {
  format = codes "pgwarden-parallel-v1";
  files = codes "00-pre-data.sql" ∷ codes "10-data-globals.sql" ∷ codes "99-post-data.sql" ∷ [];
}

globals-IsDataName : IsDataName (codes "10-data-globals.sql")
unfolding IsDataName text_eq
globals-IsDataName = (
  (λ h. absurd (let no = (text_eq_iff (codes "10-data-globals.sql") pre_data_file_name).1 h in cc)),
  (λ h.
      absurd (let no = (text_eq_iff (codes "10-data-globals.sql") post_data_file_name).1 h in cc)),
)

dump_restores_example :
    restore_parallel_dump (λ f. none) (λ fs. none) entries manifest
    ≡ (unit_or (file_error pre_data none) >> (unit_or none >> unit_or (file_error post_data none)))
unfolding run_parallel_dump find_file text_eq pgwarden.Dump.collect
dump_restores_example =
    dump_restores (λ f. none) (λ fs. none) entries manifest none none none arrivals pre_data
      post_data (globals ∷ []) refl refl refl (refl, tt) (globals-IsDataName, tt)

abbrev at_start : Pool
at_start = record {
  queue = globals ∷ [];
  closed = true;
  in_work = [];
  restored = [];
  given_up = [];
  workers = 1;
  ended = 0;
  errors = [];
  capacity = 1;
  cancelled = false;
  aborted = false;
}

abbrev at_end : Pool
at_end = record at_start { queue = []; restored = globals ∷ []; workers = 0; ended = 1 }

starts : start 4 (globals ∷ []) ≡ at_start
unfolding start pgwarden.Unpack.data_workers
starts = refl

run : Steps (λ f. none) (start 4 (globals ∷ [])) at_end
unfolding start pgwarden.Unpack.data_workers
run =
    next
      (next (next here (take_file globals [] refl (omega arith))) (finish [] [] globals refl refl))
      (leave refl refl (omega arith))

ended : IsFinished at_end
ended = record { idle = refl; all_ended = refl }

phase_restores_all_example :
    ((p : ZipFile → Bool) → count p (globals ∷ []) ≡ count p (globals ∷ []))
    × All (λ f. ◌≡◌ {A = Option Bytes} none none) (globals ∷ [])
unfolding result
phase_restores_all_example =
    phase_restores_all (λ f. none) 4 (globals ∷ []) at_end run ended refl refl
